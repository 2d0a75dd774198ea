-- ===== src/GapReport.antt =====
-- evals/gap_report.py: the status of each requirement in a run of the evaluations.
pub mod Types
pub mod Catalogue
pub mod Regressions
pub mod Failed
pub mod Markdown
pub mod Totals
use postgre_data_migration_a.Prelude.{
  Bool, true, false, ◌||◌, Option, none, some, List, [], ◌∷◌, ◌++◌, Text, codes, same, any,
  if◌then◌else◌,
}
use postgre_data_migration_a.GapReport.Types.{
  Outcome, pass, fail, skip, missing, outcome_text, Baseline, full, partial, gap, deferred, Br,
  Status, verified, partly, regression, skipped, unverified, out_of_band, out_of_scope, Verdict,
}

-- `dict.get(key, default)`.
abbrev pub get_or_default {ℓ} : {A : Type ℓ} → Text → A → List (Text × A) → A
get_or_default key default [] = default
get_or_default key default (e ∷ entries) =
    let rest = get_or_default key default entries in if same e.0 key then e.1 else rest

-- `dict[key] = f(old)`, where an absent key is appended with `default` as the old value.
abbrev pub put {ℓ} : {A : Type ℓ} → Text → A → (A → A) → List (Text × A) → List (Text × A)
put key default f [] = (key, f default) ∷ []
put key default f (e ∷ entries) =
    let rest = put key default f entries in
    if same e.0 key then (e.0, f e.1) ∷ entries else e ∷ rest

abbrev pub is_outcome : Outcome → Outcome → Bool
is_outcome pass pass = true
is_outcome fail fail = true
is_outcome skip skip = true
is_outcome missing missing = true
is_outcome _ _ = false

abbrev pub has_outcome : Outcome → List (Text × Outcome) → Bool
has_outcome o results = any (λ e. is_outcome o e.1) results

abbrev pub skip_or_missing : List (Text × Outcome) → Outcome
skip_or_missing [] = missing
skip_or_missing (e ∷ results) = skip

abbrev pub any_scenario : Text
any_scenario = codes "__any__"

abbrev pub any_outcome : List (Text × Outcome) → Outcome
any_outcome results =
    if has_outcome pass results
    then pass
    else if has_outcome fail results
    then fail
    else skip_or_missing results

-- `_scenario_outcome`.
unfoldable pub scenario_outcome : Text → Text → List (Text × List (Text × Outcome)) → Outcome
scenario_outcome tier name by_tier =
    let tier_results = get_or_default tier [] by_tier in
    if same name any_scenario
    then any_outcome tier_results
    else get_or_default name missing tier_results

-- The local variables of the loop in `compute_status`.
pub record Seen : Type 0 where
  pub details : List Text
  pub any_pass : Bool
  pub any_fail : Bool
  pub any_skip : Bool

abbrev pub mark : Outcome → Seen → Seen
mark pass x = record x { any_pass = true }
mark fail x = record x { any_fail = true }
mark skip x = record x { any_skip = true }
mark missing x = x

abbrev pub tag_of : Text → Text
tag_of scenario = if same scenario any_scenario then codes "(any scenario)" else scenario

abbrev pub detail_of : Text → Text → Outcome → Text
detail_of tier scenario outcome =
    codes "tier_" ++ tier ++ codes "/" ++ tag_of scenario ++ codes ": " ++ outcome_text outcome

-- The body of the loop.
abbrev pub see : Text → Text → Outcome → Seen → Seen
see tier scenario outcome x =
    mark outcome (record x { details = x.details ++ (detail_of tier scenario outcome ∷ []) })

unfoldable pub see_scenarios : List (Text × List (Text × Outcome)) → Text → List Text → Seen → Seen
unfolding scenario_outcome
see_scenarios by_tier tier [] x = x
see_scenarios by_tier tier (scenario ∷ scenarios) x =
    see_scenarios by_tier tier scenarios
      (see tier scenario (scenario_outcome tier scenario by_tier) x)

unfoldable pub see_tiers :
    List (Text × List (Text × Outcome)) → List (Text × List Text) → Seen → Seen
unfolding see_scenarios
see_tiers by_tier [] x = x
see_tiers by_tier (c ∷ covering) x = see_tiers by_tier covering (see_scenarios by_tier c.0 c.1 x)

abbrev pub unseen : Seen
unseen = record { details = []; any_pass = false; any_fail = false; any_skip = false }

-- `", ".join(…)`.
abbrev pub join : Text → List Text → Text
join separator [] = []
join separator (t ∷ []) = t
join separator (t ∷ u ∷ ts) = t ++ separator ++ join separator (u ∷ ts)

abbrev pub passed_status : Baseline → Status
passed_status partial = partly
passed_status full = verified
passed_status gap = verified
passed_status deferred = verified

-- Behind the loop.
abbrev pub concluded : Br → Seen → Verdict
concluded br x =
    if x.any_fail
    then record { status = regression; details = x.details }
    else if x.any_pass
    then record { status = passed_status br.baseline; details = x.details }
    else if x.any_skip
    then (if br.skip_means_verified
        then record {
          status = verified;
          details = x.details ++ (codes "Skip is the contract for this BR" ∷ []);
        }
        else record { status = skipped; details = x.details })
    else record { status = unverified; details = x.details }

abbrev pub out_of_band_or_not : List Text → Verdict
out_of_band_or_not [] = record { status = unverified; details = codes "No covering test" ∷ [] }
out_of_band_or_not (layer ∷ layers) = record {
  status = out_of_band;
  details =
      (codes "Verified by " ++ join (codes ", ") (layer ∷ layers) ++ codes " (not in this run)")
      ∷ [];
}

abbrev pub uncovered_baseline : Baseline → List Text → Verdict
uncovered_baseline gap layers = record {
  status = unverified;
  details = codes "No eval covers this BR" ∷ [];
}
uncovered_baseline full layers = out_of_band_or_not layers
uncovered_baseline partial layers = out_of_band_or_not layers
uncovered_baseline deferred layers = out_of_band_or_not layers

-- `if not covering`.
abbrev pub uncovered : Br → Verdict
uncovered br =
    if br.implicitly_verified
    then record { status = verified; details = codes "Implicit (Inspection)" ∷ [] }
    else uncovered_baseline br.baseline br.oob_layers

abbrev pub covered_or_not :
    Br → List (Text × List (Text × Outcome)) → List (Text × List Text) → Verdict
covered_or_not br by_tier [] = uncovered br
covered_or_not br by_tier (c ∷ covering) = concluded br (see_tiers by_tier (c ∷ covering) unseen)

abbrev pub in_scope : Baseline → Bool
in_scope full = true
in_scope partial = true
in_scope gap = true
in_scope deferred = false

unfoldable pub compute_status : Br → List (Text × List (Text × Outcome)) → Verdict
compute_status br by_tier =
    if in_scope br.baseline
    then covered_or_not br by_tier br.covering_evals
    else record { status = out_of_scope; details = [] }

-- An entry of `scenarios` in summary.json.
pub record Scenario : Type 0 where
  pub tier : Option Text
  pub name : Option Text
  pub skipped : Bool
  pub passed : Bool

abbrev pub or_unknown : Option Text → Text
or_unknown none = codes "?"
or_unknown (some t) = t

abbrev pub outcome_of : Scenario → Outcome
outcome_of sc = if sc.skipped then skip else if sc.passed then pass else fail

-- `by_tier.setdefault(tier, {})[name] = outcome`.
abbrev pub record_outcome :
    Scenario → List (Text × List (Text × Outcome)) → List (Text × List (Text × Outcome))
record_outcome sc by_tier =
    put (or_unknown sc.tier) [] (put (or_unknown sc.name) missing (λ old. outcome_of sc)) by_tier

-- The loop of `_outcomes_by_tier`.
unfoldable pub outcomes_from :
    List (Text × List (Text × Outcome)) → List Scenario → List (Text × List (Text × Outcome))
outcomes_from by_tier [] = by_tier
outcomes_from by_tier (sc ∷ scenarios) = outcomes_from (record_outcome sc by_tier) scenarios

-- `_outcomes_by_tier`.
abbrev pub outcomes_by_tier : List Scenario → List (Text × List (Text × Outcome))
outcomes_by_tier scenarios = outcomes_from [] scenarios
