-- ===== src/Runner/Calm.antt =====
-- evals/runner.py and evals/gap_report.py: results that are no failures, and their statuses.
use postgre_data_migration_a.Prelude.{
  Bool, true, false, ◌||◌, List, [], ◌∷◌, ◌≡◌, ◌≢◌, refl, inl, inr, Text, same, All, Bool-cases,
  if◌then◌else◌,
}
use postgre_data_migration_a.GapReport.Types.{
  Outcome, pass, fail, skip, missing, Baseline, full, partial, gap, deferred, Br, Status, verified,
  skipped, regression,
}
use postgre_data_migration_a.GapReport.{
  get_or_default, put, is_outcome, has_outcome, skip_or_missing, any_outcome, any_scenario,
  scenario_outcome, passed_status, out_of_band_or_not, uncovered_baseline, uncovered, outcome_of,
  record_outcome, outcomes_from,
}
use postgre_data_migration_a.GapReport.Regressions.{
  Results, some_scenario, some_covering, expected_status,
}
use postgre_data_migration_a.Runner.{Result, to_dict, scenarios_of}

-- The outcome is no failure.
abbrev IsFine : Outcome → Type 0
IsFine o = is_outcome fail o ≡ false

abbrev pub AllFine : Results → Type 0
AllFine by_tier = All (λ e. All (λ q. IsFine q.1) e.1) by_tier

put-All {ℓ κ} :
    {A : Type ℓ} (P : A → Type κ) (key : Text) (d : A) (f : A → A)
    → P d
    → ((a : A) → P a → P (f a))
    → (m : List (Text × A)) → All (λ e. P e.1) m
    → All (λ e. P e.1) (put key d f m)
put-All P key d f base step [] h = (step d base, tt)
put-All P key d f base step (e ∷ m) h = elim (Bool-cases (same e.0 key)) [
  | inl here ↦ rw here (step e.1 h.0, h.1)
  | inr passed ↦ rw passed (h.0, put-All P key d f base step m h.1)
]

get_or_default-All {ℓ κ} :
    {A : Type ℓ} (P : A → Type κ) (key : Text) (d : A)
    → P d
    → (m : List (Text × A)) → All (λ e. P e.1) m
    → P (get_or_default key d m)
get_or_default-All P key d base [] h = base
get_or_default-All P key d base (e ∷ m) h = elim (Bool-cases (same e.0 key)) [
  | inl here ↦ rw here h.0
  | inr passed ↦ rw passed (get_or_default-All P key d base m h.1)
]

-- Skipped or passed.
abbrev pub IsGreen : Result → Type 0
IsGreen r = (r.skipped || r.passed) ≡ true

outcome_of-IsFine : (r : Result) → IsGreen r → IsFine (outcome_of (to_dict r))
outcome_of-IsFine r green = elim (Bool-cases r.skipped) [
  | inl left_out ↦ rw left_out refl
  | inr ran ↦ let good : r.passed ≡ true = rw ran at green in rw (ran, good) refl
]

pub outcomes_from-AllFine :
    (rs : List Result) (by_tier : Results)
    → All IsGreen rs
    → AllFine by_tier
    → AllFine (outcomes_from by_tier (scenarios_of rs))
unfolding outcomes_from
outcomes_from-AllFine [] by_tier green fine = fine
outcomes_from-AllFine (r ∷ rs) by_tier green fine =
    outcomes_from-AllFine rs (record_outcome (to_dict r) by_tier) green.1 (
      put-All (λ results. All (λ q. IsFine q.1) results) r.tier []
        (put r.name missing (λ old. outcome_of (to_dict r))) tt
        (λ results h.
          put-All IsFine r.name missing (λ old. outcome_of (to_dict r)) refl
            (λ old k. outcome_of-IsFine r green.0) results h)
        by_tier fine)

has_outcome-fail :
    (results : List (Text × Outcome))
    → All (λ q. IsFine q.1) results
    → has_outcome fail results ≡ false
has_outcome-fail [] h = refl
has_outcome-fail (q ∷ results) h = rw (h.0) (has_outcome-fail results h.1)

skip_or_missing-IsFine : (results : List (Text × Outcome)) → IsFine (skip_or_missing results)
skip_or_missing-IsFine [] = refl
skip_or_missing-IsFine (q ∷ results) = refl

any_outcome-IsFine :
    (results : List (Text × Outcome)) → All (λ q. IsFine q.1) results → IsFine (any_outcome results)
any_outcome-IsFine results h = elim (Bool-cases (has_outcome pass results)) [
  | inl passed ↦ rw passed refl
  | inr none_passed ↦ rw (none_passed, has_outcome-fail results h) (skip_or_missing-IsFine results)
]

scenario_outcome-IsFine :
    (tier name : Text) (by_tier : Results)
    → AllFine by_tier
    → IsFine (scenario_outcome tier name by_tier)
unfolding scenario_outcome
scenario_outcome-IsFine tier name by_tier fine =
    let results = get_or_default tier [] by_tier in
    let good : All (λ q. IsFine q.1) results =
      get_or_default-All (λ rs. All (λ q. IsFine q.1) rs) tier [] tt by_tier fine in
    elim (Bool-cases (same name any_scenario)) [
      | inl whole ↦ rw whole (any_outcome-IsFine results good)
      | inr named ↦ rw named (get_or_default-All IsFine name missing refl results good)
    ]

some_scenario-fail :
    (by_tier : Results) (tier : Text) (names : List Text)
    → AllFine by_tier
    → some_scenario fail by_tier tier names ≡ false
some_scenario-fail by_tier tier [] fine = refl
some_scenario-fail by_tier tier (name ∷ names) fine =
    rw (scenario_outcome-IsFine tier name by_tier fine) (some_scenario-fail by_tier tier names fine)

pub some_covering-fail :
    (by_tier : Results) (covering : List (Text × List Text))
    → AllFine by_tier
    → some_covering fail by_tier covering ≡ false
some_covering-fail by_tier [] fine = refl
some_covering-fail by_tier (c ∷ covering) fine =
    rw (some_scenario-fail by_tier c.0 c.1 fine) (some_covering-fail by_tier covering fine)

-- The status is no regression.
abbrev pub IsCalm : Status → Type 0
IsCalm s = s ≢ regression

passed_status-IsCalm : (b : Baseline) → IsCalm (passed_status b)
passed_status-IsCalm full e = cc e
passed_status-IsCalm partial e = cc e
passed_status-IsCalm gap e = cc e
passed_status-IsCalm deferred e = cc e

verified_or_skipped : (b : Bool) → IsCalm (if b then verified else skipped)
verified_or_skipped true e = cc e
verified_or_skipped false e = cc e

pub expected_status-IsCalm :
    (br : Br) (occurs : Outcome → Bool) → occurs fail ≡ false → IsCalm (expected_status br occurs)
expected_status-IsCalm br occurs fine = elim (Bool-cases (occurs pass)) [
  | inl passed ↦ rw (fine, passed) (passed_status-IsCalm br.baseline)
  | inr not_passed ↦ elim (Bool-cases (occurs skip)) [
    | inl left_out ↦ rw (fine, not_passed, left_out) (verified_or_skipped br.skip_means_verified)
    | inr not_run ↦ rw (fine, not_passed, not_run) (λ e. cc e)
  ]
]

out_of_band-IsCalm : (layers : List Text) → IsCalm ((out_of_band_or_not layers).status)
out_of_band-IsCalm [] e = cc e
out_of_band-IsCalm (layer ∷ layers) e = cc e

uncovered_baseline-IsCalm :
    (b : Baseline) (layers : List Text) → IsCalm ((uncovered_baseline b layers).status)
uncovered_baseline-IsCalm gap layers = λ e. cc e
uncovered_baseline-IsCalm full layers = out_of_band-IsCalm layers
uncovered_baseline-IsCalm partial layers = out_of_band-IsCalm layers
uncovered_baseline-IsCalm deferred layers = out_of_band-IsCalm layers

pub uncovered-IsCalm : (br : Br) → IsCalm ((uncovered br).status)
uncovered-IsCalm br = elim (Bool-cases br.implicitly_verified) [
  | inl implicit ↦ rw implicit (λ e. cc e)
  | inr tested ↦ rw tested (uncovered_baseline-IsCalm br.baseline br.oob_layers)
]
