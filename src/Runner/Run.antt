-- ===== src/Runner/Run.antt =====
-- `main` of evals/runner.py: the tiers asked for, their scenarios and the exit code of the run. Each
-- function of `TIER_RUNNERS` makes a `ScenarioResult` of its tier and the name of its folder, and
-- leaves `skipped` as it is; `run` is what they do, and tells whether the scenario passed.
pub mod Passing
use postgre_data_migration_a.Prelude.{
  ℕ, Bool, true, false, not, Option, none, some, List, [], ◌∷◌, ◌++◌, map, all, Text, codes, same,
  member, ◌==◌, if◌then◌else◌,
}
use postgre_data_migration_a.Python.{Runtime, strip}
use postgre_data_migration_a.Python.Lines.{split_on}
use postgre_data_migration_a.Signatures.{sorted}
use postgre_data_migration_a.Tiers.{◌>>=◌}
use postgre_data_migration_a.Runner.{Result, exit_code}

-- The keys of `TIER_RUNNERS`.
abbrev pub known_tiers : List Text
known_tiers = codes "p" ∷ codes "i" ∷ codes "s" ∷ codes "e" ∷ codes "x" ∷ []

unfoldable pub named_tiers : Runtime → List Text → List Text
unfolding strip
named_tiers rt [] = []
named_tiers rt (t ∷ parts) =
    let rest = named_tiers rt parts in if same (strip t) [] then rest else rt.lower (strip t) ∷ rest

-- `[t.strip().lower() for t in args.tiers.split(",") if t.strip()]`.
unfoldable pub tiers_of : Runtime → Text → List Text
unfolding named_tiers split_on
tiers_of rt argument = named_tiers rt (split_on b',' argument)

unfoldable pub matching : Text → List Text → List Text
matching only [] = []
matching only (name ∷ names) =
    let rest = matching only names in if same name only then name ∷ rest else rest

-- `if only`.
abbrev pub with_only : Option Text → List Text → List Text
with_only none names = names
with_only (some []) names = names
with_only (some (c ∷ only)) names = matching (c ∷ only) names

-- `discover_scenarios`: the names of the folders of datasets/tier_t, which `folders` tells.
unfoldable pub discover_scenarios : (Text → List Text) → Text → Option Text → List Text
unfolding sorted matching
discover_scenarios folders tier only = with_only only (sorted (folders tier))

abbrev pub result : Text → Text → Bool → Result
result tier name passed = record { tier = tier; name = name; passed = passed; skipped = false }

module _ {W : Type 0} (run : Text → Text → W → Option (Bool × W)) where
  -- The loop over the scenarios of a tier; `none` is an exception, which nothing catches.
  unfoldable pub run_scenarios : Text → List Text → W → Option (List Result × W)
  run_scenarios tier [] w = some ([], w)
  run_scenarios tier (name ∷ names) w = do
    one ← run tier name w
    rest ← run_scenarios tier names one.1
    some (result tier name one.0 ∷ rest.0, rest.1)

  -- The loop over the tiers.
  unfoldable pub run_tiers : (Text → List Text) → List Text → W → Option (List Result × W)
  unfolding run_scenarios
  run_tiers scenarios [] w = some ([], w)
  run_tiers scenarios (tier ∷ tiers) w = do
    first ← run_scenarios tier (scenarios tier) w
    rest ← run_tiers scenarios tiers first.1
    some (first.0 ++ rest.0, rest.1)

  abbrev pub ended : Option (List Result × W) → Option (ℕ × W)
  ended o = do done ← o; some (exit_code done.0, done.1)

  -- `main`, of `--tiers` and `--only`. `validator` tells whether build/csv/validator.py exists.
  unfoldable pub main :
      Runtime → Bool → (Text → List Text) → Text → Option Text → W → Option (ℕ × W)
  unfolding run_tiers tiers_of discover_scenarios exit_code
  main rt validator folders tiers only w =
      let asked = tiers_of rt tiers in
      let done = ended (run_tiers (λ tier. discover_scenarios folders tier only) asked w) in
      if not (all (λ t. member t known_tiers) asked)
      then some (2, w)
      else if not validator
      then some (2, w)
      else done
