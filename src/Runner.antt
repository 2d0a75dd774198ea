-- ===== src/Runner.antt =====
-- `main` of evals/runner.py: the totals of a run, its exit code and the scenarios of summary.json.
pub mod Calm
pub mod Green
pub mod Run
use postgre_data_migration_a.Prelude.{
  ℕ, ◌+◌, Bool, true, false, some, List, [], ◌∷◌, map, Text, ◌==◌, if◌then◌else◌,
}
use postgre_data_migration_a.GapReport.{Scenario}

-- `ScenarioResult`, less its texts.
pub record Result : Type 0 where
  pub tier : Text
  pub name : Text
  pub passed : Bool
  pub skipped : Bool

-- `to_dict`.
abbrev pub to_dict : Result → Scenario
to_dict r = record {
  tier = some r.tier;
  name = some r.name;
  skipped = r.skipped;
  passed = r.passed;
}

pub record Totals : Type 0 where
  pub total : ℕ
  pub passed : ℕ
  pub failed : ℕ
  pub skipped : ℕ

abbrev pub no_totals : Totals
no_totals = record { total = 0; passed = 0; failed = 0; skipped = 0 }

-- One round of the loop over the scenarios.
abbrev pub count_result : Result → Totals → Totals
count_result r t =
    if r.skipped
    then record t { total = t.total + 1; skipped = t.skipped + 1 }
    else if r.passed
    then record t { total = t.total + 1; passed = t.passed + 1 }
    else record t { total = t.total + 1; failed = t.failed + 1 }

unfoldable pub count_results : List Result → Totals → Totals
count_results [] t = t
count_results (r ∷ rs) t = count_results rs (count_result r t)

-- `0 if failed == 0 else 1`.
abbrev pub code_of : ℕ → ℕ
code_of failed = if failed == 0 then 0 else 1

unfoldable pub exit_code : List Result → ℕ
unfolding count_results
exit_code rs = code_of (count_results rs no_totals).failed

-- `"scenarios"` of summary.json.
abbrev pub scenarios_of : List Result → List Scenario
scenarios_of rs = map to_dict rs
