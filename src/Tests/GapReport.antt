-- ===== src/Tests/GapReport.antt =====
-- A run of the evaluations and its report.
use postgre_data_migration_a.Prelude.{true, false, some, [], ◌∷◌, ◌≡◌, refl, Text, codes}
use postgre_data_migration_a.GapReport.Types.{pass, skip, partial, Br, regression, partly}
use postgre_data_migration_a.GapReport.{
  compute_status, Scenario, outcomes_by_tier, see_scenarios, see_tiers, scenario_outcome,
}
use postgre_data_migration_a.GapReport.Regressions.{Results}
use postgre_data_migration_a.GapReport.Failed.{compute_status-regression}
use postgre_data_migration_a.GapReport.Markdown.{Summary}

abbrev fresh_deploy : Text
fresh_deploy = codes "01_fresh_deploy_then_all_tests_pass"

abbrev twice : Text
twice = codes "01_deploy_dev_twice"

abbrev pub deploy : Br
deploy = record {
  id = codes "BR-04";
  title = codes "data model";
  category = codes "Functional";
  covering_evals = (codes "i", twice ∷ []) ∷ (codes "s", fresh_deploy ∷ []) ∷ [];
  baseline = partial;
  notes = [];
  oob_layers = [];
  implicitly_verified = false;
  skip_means_verified = false;
}

abbrev good : Scenario
good = record { tier = some (codes "i"); name = some twice; skipped = false; passed = true }

abbrev broken : Scenario
broken = record {
  tier = some (codes "s");
  name = some fresh_deploy;
  skipped = false;
  passed = false;
}

abbrev results : Results
results = (codes "i", (twice, pass) ∷ []) ∷ (codes "s", (fresh_deploy, skip) ∷ []) ∷ []

compute_status_run : (compute_status deploy results).status ≡ partly
unfolding compute_status see_tiers see_scenarios scenario_outcome
compute_status_run = refl

compute_status-regression_example :
    (compute_status deploy (outcomes_by_tier (broken ∷ good ∷ []))).status ≡ regression
compute_status-regression_example =
    compute_status-regression deploy (codes "s") fresh_deploy (broken ∷ good ∷ []) refl refl refl
      refl

abbrev summary : Summary
summary = record {
  run_id = codes "r1";
  started_at = codes "today";
  totals = codes "{}";
  now = codes "now";
  scenarios = broken ∷ good ∷ [];
}
