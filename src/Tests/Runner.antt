-- ===== src/Tests/Runner.antt =====
-- A run with a passed and a skipped scenario.
use postgre_data_migration_a.Prelude.{true, false, List, [], ◌∷◌, ◌≡◌, ◌≢◌, refl, codes}
use postgre_data_migration_a.GapReport.Types.{regression}
use postgre_data_migration_a.GapReport.{compute_status, outcomes_by_tier}
use postgre_data_migration_a.Tests.GapReport.{deploy}
use postgre_data_migration_a.Runner.{Result, count_results, exit_code, scenarios_of}
use postgre_data_migration_a.Runner.Green.{exit_code-regression}

abbrev results : List Result
results =
    record { tier = codes "i"; name = codes "01_deploy_dev_twice"; passed = true; skipped = false }
    ∷ record {
      tier = codes "s";
      name = codes "01_fresh_deploy_then_all_tests_pass";
      passed = false;
      skipped = true;
    }
    ∷ []

exit_code_run : exit_code results ≡ 0
unfolding exit_code count_results
exit_code_run = refl

exit_code-regression_example :
    (compute_status deploy (outcomes_by_tier (scenarios_of results))).status ≢ regression
exit_code-regression_example = exit_code-regression results deploy exit_code_run
