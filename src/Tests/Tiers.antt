-- ===== src/Tests/Tiers.antt =====
-- The tiers of the evaluations on a machine that counts the scripts it has run.
use postgre_data_migration_a.Prelude.{
  ℕ, suc, true, false, Option, none, some, ◌⊎◌, inr, List, [], ◌∷◌, ◌≡◌, ◌↔◌, refl, Text, codes,
  member,
}
use postgre_data_migration_a.Python.{strip, strip_by, lstrip_by, rstrip_by, is_space}
use postgre_data_migration_a.Python.Lines.{
  lines_from, splitlines, pieces_from, split_on, words_from, words,
}
use postgre_data_migration_a.Python.Replace.{replace_from, replace}
use postgre_data_migration_a.Python.Search.{contains}
use postgre_data_migration_a.Signatures.{
  Signature, insert_text, sorted, set_of, minus, both, common_lines, diff_signatures,
}
use postgre_data_migration_a.Runner.{count_results, exit_code}
use postgre_data_migration_a.Runner.Run.{
  named_tiers, tiers_of, discover_scenarios, run_scenarios, run_tiers, main,
}
use postgre_data_migration_a.Runner.Run.Passing.{Passes, main-Passes}
use postgre_data_migration_a.Tiers.{exited, success, Process, Report, Psql, int_of_digits}
use postgre_data_migration_a.Tiers.Validation
use postgre_data_migration_a.Tiers.Validation.{
  with_file, replace_crlf, setup_of, actual_of, check_each, assertions, run_tier_p_scenario,
}
use postgre_data_migration_a.Tiers.Validation.Meets.{PassesP, Ran, run_tier_p_scenario-Meets}
use postgre_data_migration_a.Tiers.Twice
use postgre_data_migration_a.Tiers.Twice.{count_rows, deploy_dev_twice, run_tier_i_scenario}
use postgre_data_migration_a.Tiers.Twice.Kept.{DeployedTwice, run_tier_i_scenario-DeployedTwice}
use postgre_data_migration_a.Tiers.Suite
use postgre_data_migration_a.Tiers.Suite.{
  Floats, summary_of, missing_texts, read_summary, fresh_deploy_then_tests, run_tier_s_scenario,
}
use postgre_data_migration_a.Tiers.Suite.Passed.{Tested, run_tier_s_scenario-Tested}
use postgre_data_migration_a.Tiers.Parity
use postgre_data_migration_a.Tiers.Parity.{
  read_columns, column_signature, deploy_problems, query_problems, count_problems, compare_problems,
  problems_of, deploy_all, query_all, envs_have_identical_structure, run_tier_e_scenario,
}
use postgre_data_migration_a.Tiers.Parity.Identical.{Alike}
use postgre_data_migration_a.Tiers.Engine
use postgre_data_migration_a.Tiers.Engine.{
  substitute, substitute_placeholders, name_from, find_from, leftovers, column_problems,
  run_tier_x_scenario,
}
use postgre_data_migration_a.Tiers.Engine.Structure.{Structured, run_tier_x_scenario-Structured}
use postgre_data_migration_a.Tiers.Together.{Lab, run_scenario, main-Alike}
use postgre_data_migration_a.Tests.Samples.{ascii}

abbrev quiet : Text → Process
quiet stdout = record { code = exited 0; stdout = stdout; stderr = [] }

abbrev psql : Psql ℕ
psql = record {
  connects = λ n. true;
  exists = λ path. true;
  run_file = λ path n. some (quiet [], suc n);
  run_tests = λ n. some (quiet (codes "ALL TESTS PASSED\n 12 | 12 | 0 | 100.0%\n"), n);
  count = λ table n. some (quiet (codes "3\n"));
  columns = λ db schema n. some (quiet (codes "users|id|uuid|NO\nusers|name|text|YES\n"));
}

-- A rate is its text, and none is below another.
abbrev floats : Floats
floats = record { Rate = Text; nought = codes "0"; float = λ s. some s; below = λ a b. false }

abbrev parity : Parity.Expected
parity = record {
  envs_under_test = some (codes "dev" ∷ codes "prod" ∷ []);
  reference_env = none;
  all_envs_deploy_exit_zero = true;
  column_signature_identical_across_envs = true;
  min_tables_per_env = some 1;
}

abbrev twice : Twice.Expected
twice = record {
  first_run_exit_code = some success;
  second_run_exit_code = some success;
  row_counts_unchanged = true;
  min_seeded_tables_present = 11;
}

abbrev suite : Suite.Expected floats
suite = record {
  deploy_exit_code = some success;
  tests_exit_code = some success;
  stdout_contains = codes "ALL TESTS PASSED" ∷ [];
  min_total_assertions = 12;
  min_pass_rate_percent = some (codes "100.0");
}

abbrev engine : Engine.Expected
engine = record {
  expected_tables = some (codes "personnel" ∷ []);
  expected_columns = (codes "personnel", codes "id" ∷ []) ∷ [];
}

abbrev validation : Validation.Expected
validation = record {
  runner_action = Validation.absent;
  table_name = Validation.absent;
  field_size_bytes = Validation.absent;
  exit_code = Validation.given success;
  stdout_contains = codes "done" ∷ [];
  stderr_contains = [];
  valid_csv_rows = some ((codes "id" ∷ []) ∷ []);
  skip_csv_row_count = some 1;
  skip_reasons_contain = codes "blank" ∷ [];
}

-- It writes two files, whatever it gets.
abbrev launch : Validation.Setup → Option Validation.Run
launch setup = some (record {
  process = quiet (codes "all done");
  valid_csv = some ((codes "id" ∷ []) ∷ []);
  skip_csv = some ((codes "id" ∷ codes "_skip_reason" ∷ []) ∷ ([] ∷ codes "all blank" ∷ []) ∷ []);
})

abbrev sqlite : Text → Text ⊎ Signature
sqlite ddl = inr ((codes "personnel", codes "id" ∷ codes "name" ∷ []) ∷ [])

abbrev ddl : Text
ddl = codes "CREATE TABLE {{TBL_PERSONNEL}} (id, name)"

run_tier_p_scenario_run :
    run_tier_p_scenario launch (some validation) (some [])
    ≡ some (record { errors = []; passed = true })
unfolding run_tier_p_scenario setup_of actual_of assertions check_each contains replace_crlf
run_tier_p_scenario_run = refl

run_tier_p_scenario-Meets_example : PassesP launch (some validation) (some []) ↔ (
    (exp : Validation.Expected) × (setup : Validation.Setup) × (run : Validation.Run) × Ran launch
      (some validation)
      (some [])
      exp
      setup
      run)
run_tier_p_scenario-Meets_example = run_tier_p_scenario-Meets launch (some validation) (some [])

abbrev deployed_twice : Option (Report Twice.Problem × ℕ)
deployed_twice = some (record { errors = []; passed = true }, 2)

run_tier_i_scenario_run :
    run_tier_i_scenario ascii psql (some twice) (codes "01_deploy_dev_twice") 0 ≡ deployed_twice
unfolding run_tier_i_scenario deploy_dev_twice count_rows int_of_digits strip strip_by lstrip_by
    rstrip_by is_space
run_tier_i_scenario_run = refl

run_tier_i_scenario-DeployedTwice_example : DeployedTwice ascii psql twice 0 2
run_tier_i_scenario-DeployedTwice_example =
    run_tier_i_scenario-DeployedTwice ascii psql twice (codes "01_deploy_dev_twice") 0 2
      (record { errors = []; passed = true }) run_tier_i_scenario_run refl

abbrev tested : Option (Report Suite.Problem × ℕ)
tested = some (record { errors = []; passed = true }, 1)

run_tier_s_scenario_run :
    run_tier_s_scenario ascii floats psql
      (some suite)
      (codes "01_fresh_deploy_then_all_tests_pass")
      0
    ≡ tested
unfolding run_tier_s_scenario fresh_deploy_then_tests missing_texts read_summary summary_of
    int_of_digits contains splitlines lines_from words words_from rstrip_by lstrip_by is_space
run_tier_s_scenario_run = refl

run_tier_s_scenario-Tested_example : Tested ascii floats psql suite 0 1
run_tier_s_scenario-Tested_example =
    run_tier_s_scenario-Tested ascii floats psql suite (codes "01_fresh_deploy_then_all_tests_pass")
      0 1 (record { errors = []; passed = true }) run_tier_s_scenario_run refl

run_tier_x_scenario_run :
    (run_tier_x_scenario sqlite
      (some engine)
      (codes "01_sqlite_schema_structure")
      (some ddl)).passed
    ≡ true
unfolding run_tier_x_scenario substitute replace replace_from leftovers find_from name_from
    Engine.problems_of column_problems sorted insert_text set_of minus
run_tier_x_scenario_run = refl

run_tier_x_scenario-Structured_example :
    (text : Text) × (some ddl ≡ some text) × Structured sqlite engine (substitute_placeholders text)
run_tier_x_scenario-Structured_example =
    run_tier_x_scenario-Structured sqlite engine (codes "01_sqlite_schema_structure") (some ddl)
      run_tier_x_scenario_run

abbrev lab : Lab ℕ
lab = record {
  rt = ascii;
  floats = floats;
  psql = psql;
  launch = launch;
  sqlite = sqlite;
  ddl = some ddl;
  input = λ name. some [];
  expected_p = λ name. some validation;
  expected_i = λ name. some twice;
  expected_s = λ name. some suite;
  expected_e = λ name. some parity;
  expected_x = λ name. some engine;
}

abbrev folders : Text → List Text
folders tier = codes "01_envs_have_identical_structure" ∷ []

main_run : main (run_scenario lab) ascii true folders (codes "e, P") none 0 ≡ some (0, 2)
unfolding main run_tiers run_scenarios run_scenario exit_code count_results tiers_of named_tiers
    discover_scenarios split_on pieces_from strip strip_by lstrip_by rstrip_by is_space sorted
    insert_text set_of minus both common_lines diff_signatures run_tier_p_scenario setup_of
    actual_of assertions check_each contains replace_crlf run_tier_e_scenario
    envs_have_identical_structure deploy_all query_all problems_of column_signature read_columns
    splitlines lines_from deploy_problems query_problems count_problems compare_problems
main_run = refl

abbrev asked : List Text
asked = codes "e" ∷ codes "p" ∷ []

tiers_of_run : tiers_of ascii (codes "e, P") ≡ asked
unfolding tiers_of named_tiers split_on pieces_from strip strip_by lstrip_by rstrip_by is_space
tiers_of_run = refl

main-Passes_example :
    Passes
      (run_scenario lab)
      (λ tier. discover_scenarios folders tier none)
      (tiers_of ascii (codes "e, P"))
      0
      2
main-Passes_example =
    main-Passes (run_scenario lab) ascii true folders (codes "e, P") none 0 2 main_run

asked_run : member (codes "e") (tiers_of ascii (codes "e, P")) ≡ true
unfolding tiers_of named_tiers split_on pieces_from strip strip_by lstrip_by rstrip_by is_space
asked_run = refl

discovered_run :
    member (codes "01_envs_have_identical_structure") (discover_scenarios folders (codes "e") none)
    ≡ true
unfolding discover_scenarios sorted insert_text
discovered_run = refl

main-Alike_example : (before : ℕ) × (behind : ℕ) × Alike psql parity before behind
main-Alike_example =
    main-Alike lab true folders (codes "e, P") (codes "01_envs_have_identical_structure") none
      parity 0 2 main_run asked_run discovered_run refl refl
