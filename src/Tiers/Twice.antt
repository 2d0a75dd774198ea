-- ===== src/Tiers/Twice.antt =====
-- Tier I of evals/runner.py: the deployment of the development database, twice.
pub mod Kept
use postgre_data_migration_a.Prelude.{
  ℕ, suc, ◌+◌, Bool, true, false, ◌&&◌, ◌||◌, not, Option, none, some, List, [], ◌∷◌, ◌++◌, ◌≡◌,
  ◌≤◌, refl, arith, All, Text, codes, same, ltb, ◌==◌, if◌then◌else◌,
}
use postgre_data_migration_a.Python.{Runtime, strip}
use postgre_data_migration_a.Tiers.{
  Code, same_code, success, Process, Report, refuse, conclude, unless, Psql, ◌>>=◌, is_digits,
  int_of_digits, is_code,
}

-- `_DEV_SEED_TABLES`.
abbrev pub dev_seed_tables : List Text
dev_seed_tables =
    codes "organisations"
    ∷ codes "personnel"
    ∷ codes "test_programs"
    ∷ codes "temp_documents"
    ∷ codes "test_phases"
    ∷ codes "requirements"
    ∷ codes "test_cases"
    ∷ codes "vcrm_entries"
    ∷ codes "test_events"
    ∷ codes "test_results"
    ∷ codes "defect_reports"
    ∷ []

-- An expected file of the tier. A number that is absent is 0, a flag false; a code that is absent
-- equals none.
pub record Expected : Type 0 where
  pub first_run_exit_code : Option Code
  pub second_run_exit_code : Option Code
  pub row_counts_unchanged : Bool
  pub min_seeded_tables_present : ℕ

abbrev pub Count : Type 0
Count = Option ℕ

pub data Problem : Type 0 where
  no_expected_file : Problem
  not_reachable : Problem
  unknown_scenario : Text → Problem
  no_script : Text → Problem
  wrong_first_code : Option Code → Code → Problem
  wrong_second_code : Option Code → Code → Problem
  counts_changed : List (Text × Count) → List (Text × Count) → Problem
  too_few_tables : ℕ → ℕ → Problem

abbrev pub env_dev_sql : Text
env_dev_sql = codes "build/environments/env_dev.sql"

abbrev pub same_count : Count → Count → Bool
same_count none none = true
same_count (some m) (some n) = m == n
same_count _ _ = false

-- `==` of the two results of `_count_dev_rows`, whose keys are the same.
abbrev pub same_counts : List (Text × Count) → List (Text × Count) → Bool
same_counts [] [] = true
same_counts (c ∷ cs) (d ∷ ds) = same c.0 d.0 && (same_count c.1 d.1 && same_counts cs ds)
same_counts _ _ = false

-- `sum(1 for v in counts.values() if v is not None)`.
abbrev pub count_present : List (Text × Count) → ℕ
count_present [] = 0
count_present ((t, none) ∷ cs) = count_present cs
count_present ((t, some n) ∷ cs) = suc (count_present cs)

abbrev pub problems_of :
    Expected → Code → Code → List (Text × Count) → List (Text × Count) → List Problem
problems_of exp code_1 code_2 counts_1 counts_2 =
    unless (is_code exp.first_run_exit_code code_1)
      (wrong_first_code exp.first_run_exit_code code_1)
    ++ (unless (is_code exp.second_run_exit_code code_2)
          (wrong_second_code exp.second_run_exit_code code_2)
        ++ (unless (not exp.row_counts_unchanged || same_counts counts_1 counts_2)
              (counts_changed counts_1 counts_2)
            ++ unless (not (ltb (count_present counts_2) exp.min_seeded_tables_present))
                (too_few_tables exp.min_seeded_tables_present (count_present counts_2))))

module _ {W : Type 0} (rt : Runtime) (psql : Psql W) where
  -- `int(r.stdout.strip())`, if the query ran and its output is a number.
  abbrev pub count_of : Process → Option Count
  count_of r =
      let number = int_of_digits rt (strip r.stdout) in
      if same_code r.code success && is_digits rt (strip r.stdout)
      then (do n ← number; some (some n))
      else some none

  abbrev pub count_table : Text → W → Option Count
  count_table table w = do r ← psql.count table w; count_of r

  -- `_count_dev_rows`, of the tables.
  unfoldable pub count_rows : List Text → W → Option (List (Text × Count))
  unfolding int_of_digits strip
  count_rows [] w = some []
  count_rows (table ∷ tables) w = do
    n ← count_table table w
    counts ← count_rows tables w
    some ((table, n) ∷ counts)

  unfoldable pub deploy_dev_twice : Expected → W → Option (Report Problem × W)
  unfolding count_rows
  deploy_dev_twice exp w =
      let ran = (do
        first ← psql.run_file env_dev_sql w
        counts_1 ← count_rows dev_seed_tables first.1
        second ← psql.run_file env_dev_sql first.1
        counts_2 ← count_rows dev_seed_tables second.1
        some (conclude (problems_of exp first.0.code second.0.code counts_1 counts_2), second.1)) in
      if psql.exists env_dev_sql then ran else some (refuse (no_script env_dev_sql), w)

  -- `run_tier_i_scenario`; `none` is an exception.
  unfoldable pub run_tier_i_scenario : Option Expected → Text → W → Option (Report Problem × W)
  unfolding deploy_dev_twice
  run_tier_i_scenario none name w = some (refuse no_expected_file, w)
  run_tier_i_scenario (some exp) name w =
      let ran = deploy_dev_twice exp w in
      if not (psql.connects w)
      then some (refuse not_reachable, w)
      else if same name (codes "01_deploy_dev_twice")
      then ran
      else some (refuse (unknown_scenario name), w)
