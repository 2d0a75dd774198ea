-- ===== src/Tiers/Suite.antt =====
-- Tier S of evals/runner.py: a fresh deployment, and the SQL tests on it.
pub mod Lines
pub mod Passed
use postgre_data_migration_a.Prelude.{
  ℕ, Bool, true, false, ◌&&◌, ◌||◌, not, Option, none, some, List, [], ◌∷◌, ◌++◌, map, Text, codes,
  same, ltb, ◌==◌, if◌then◌else◌, reverse, starts_with,
}
use postgre_data_migration_a.Python.{Runtime, rstrip_by}
use postgre_data_migration_a.Python.Lines.{splitlines, words}
use postgre_data_migration_a.Python.Search.{contains}
use postgre_data_migration_a.Tiers.{
  Code, Process, Report, refuse, conclude, unless, Psql, ◌>>=◌, is_digits, int_of_digits, is_code,
}

-- The floating-point numbers. `float` is `none` where it raises ValueError; `below` is `<`.
pub record Floats : Type 1 where
  pub Rate : Type 0
  pub nought : Rate
  pub float : Text → Option Rate
  pub below : Rate → Rate → Bool

abbrev pub env_dev_sql : Text
env_dev_sql = codes "build/environments/env_dev.sql"

abbrev pub run_all_tests_sql : Text
run_all_tests_sql = codes "tests/run_all_tests.sql"

-- `line.replace("|", " ")`.
abbrev pub without_pipes : Text → Text
without_pipes line = map (λ c. if c == b'|' then b' ' else c) line

abbrev pub ends_with_percent : Text → Bool
ends_with_percent part = starts_with (reverse part) (codes "%")

-- `next((p for p in parts if p.endswith("%")), None)`.
abbrev pub first_percent : List Text → Option Text
first_percent [] = none
first_percent (p ∷ parts) =
    let rest = first_percent parts in if ends_with_percent p then some p else rest

abbrev pub with_percent : Text → Option Text → Option (Text × Text)
with_percent total none = none
with_percent total (some pct) = some (total, pct)

module _ (rt : Runtime) where
  abbrev pub summary_parts : List Text → Option (Text × Text)
  summary_parts (a ∷ b ∷ c ∷ d ∷ parts) =
      if is_digits rt a && (is_digits rt b && is_digits rt c)
      then with_percent a (first_percent (d ∷ parts))
      else none
  summary_parts _ = none

  -- The total and the percentage of a line of the summary, as texts.
  unfoldable pub summary_of : Text → Option (Text × Text)
  unfolding words
  summary_of line = summary_parts (words (without_pipes line))

-- `total_assertions` and `pass_rate`.
pub record Summary (floats : Floats) : Type 0 where
  pub total : Option ℕ
  pub rate : Option floats.Rate

-- An expected file of the tier. A number that is absent is 0, and so is a rate; a code that is
-- absent equals none.
pub record Expected (floats : Floats) : Type 0 where
  pub deploy_exit_code : Option Code
  pub tests_exit_code : Option Code
  pub stdout_contains : List Text
  pub min_total_assertions : ℕ
  pub min_pass_rate_percent : Option floats.Rate

pub data Problem : Type 0 where
  no_expected_file : Problem
  not_reachable : Problem
  unknown_scenario : Text → Problem
  no_script : Problem
  wrong_deploy_code : Option Code → Code → Problem
  wrong_tests_code : Option Code → Code → Problem
  stdout_missing : Text → Problem
  too_few_assertions : ℕ → Option ℕ → Problem
  low_pass_rate : Problem

-- `for needle in exp.get("stdout_contains", []) or []`.
unfoldable pub missing_texts : Text → List Text → List Problem
unfolding contains
missing_texts stdout [] = []
missing_texts stdout (needle ∷ needles) =
    unless (contains needle stdout) (stdout_missing needle) ++ missing_texts stdout needles

abbrev pub has_total : ℕ → Option ℕ → Bool
has_total n none = false
has_total n (some total) = not (ltb total n)

module _ (rt : Runtime) (floats : Floats) where
  abbrev pub no_summary : Summary floats
  no_summary = record { total = none; rate = none }

  abbrev pub with_rate : Option floats.Rate → Summary floats → Summary floats
  with_rate none s = s
  with_rate (some rate) s = record { total = s.total; rate = some rate }

  abbrev pub rate_of : Text → Option floats.Rate
  rate_of pct = floats.float (rstrip_by (λ c. c == b'%') pct)

  -- The `try`: a ValueError of `float` comes behind the assignment of the total.
  abbrev pub with_total : Option ℕ → Text → Summary floats → Summary floats
  with_total none pct s = s
  with_total (some n) pct s = with_rate (rate_of pct) (record { total = some n; rate = s.rate })

  abbrev pub next_summary : Option (Text × Text) → Summary floats → Summary floats
  next_summary none s = s
  next_summary (some (total, pct)) s = with_total (int_of_digits rt total) pct s

  -- `for line in tests.stdout.splitlines()`.
  unfoldable pub read_summary : List Text → Summary floats → Summary floats
  unfolding summary_of int_of_digits rstrip_by
  read_summary [] s = s
  read_summary (line ∷ lines) s = read_summary lines (next_summary (summary_of rt line) s)

  abbrev pub has_rate : Option floats.Rate → Option floats.Rate → Bool
  has_rate least none = false
  has_rate none (some rate) = not (floats.below rate floats.nought)
  has_rate (some least) (some rate) = not (floats.below rate least)

  abbrev pub problems_of : Expected floats → Code → Process → Summary floats → List Problem
  problems_of exp deploy tests s =
      unless (is_code exp.deploy_exit_code deploy) (wrong_deploy_code exp.deploy_exit_code deploy)
      ++ (unless (is_code exp.tests_exit_code tests.code)
            (wrong_tests_code exp.tests_exit_code tests.code)
          ++ (missing_texts tests.stdout exp.stdout_contains
              ++ (unless (has_total exp.min_total_assertions s.total)
                    (too_few_assertions exp.min_total_assertions s.total)
                  ++ unless (has_rate exp.min_pass_rate_percent s.rate) low_pass_rate)))

  module _ {W : Type 0} (psql : Psql W) where
    -- `_run_fresh_deploy_then_tests`.
    unfoldable pub fresh_deploy_then_tests : Expected floats → W → Option (Report Problem × W)
    unfolding read_summary missing_texts splitlines
    fresh_deploy_then_tests exp w =
        let ran = (do
          deploy ← psql.run_file env_dev_sql w
          tests ← psql.run_tests deploy.1
          some (
            conclude (
                problems_of exp deploy.0.code tests.0
                  (read_summary (splitlines tests.0.stdout) no_summary)),
            tests.1,
          )) in
        if not (psql.exists env_dev_sql) || not (psql.exists run_all_tests_sql)
        then some (refuse no_script, w)
        else ran

    -- `run_tier_s_scenario`; `none` is an exception.
    unfoldable pub run_tier_s_scenario :
        Option (Expected floats) → Text → W → Option (Report Problem × W)
    unfolding fresh_deploy_then_tests
    run_tier_s_scenario none name w = some (refuse no_expected_file, w)
    run_tier_s_scenario (some exp) name w =
        let ran = fresh_deploy_then_tests exp w in
        if not (psql.connects w)
        then some (refuse not_reachable, w)
        else if same name (codes "01_fresh_deploy_then_all_tests_pass")
        then ran
        else some (refuse (unknown_scenario name), w)
