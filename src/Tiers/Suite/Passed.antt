-- ===== src/Tiers/Suite/Passed.antt =====
-- Tier S of evals/runner.py: what a passed scenario has read in the output of the SQL tests.
use postgre_data_migration_a.Prelude.{
  ℕ, true, ◌||◌, not, Option, none, some, List, [], ◌∷◌, ◌≡◌, ◌≤◌, refl, ap, ◌∙◌, inl, inr, arith,
  All, Text, codes, same, Bool-cases,
}
use postgre_data_migration_a.Python.{Runtime}
use postgre_data_migration_a.Python.Lines.{splitlines}
use postgre_data_migration_a.Python.Search.{contains, Holds, contains_iff}
use postgre_data_migration_a.Tiers.{
  Code, Process, Report, conclude, unless, unless-nil, append-nil_iff, is_nil_iff, Psql, bind-some,
  some_pair, refused, is_code, is_code_iff,
}
use postgre_data_migration_a.Tiers.Suite.Lines.{One, ShowsTotal, ShowsRate, total-shown, rate-shown}
use postgre_data_migration_a.Tiers.Suite.{
  Floats, env_dev_sql, run_all_tests_sql, Expected, Problem, not_reachable, unknown_scenario,
  no_script, stdout_missing, missing_texts, has_total, no_summary, read_summary, has_rate,
  problems_of, fresh_deploy_then_tests, run_tier_s_scenario,
}

missing_texts-nil :
    (stdout : Text) (needles : List Text)
    → missing_texts stdout needles ≡ []
    → All (λ needle. Holds needle stdout) needles
unfolding missing_texts
missing_texts-nil stdout [] e = tt
missing_texts-nil stdout (needle ∷ needles) e =
    let parts = (append-nil_iff (unless (contains needle stdout) (stdout_missing needle)) _).0 e in
    (
      (contains_iff needle stdout).0 ((unless-nil _ _).0 parts.0),
      missing_texts-nil stdout needles parts.1,
    )

has_total-some : (n : ℕ) (o : Option ℕ) → has_total n o ≡ true → (m : ℕ) × (o ≡ some m) × (n ≤ m)
has_total-some n none e = cc e
has_total-some n (some m) e = (m, refl, ground (arith, e))

module _ (rt : Runtime) (floats : Floats) where
  has_rate-some :
      (least o : Option floats.Rate)
      → has_rate rt floats least o ≡ true
      → (rate : floats.Rate) × (o ≡ some rate) × (has_rate rt floats least (some rate) ≡ true)
  has_rate-some none none e = cc e
  has_rate-some (some least) none e = cc e
  has_rate-some none (some rate) e = (rate, refl, e)
  has_rate-some (some least) (some rate) e = (rate, refl, e)

  -- What the output of the tests and the two codes were.
  pub record Reported (exp : Expected floats) (deploy : Code) (tests : Process) : Type 0 where
    pub deploy_code : exp.deploy_exit_code ≡ some deploy
    pub tests_code : exp.tests_exit_code ≡ some tests.code
    pub texts : All (λ needle. Holds needle tests.stdout) exp.stdout_contains
    pub total : ℕ
    pub enough : exp.min_total_assertions ≤ total
    pub total_shown : One (ShowsTotal rt floats total) (splitlines tests.stdout)
    pub rate : floats.Rate
    pub high : has_rate rt floats exp.min_pass_rate_percent (some rate) ≡ true
    pub rate_shown : One (ShowsRate rt floats rate) (splitlines tests.stdout)

  problems_of-Reported :
      (exp : Expected floats) (deploy : Code) (tests : Process)
      → problems_of rt floats exp deploy tests
          (read_summary rt floats (splitlines tests.stdout) (no_summary rt floats))
        ≡ []
      → Reported exp deploy tests
  problems_of-Reported exp deploy tests e =
      let s = read_summary rt floats (splitlines tests.stdout) (no_summary rt floats) in
      let one = (append-nil_iff (unless (is_code exp.deploy_exit_code deploy) _) _).0 e in
      let two = (append-nil_iff (unless (is_code exp.tests_exit_code tests.code) _) _).0 one.1 in
      let three = (append-nil_iff (missing_texts tests.stdout exp.stdout_contains) _).0 two.1 in
      let four =
        (append-nil_iff (unless (has_total exp.min_total_assertions s.total) _) _).0 three.1 in
      let (n, has_n, enough) =
        has_total-some exp.min_total_assertions s.total ((unless-nil _ _).0 four.0) in
      let (rate, is_rate, high) =
        has_rate-some exp.min_pass_rate_percent s.rate ((unless-nil _ _).0 four.1) in
      record {
        deploy_code = (is_code_iff exp.deploy_exit_code deploy).0 ((unless-nil _ _).0 one.0);
        tests_code = (is_code_iff exp.tests_exit_code tests.code).0 ((unless-nil _ _).0 two.0);
        texts = missing_texts-nil tests.stdout exp.stdout_contains three.0;
        total = n;
        enough = enough;
        total_shown = total-shown rt floats tests.stdout n has_n;
        rate = rate;
        high = high;
        rate_shown = rate-shown rt floats tests.stdout rate is_rate;
      }

  module _ {W : Type 0} (psql : Psql W) where
    -- The deployment and the tests ran, one behind the other.
    pub record Tested (exp : Expected floats) (w v : W) : Type 0 where
      pub between : W
      pub deploy : Process
      pub tests : Process
      pub runs_deploy : psql.run_file env_dev_sql w ≡ some (deploy, between)
      pub runs_tests : psql.run_tests between ≡ some (tests, v)
      pub reported : Reported exp deploy.code tests

    fresh_deploy_then_tests-Tested :
        (exp : Expected floats) (w v : W) (report : Report Problem)
        → fresh_deploy_then_tests rt floats psql exp w ≡ some (report, v)
        → report.passed ≡ true
        → Tested exp w v
    unfolding fresh_deploy_then_tests
    fresh_deploy_then_tests-Tested exp w v report e passed =
        elim (Bool-cases (not (psql.exists env_dev_sql) || not (psql.exists run_all_tests_sql))) [
          | inl missing ↦ absurd (refused no_script w v report (rw missing at e) passed)
          | inr found ↦
              let (deploy, runs_deploy, e1) =
                bind-some (psql.run_file env_dev_sql w) _ (rw found at e) in
              let (tests, runs_tests, e2) = bind-some (psql.run_tests deploy.1) _ e1 in
              let problems =
                problems_of rt floats exp deploy.0.code tests.0
                  (read_summary rt floats (splitlines tests.0.stdout) (no_summary rt floats)) in
              let is_report : conclude problems ≡ report = (some_pair e2).0 in
              let is_state : tests.1 ≡ v = (some_pair e2).1 in
              record {
                between = deploy.1;
                deploy = deploy.0;
                tests = tests.0;
                runs_deploy = runs_deploy;
                runs_tests = runs_tests ∙ ap (λ x. some (tests.0, x)) is_state;
                reported =
                    problems_of-Reported exp deploy.0.code tests.0
                      ((is_nil_iff problems).0 (ap (λ r. r.passed) is_report ∙ passed));
              }
        ]

    -- If the scenario of tier S passes, then the deployment and the SQL tests ran, with the codes
    -- expected; the output has each expected text; a line of a summary in it has a total of at
    -- least the expected number; and one has a rate that is not below the expected one.
    pub run_tier_s_scenario-Tested :
        (exp : Expected floats) (name : Text) (w v : W) (report : Report Problem)
        → run_tier_s_scenario rt floats psql (some exp) name w ≡ some (report, v)
        → report.passed ≡ true
        → Tested exp w v
    unfolding run_tier_s_scenario
    run_tier_s_scenario-Tested exp name w v report e passed = elim (Bool-cases (psql.connects w)) [
      | inr down ↦ absurd (refused not_reachable w v report (rw down at e) passed)
      | inl up ↦ elim (Bool-cases (same name (codes "01_fresh_deploy_then_all_tests_pass"))) [
        | inr other ↦
            absurd (refused (unknown_scenario name) w v report (rw (up, other) at e) passed)
        | inl named ↦ fresh_deploy_then_tests-Tested exp w v report (rw (up, named) at e) passed
      ]
    ]
