-- ===== src/Tiers/Twice/Kept.antt =====
-- Tier I of evals/runner.py: what a passed scenario has seen of the database.
use postgre_data_migration_a.Prelude.{
  ℕ, Bool, true, ◌||◌, not, none, some, List, [], ◌∷◌, ◌≡◌, ◌↔◌, ◌≤◌, sym, ap, ◌∙◌, inl, inr, subst,
  arith, All, Text, codes, same, ltb, ==_iff, Bool-cases,
}
use postgre_data_migration_a.Python.{Runtime}
use postgre_data_migration_a.Tiers.{
  Code, Process, Report, conclude, unless, unless-nil, append-nil_iff, is_nil_iff, Psql, bind-some,
  some_inj, some_pair, refused, is_code, is_code_iff,
}
use postgre_data_migration_a.Tiers.Twice.{
  dev_seed_tables, not_reachable, unknown_scenario, no_script, Expected, Count, Problem,
  env_dev_sql, same_count, same_counts, count_present, problems_of, count_table, count_rows,
  deploy_dev_twice, run_tier_i_scenario,
}

same_count_iff : (m n : Count) → (same_count m n ≡ true) ↔ (m ≡ n)
same_count_iff none none = ground arith
same_count_iff none (some n) = ground arith
same_count_iff (some m) none = ground arith
same_count_iff (some m) (some n) = ground (arith, ==_iff m n)

-- What the two codes and the two counts are if there are no problems.
pub record Clean (exp : Expected) (code_1 code_2 : Code) (counts_1 counts_2 : List (Text × Count))
    : Type 0 where
  pub first_code : exp.first_run_exit_code ≡ some code_1
  pub second_code : exp.second_run_exit_code ≡ some code_2
  pub unchanged : exp.row_counts_unchanged ≡ true → same_counts counts_1 counts_2 ≡ true
  pub present : exp.min_seeded_tables_present ≤ count_present counts_2

not_or : (a b : Bool) → (not a || b) ≡ true → a ≡ true → b ≡ true
not_or a b e h = ground (arith, e, h)

at_least : (m n : ℕ) → not (ltb m n) ≡ true → n ≤ m
at_least m n e = ground (arith, e)

problems_of-Clean :
    (exp : Expected) (code_1 code_2 : Code) (counts_1 counts_2 : List (Text × Count))
    → problems_of exp code_1 code_2 counts_1 counts_2 ≡ []
    → Clean exp code_1 code_2 counts_1 counts_2
problems_of-Clean exp code_1 code_2 counts_1 counts_2 e =
    let one = (append-nil_iff (unless (is_code exp.first_run_exit_code code_1) _) _).0 e in
    let two = (append-nil_iff (unless (is_code exp.second_run_exit_code code_2) _) _).0 one.1 in
    let three =
      (append-nil_iff (unless (not exp.row_counts_unchanged || same_counts counts_1 counts_2) _)
          _).0
        two.1 in
    record {
      first_code = (is_code_iff exp.first_run_exit_code code_1).0 ((unless-nil _ _).0 one.0);
      second_code = (is_code_iff exp.second_run_exit_code code_2).0 ((unless-nil _ _).0 two.0);
      unchanged = not_or _ _ ((unless-nil _ _).0 three.0);
      present = at_least _ _ ((unless-nil _ _).0 three.1);
    }

module _ {W : Type 0} (rt : Runtime) (psql : Psql W) where
  -- The count of the table is the same in both states.
  abbrev pub Unmoved : W → W → Text → Type 0
  Unmoved w v table = count_table rt psql table w ≡ count_table rt psql table v

  count_rows-Unmoved :
      (w v : W) (tables : List Text) (cs ds : List (Text × Count))
      → count_rows rt psql tables w ≡ some cs
      → count_rows rt psql tables v ≡ some ds
      → same_counts cs ds ≡ true
      → All (Unmoved w v) tables
  unfolding count_rows
  count_rows-Unmoved w v [] cs ds h k e = tt
  count_rows-Unmoved w v (table ∷ tables) cs ds h k e =
      let here = bind-some (count_table rt psql table w) _ h in
      let rest = bind-some (count_rows rt psql tables w) _ here.2 in
      let here' = bind-some (count_table rt psql table v) _ k in
      let rest' = bind-some (count_rows rt psql tables v) _ here'.2 in
      let cs_is : ((table, here.0) ∷ rest.0) ≡ cs = some_inj rest.2 in
      let ds_is : ((table, here'.0) ∷ rest'.0) ≡ ds = some_inj rest'.2 in
      let test : same_counts ((table, here.0) ∷ rest.0) ((table, here'.0) ∷ rest'.0) ≡ true =
        subst (λ l. same_counts l ((table, here'.0) ∷ rest'.0) ≡ true) (sym cs_is)
          (subst (λ l. same_counts cs l ≡ true) (sym ds_is) e) in
      let one : same_count here.0 here'.0 ≡ true = ground (arith, test) in
      let two : same_counts rest.0 rest'.0 ≡ true = ground (arith, test) in
      (
        here.1 ∙ ap some ((same_count_iff here.0 here'.0).0 one) ∙ sym here'.1,
        count_rows-Unmoved w v tables rest.0 rest'.0 rest.1 rest'.1 two,
      )

  -- The two runs of a passed scenario, the states behind them and the counts.
  pub record DeployedTwice (exp : Expected) (w v : W) : Type 0 where
    pub between : W
    pub first : Process
    pub second : Process
    pub runs_first : psql.run_file env_dev_sql w ≡ some (first, between)
    pub runs_second : psql.run_file env_dev_sql between ≡ some (second, v)
    pub first_code : exp.first_run_exit_code ≡ some first.code
    pub second_code : exp.second_run_exit_code ≡ some second.code
    pub unmoved : exp.row_counts_unchanged ≡ true → All (Unmoved between v) dev_seed_tables

  deploy_dev_twice-DeployedTwice :
      (exp : Expected) (w v : W) (report : Report Problem)
      → deploy_dev_twice rt psql exp w ≡ some (report, v)
      → report.passed ≡ true
      → DeployedTwice exp w v
  unfolding deploy_dev_twice
  deploy_dev_twice-DeployedTwice exp w v report e passed =
      elim (Bool-cases (psql.exists env_dev_sql)) [
        | inr missing ↦ absurd (refused (no_script env_dev_sql) w v report (rw missing at e) passed)
        | inl found ↦
            let (first, runs_first, e1) =
              bind-some (psql.run_file env_dev_sql w) _ (rw found at e) in
            let (counts_1, counted_1, e2) =
              bind-some (count_rows rt psql dev_seed_tables first.1) _ e1 in
            let (second, runs_second, e3) = bind-some (psql.run_file env_dev_sql first.1) _ e2 in
            let (counts_2, counted_2, e4) =
              bind-some (count_rows rt psql dev_seed_tables second.1) _ e3 in
            let problems = problems_of exp first.0.code second.0.code counts_1 counts_2 in
            let is_report : conclude problems ≡ report = (some_pair e4).0 in
            let is_state : second.1 ≡ v = (some_pair e4).1 in
            let clean =
              problems_of-Clean exp first.0.code second.0.code counts_1 counts_2
                ((is_nil_iff problems).0 (ap (λ r. r.passed) is_report ∙ passed)) in
            record {
              between = first.1;
              first = first.0;
              second = second.0;
              runs_first = runs_first;
              runs_second = runs_second ∙ ap (λ x. some (second.0, x)) is_state;
              first_code = clean.first_code;
              second_code = clean.second_code;
              unmoved = λ wanted.
                  count_rows-Unmoved first.1 v dev_seed_tables counts_1 counts_2 counted_1
                    (subst (λ x. count_rows rt psql dev_seed_tables x ≡ some counts_2) is_state
                      counted_2)
                    (clean.unchanged wanted);
            }
      ]

  -- If the scenario of tier I passes, then the script ran twice, with the codes expected, and, where
  -- unchanged counts are expected, no count of a table of the seed differs between the two runs.
  pub run_tier_i_scenario-DeployedTwice :
      (exp : Expected) (name : Text) (w v : W) (report : Report Problem)
      → run_tier_i_scenario rt psql (some exp) name w ≡ some (report, v)
      → report.passed ≡ true
      → DeployedTwice exp w v
  unfolding run_tier_i_scenario
  run_tier_i_scenario-DeployedTwice exp name w v report e passed =
      elim (Bool-cases (psql.connects w)) [
        | inr down ↦ absurd (refused not_reachable w v report (rw down at e) passed)
        | inl up ↦ elim (Bool-cases (same name (codes "01_deploy_dev_twice"))) [
          | inr other ↦
              absurd (refused (unknown_scenario name) w v report (rw (up, other) at e) passed)
          | inl named ↦ deploy_dev_twice-DeployedTwice exp w v report (rw (up, named) at e) passed
        ]
      ]
