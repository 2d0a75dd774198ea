-- ===== src/Tiers/Parity/Identical.antt =====
-- Tier E of evals/runner.py: a passed scenario has seen the same structure in every environment.
use postgre_data_migration_a.Prelude.{
  true, Option, none, some, List, [], ◌∷◌, ◌≡◌, ◌≤◌, refl, sym, ap, ◌∙◌, subst, inl, inr, map, All,
  Text, codes, same, same_iff, length, if◌then◌else◌, Bool-cases,
}
use postgre_data_migration_a.Signatures.{Signature}
use postgre_data_migration_a.Signatures.Equal.{SameStructure}
use postgre_data_migration_a.Tiers.{
  success, same_code, same_code_iff, Process, Report, conclude, is_nil_iff, Psql, bind-some,
  some_inj, some_pair, refused,
}
use postgre_data_migration_a.Tiers.Parity.Clean.{seen, problems_of-Clean}
use postgre_data_migration_a.Tiers.Parity.{
  Target, env_targets, Expected, Problem, not_reachable, unknown_scenario, column_signature, Deploy,
  Queried, or_empty, or_else, problems_of, targets_of, deploy_all, error_of, queried, query_all,
  envs_have_identical_structure, run_tier_e_scenario,
}

-- The first target of that name.
abbrev pub target_of : Text → List Target → Option Target
target_of env [] = none
target_of env (t ∷ targets) =
    let rest = target_of env targets in if same env t.env then some t else rest

-- What the query shows of the structure.
abbrev pub structure_of : Process → Signature
structure_of r = or_empty (column_signature r)

error_of-success : (r : Process) → error_of r (column_signature r) ≡ none → r.code ≡ success
unfolding column_signature
error_of-success r e = elim (Bool-cases (same_code r.code success)) [
  | inl fine ↦ (same_code_iff r.code success).0 fine
  | inr failed ↦
      let is_none : column_signature r ≡ none = rw failed refl in
      let bad : error_of r none ≡ none = subst (λ o. error_of r o ≡ none) is_none e in cc bad
]

All-both : (P Q : Text → Type 0) (ts : List Text) → All P ts → All Q ts → All (λ t. P t × Q t) ts
All-both P Q [] h k = tt
All-both P Q (t ∷ ts) h k = ((h.0, k.0), All-both P Q ts h.1 k.1)

module _ {W : Type 0} (psql : Psql W) where
  query_all-target :
      (targets : List Target) (v : W) (qs : List Queried) (env : Text) (t : Target)
      → query_all psql targets v ≡ some qs
      → target_of env targets ≡ some t
      → All (λ q. q.error ≡ none) qs
      → (P : Text → Type 0) → All P (map (λ q. q.env) qs)
      → (r : Process) × (psql.columns t.db t.schema v ≡ some r)
        × (r.code ≡ success)
        × (seen env qs ≡ structure_of r)
        × P env
  unfolding query_all
  query_all-target [] v qs env t e found fine P h = cc found
  query_all-target (u ∷ targets) v qs env t e found fine P h =
      let (r, asked, e1) = bind-some (psql.columns u.db u.schema v) _ e in
      let (rest, queried_rest, e2) = bind-some (query_all psql targets v) _ e1 in
      let is_qs : queried u.env r ∷ rest ≡ qs = some_inj e2 in
      let fine' = subst (All (λ q. q.error ≡ none)) (sym is_qs) fine in
      let h' = subst (λ l. All P (map (λ q. q.env) l)) (sym is_qs) h in
      elim (Bool-cases (same env u.env)) [
        | inl here ↦
            let is_t : u ≡ t = some_inj (rw here at found) in
            (
              r,
              ap (λ x. psql.columns x.db x.schema v) (sym is_t) ∙ asked,
              error_of-success r fine'.0,
              ap (seen env) (sym is_qs) ∙ rw here refl,
              subst P (sym ((same_iff env u.env).0 here)) h'.0,
            )
        | inr later ↦
            let (q, shown, ok, is_seen, holds) =
              query_all-target targets v rest env t queried_rest (rw later at found) fine'.1 P
                h'.1 in
            (q, shown, ok, ap (seen env) (sym is_qs) ∙ rw later is_seen, holds)
      ]

  -- The deployments and the queries behind them, what the latter show being like the reference.
  pub record Alike (exp : Expected) (w v : W) : Type 0 where
    pub deploys : List Deploy
    pub reference : Signature
    pub deployed :
        deploy_all psql (targets_of exp.envs_under_test env_targets) w ≡ some (deploys, v)
    pub successful : exp.all_envs_deploy_exit_zero ≡ true → All (λ d. d.1 ≡ some success) deploys
    pub alike :
        (env : Text) (t : Target)
        → target_of env (targets_of exp.envs_under_test env_targets) ≡ some t
        → (r : Process) × (psql.columns t.db t.schema v ≡ some r)
          × (r.code ≡ success)
          × (or_else exp.min_tables_per_env 12 ≤ length (structure_of r))
          × SameStructure reference (structure_of r)

  envs_have_identical_structure-Alike :
      (exp : Expected) (w v : W) (report : Report Problem)
      → exp.column_signature_identical_across_envs ≡ true
      → envs_have_identical_structure psql exp w ≡ some (report, v)
      → report.passed ≡ true
      → Alike exp w v
  unfolding envs_have_identical_structure
  envs_have_identical_structure-Alike exp w v report wanted e passed =
      let targets = targets_of exp.envs_under_test env_targets in
      let (first, deployed, e1) = bind-some (deploy_all psql targets w) _ e in
      let (qs, shown, e2) = bind-some (query_all psql targets first.1) _ e1 in
      let is_report : conclude (problems_of exp first.0 qs) ≡ report = (some_pair e2).0 in
      let is_state : first.1 ≡ v = (some_pair e2).1 in
      let clean =
        problems_of-Clean exp first.0 qs
          ((is_nil_iff (problems_of exp first.0 qs)).0 (ap (λ r. r.passed) is_report ∙ passed)) in
      let (ref, referred, like) = clean.alike wanted in
      let names = map (λ q. q.env) qs in
      let n = or_else exp.min_tables_per_env 12 in
      record {
        deploys = first.0;
        reference = ref;
        deployed = deployed ∙ ap (λ x. some (first.0, x)) is_state;
        successful = clean.deployed;
        alike = λ env t found.
            let shown' = subst (λ x. query_all psql targets x ≡ some qs) is_state shown in
            let (r, asked, ok, is_seen, both) =
              query_all-target targets v qs env t shown' found clean.answered
                (λ name. (n ≤ length (seen name qs)) × SameStructure ref (seen name qs))
                (All-both (λ name. n ≤ length (seen name qs))
                  (λ name. SameStructure ref (seen name qs)) names clean.counted like) in
            (
              r,
              asked,
              ok,
              subst (λ s. n ≤ length s) is_seen both.0,
              subst (SameStructure ref) is_seen both.1,
            );
      }

  -- If the scenario of tier E passes and equal structures are expected, then every environment
  -- under test was deployed, with exit code 0 where that is expected; the query of its structure
  -- succeeded in the state behind all deployments; and what it showed has at least the expected
  -- number of tables, and the same tables, columns and order of columns as one common reference.
  pub run_tier_e_scenario-Alike :
      (exp : Expected) (name : Text) (w v : W) (report : Report Problem)
      → exp.column_signature_identical_across_envs ≡ true
      → run_tier_e_scenario psql (some exp) name w ≡ some (report, v)
      → report.passed ≡ true
      → Alike exp w v
  unfolding run_tier_e_scenario
  run_tier_e_scenario-Alike exp name w v report wanted e passed =
      elim (Bool-cases (psql.connects w)) [
        | inr down ↦ absurd (refused not_reachable w v report (rw down at e) passed)
        | inl up ↦ elim (Bool-cases (same name (codes "01_envs_have_identical_structure"))) [
          | inr other ↦
              absurd (refused (unknown_scenario name) w v report (rw (up, other) at e) passed)
          | inl named ↦
              envs_have_identical_structure-Alike exp w v report wanted (rw (up, named) at e) passed
        ]
      ]
