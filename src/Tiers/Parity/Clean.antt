-- ===== src/Tiers/Parity/Clean.antt =====
-- Tier E of evals/runner.py: what it means that there are no problems.
use postgre_data_migration_a.Prelude.{
  ℕ, true, not, Option, none, some, List, [], ◌∷◌, ◌≡◌, ◌≤◌, refl, sym, ap, ◌∙◌, subst, inl, inr,
  arith, map, All, Text, codes, same, same_iff, same_refl, member, length, ltb, if◌then◌else◌,
  Bool-cases, Option-cases,
}
use postgre_data_migration_a.Signatures.{Signature, tables, sorted, diff_signatures}
use postgre_data_migration_a.Signatures.Equal.{
  Within, SameColumns, SameStructure, All-sorted, diff_signatures-SameStructure,
}
use postgre_data_migration_a.Tiers.{
  Code, success, same_code_iff, unless, unless-nil, append-nil_iff,
}
use postgre_data_migration_a.Tiers.Parity.{
  Expected, deploy_failed, few_tables, different, Deploy, is_success, deploy_problems, Queried,
  query_problem, query_problems, signature_of, or_empty, count_problems, compare_problems,
  reference_problems, or_else, if_wanted, problems_of,
}

All-map_weaken :
    (P Q : Text → Type 0) → ((t : Text) → P t → Q t) → (ts : List Text) → All P ts → All Q ts
All-map_weaken P Q f [] h = tt
All-map_weaken P Q f (t ∷ ts) h = (f t h.0, All-map_weaken P Q f ts h.1)

Within-refl : (ts : List Text) → Within ts ts
Within-refl [] = tt
Within-refl (t ∷ ts) = (
  ground (arith, same_refl t),
  All-map_weaken (λ u. member u ts ≡ true) (λ u. member u (t ∷ ts) ≡ true)
      (λ u h. ground (arith, h)) ts (Within-refl ts),
)

everywhere : (P : Text → Type 0) → ((t : Text) → P t) → (ts : List Text) → All P ts
everywhere P f [] = tt
everywhere P f (t ∷ ts) = (f t, everywhere P f ts)

SameStructure-refl : (s : Signature) → SameStructure s s
SameStructure-refl s = (
  Within-refl (tables s),
  (Within-refl (tables s), everywhere (SameColumns s s) (λ t. refl) (tables s)),
)

map-nil : (diffs : List Text) → map different diffs ≡ [] → diffs ≡ []
map-nil [] e = refl
map-nil (d ∷ diffs) e = cc e

-- The signature of the environment, among those queried.
abbrev pub seen : Text → List Queried → Signature
seen env qs = or_empty (signature_of env qs)

compare_problems-nil :
    (ref_env : Text) (ref : Signature) (qs : List Queried) (envs : List Text)
    → signature_of ref_env qs ≡ some ref
    → compare_problems ref_env ref qs envs ≡ []
    → All (λ env. SameStructure ref (seen env qs)) envs
unfolding compare_problems
compare_problems-nil ref_env ref qs [] r e = tt
compare_problems-nil ref_env ref qs (env ∷ envs) r e =
    let parts =
      (append-nil_iff
          (if same env ref_env
            then []
            else map different (diff_signatures ref_env ref env (seen env qs)))
          _).0
        e in
    let rest = compare_problems-nil ref_env ref qs envs r parts.1 in
    elim (Bool-cases (same env ref_env)) [
      | inl own ↦
          let is_ref : env ≡ ref_env = (same_iff env ref_env).0 own in
          (
            subst (λ s. SameStructure ref s) (sym (ap (λ x. seen x qs) is_ref ∙ ap or_empty r))
                (SameStructure-refl ref),
            rest,
          )
      | inr other ↦
          let none_left =
            map-nil (diff_signatures ref_env ref env (seen env qs)) (rw other at parts.0) in
          ((diff_signatures-SameStructure ref_env env ref (seen env qs)).0 none_left, rest)
    ]

-- The reference exists and is not empty, and every signature is like it.
abbrev pub Likeness : List Queried → List Text → Text → Type 0
Likeness qs envs ref_env =
    (ref : Signature) × (signature_of ref_env qs ≡ some ref)
    × All (λ env. SameStructure ref (seen env qs)) envs

reference_problems-nil :
    (ref_env : Text) (qs : List Queried) (envs : List Text) (o : Option Signature)
    → signature_of ref_env qs ≡ o
    → reference_problems ref_env o qs envs ≡ []
    → Likeness qs envs ref_env
reference_problems-nil ref_env qs envs none r e = cc e
reference_problems-nil ref_env qs envs (some []) r e = cc e
reference_problems-nil ref_env qs envs (some (x ∷ ref)) r e =
    (x ∷ ref, r, compare_problems-nil ref_env (x ∷ ref) qs envs r e)

at_least : (m n : ℕ) → not (ltb m n) ≡ true → n ≤ m
at_least m n e = ground (arith, e)

count_problems-nil :
    (n : ℕ) (qs : List Queried) (envs : List Text)
    → count_problems n qs envs ≡ []
    → All (λ env. n ≤ length (seen env qs)) envs
unfolding count_problems
count_problems-nil n qs [] e = tt
count_problems-nil n qs (env ∷ envs) e =
    let parts =
      (append-nil_iff
          (unless (not (ltb (length (seen env qs)) n)) (few_tables env (length (seen env qs)))) _).0
        e in
    (
      at_least (length (seen env qs)) n ((unless-nil _ _).0 parts.0),
      count_problems-nil n qs envs parts.1,
    )

query_problem-none : (q : Queried) → query_problem q ≡ [] → q.error ≡ none
query_problem-none q e = elim (Option-cases q.error) [
  | inl nothing ↦ nothing
  | inr (text, wrong) ↦ let bad = rw wrong at e in cc bad
]

query_problems-nil : (qs : List Queried) → query_problems qs ≡ [] → All (λ q. q.error ≡ none) qs
unfolding query_problems
query_problems-nil [] e = tt
query_problems-nil (q ∷ qs) e =
    let parts = (append-nil_iff (query_problem q) _).0 e in
    (query_problem-none q parts.0, query_problems-nil qs parts.1)

is_success-some : (o : Option Code) → is_success o ≡ true → o ≡ some success
is_success-some none e = cc e
is_success-some (some code) e = ap some ((same_code_iff code success).0 e)

deploy_problems-nil :
    (deploys : List Deploy) → deploy_problems deploys ≡ [] → All (λ d. d.1 ≡ some success) deploys
unfolding deploy_problems
deploy_problems-nil [] e = tt
deploy_problems-nil (d ∷ deploys) e =
    let parts = (append-nil_iff (unless (is_success d.1) (deploy_failed d.0 d.1)) _).0 e in
    (is_success-some d.1 ((unless-nil _ _).0 parts.0), deploy_problems-nil deploys parts.1)

-- What there is to know of a list of queries without problems.
pub record Clean (exp : Expected) (deploys : List Deploy) (qs : List Queried) : Type 0 where
  pub answered : All (λ q. q.error ≡ none) qs
  pub deployed : exp.all_envs_deploy_exit_zero ≡ true → All (λ d. d.1 ≡ some success) deploys
  pub counted :
      All (λ env. or_else exp.min_tables_per_env 12 ≤ length (seen env qs)) (map (λ q. q.env) qs)
  pub alike :
      exp.column_signature_identical_across_envs ≡ true
      → Likeness qs (map (λ q. q.env) qs) (or_else exp.reference_env (codes "dev"))

pub problems_of-Clean :
    (exp : Expected) (deploys : List Deploy) (qs : List Queried)
    → problems_of exp deploys qs ≡ []
    → Clean exp deploys qs
unfolding problems_of
problems_of-Clean exp deploys qs e =
    let names = map (λ q. q.env) qs in
    let n = or_else exp.min_tables_per_env 12 in
    let ref_env = or_else exp.reference_env (codes "dev") in
    let one = (append-nil_iff (query_problems qs) _).0 e in
    let two =
      (append-nil_iff (if_wanted exp.all_envs_deploy_exit_zero (deploy_problems deploys)) _).0
        one.1 in
    let three = (append-nil_iff (count_problems n qs (sorted names)) _).0 two.1 in
    record {
      answered = query_problems-nil qs one.0;
      deployed = λ wanted. deploy_problems-nil deploys (rw wanted at two.0);
      counted =
          All-sorted (λ env. n ≤ length (seen env qs)) names
            (count_problems-nil n qs (sorted names) three.0);
      alike = λ wanted.
          let likeness =
            reference_problems-nil ref_env qs (sorted names) (signature_of ref_env qs) refl
              (rw wanted at three.1) in
          (
            likeness.0,
            likeness.1,
            All-sorted (λ env. SameStructure likeness.0 (seen env qs)) names likeness.2,
          );
    }
