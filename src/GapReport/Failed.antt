-- ===== src/GapReport/Failed.antt =====
-- evals/gap_report.py: from the scenarios of summary.json to the status of a requirement.
use postgre_data_migration_a.Prelude.{
  Bool, true, false, ◌&&◌, ◌||◌, List, [], ◌∷◌, ◌≡◌, refl, sym, ap, ◌∙◌, inl, inr, arith, Text,
  same, same_iff, same_sym, member, Bool-cases, if◌then◌else◌,
}
use postgre_data_migration_a.GapReport.Types.{Outcome, fail, missing, Br, regression}
use postgre_data_migration_a.GapReport.{
  get_or_default, put, is_outcome, any_scenario, scenario_outcome, in_scope, compute_status,
  Scenario, or_unknown, outcome_of, record_outcome, outcomes_from, outcomes_by_tier,
}
use postgre_data_migration_a.GapReport.Regressions.{
  Results, some_scenario, some_covering, compute_status-expected_status,
}

if_behind {ℓ} :
    {A : Type ℓ} (b : Bool) (x y z : A)
    → (if b then x else z) ≡ (if b then x else (if b then y else z))
if_behind true x y z = refl
if_behind false x y z = refl

or_later : (a b : Bool) → b ≡ true → (a || b) ≡ true
or_later a b e = ground (arith, e)

or_now : (a b : Bool) → a ≡ true → (a || b) ≡ true
or_now a b e = ground (arith, e)

and_left : (a b : Bool) → (a && b) ≡ true → a ≡ true
and_left a b e = ground (arith, e)

and_right : (a b : Bool) → (a && b) ≡ true → b ≡ true
and_right a b e = ground (arith, e)

get_or_default-put {ℓ} :
    {A : Type ℓ} (key k : Text) (d : A) (f : A → A) (m : List (Text × A))
    → get_or_default k d (put key d f m)
      ≡ (if same key k then f (get_or_default key d m) else get_or_default k d m)
get_or_default-put key k d f [] = refl
get_or_default-put key k d f (e ∷ m) = elim (Bool-cases (same e.0 key)) [
  | inl here ↦
      let at : same e.0 k ≡ same key k = ap (λ t. same t k) ((same_iff e.0 key).0 here) in
      rw (here, at) (if_behind (same key k) (f e.1) e.1 (get_or_default k d m))
  | inr passed ↦ elim (Bool-cases (same e.0 k)) [
    | inr other ↦ rw (passed, other) (get_or_default-put key k d f m)
    | inl found ↦
        let differs : same key k ≡ false =
          same_sym key k ∙ ap (λ t. same t key) (sym ((same_iff e.0 k).0 found)) ∙ passed in
        rw (passed, found, differs) refl
  ]
]

abbrev lookup : Results → Text → Text → Outcome
lookup by_tier tier name = get_or_default name missing (get_or_default tier [] by_tier)

abbrev is_scenario : Text → Text → Scenario → Bool
is_scenario tier name sc = same (or_unknown sc.tier) tier && same (or_unknown sc.name) name

lookup-record_outcome :
    (sc : Scenario) (by_tier : Results) (tier name : Text)
    → lookup (record_outcome sc by_tier) tier name
      ≡ (if is_scenario tier name sc then outcome_of sc else lookup by_tier tier name)
lookup-record_outcome sc by_tier tier name =
    let t = or_unknown sc.tier in
    let n = or_unknown sc.name in
    let g : List (Text × Outcome) → List (Text × Outcome) =
      λ old. put n missing (λ o. outcome_of sc) old in
    let of_tier = get_or_default-put t tier [] g by_tier in
    elim (Bool-cases (same t tier)) [
      | inr other ↦ rw (of_tier, other) refl
      | inl here ↦
          rw (of_tier, here)
            (get_or_default-put n name missing (λ o. outcome_of sc) (get_or_default t [] by_tier)
              ∙ ap (λ u. if same n name then outcome_of sc else lookup by_tier u name)
                  ((same_iff t tier).0 here))
    ]

-- The outcome of the last entry of a scenario, or `o`.
abbrev pub last_outcome : Text → Text → Outcome → List Scenario → Outcome
last_outcome tier name o [] = o
last_outcome tier name o (sc ∷ scenarios) =
    last_outcome tier name
      (if same (or_unknown sc.tier) tier && same (or_unknown sc.name) name
        then outcome_of sc
        else o)
      scenarios

lookup-outcomes_from :
    (tier name : Text) (scenarios : List Scenario) (by_tier : Results)
    → lookup (outcomes_from by_tier scenarios) tier name
      ≡ last_outcome tier name (lookup by_tier tier name) scenarios
unfolding outcomes_from
lookup-outcomes_from tier name [] by_tier = refl
lookup-outcomes_from tier name (sc ∷ scenarios) by_tier =
    lookup-outcomes_from tier name scenarios (record_outcome sc by_tier)
    ∙ ap (λ o. last_outcome tier name o scenarios) (lookup-record_outcome sc by_tier tier name)

-- The scenario is among those that cover the requirement.
abbrev pub covers : Text → Text → List (Text × List Text) → Bool
covers tier name [] = false
covers tier name (c ∷ covering) = (same c.0 tier && member name c.1) || covers tier name covering

member-some_scenario :
    (o : Outcome) (by_tier : Results) (tier name : Text) (names : List Text)
    → is_outcome o (scenario_outcome tier name by_tier) ≡ true
    → member name names ≡ true
    → some_scenario o by_tier tier names ≡ true
member-some_scenario o by_tier tier name [] occurs e = absurd (ground (arith, e))
member-some_scenario o by_tier tier name (n ∷ names) occurs e = elim (Bool-cases (same name n)) [
  | inl here ↦
      let now : is_outcome o (scenario_outcome tier n by_tier) ≡ true =
        ap (λ m. is_outcome o (scenario_outcome tier m by_tier)) (sym ((same_iff name n).0 here))
        ∙ occurs in
      rw now refl
  | inr passed ↦
      let later : member name names ≡ true = rw passed at e in
      or_later _ _ (member-some_scenario o by_tier tier name names occurs later)
]

covers-some_covering :
    (o : Outcome) (by_tier : Results) (tier name : Text) (covering : List (Text × List Text))
    → is_outcome o (scenario_outcome tier name by_tier) ≡ true
    → covers tier name covering ≡ true
    → some_covering o by_tier covering ≡ true
covers-some_covering o by_tier tier name [] occurs e = absurd (ground (arith, e))
covers-some_covering o by_tier tier name (c ∷ covering) occurs e =
    elim (Bool-cases (same c.0 tier && member name c.1)) [
      | inr passed ↦
          let later : covers tier name covering ≡ true = rw passed at e in
          or_later _ _ (covers-some_covering o by_tier tier name covering occurs later)
      | inl here ↦
          let at : c.0 ≡ tier = (same_iff c.0 tier).0 (and_left _ _ here) in
          or_now _ _ (
            member-some_scenario o by_tier c.0 name c.1
              (ap (λ t. is_outcome o (scenario_outcome t name by_tier)) at ∙ occurs)
              (and_right _ _ here))
    ]

covered-regression :
    (br : Br) (by_tier : Results) (covering : List (Text × List Text))
    → in_scope br.baseline ≡ true
    → br.covering_evals ≡ covering
    → some_covering fail by_tier covering ≡ true
    → (compute_status br by_tier).status ≡ regression
covered-regression br by_tier [] scoped covered failed = absurd (ground (arith, failed))
covered-regression br by_tier (c ∷ covering) scoped covered failed =
    let occurs : some_covering fail by_tier br.covering_evals ≡ true =
      ap (some_covering fail by_tier) covered ∙ failed in
    compute_status-expected_status br by_tier c covering scoped covered ∙ rw occurs refl

-- If the last entry of a named scenario in the summary says that it failed, every requirement in
-- scope that it covers is reported as a regression, whatever else passed.
pub compute_status-regression :
    (br : Br) (tier name : Text) (scenarios : List Scenario)
    → in_scope br.baseline ≡ true
    → same name any_scenario ≡ false
    → covers tier name br.covering_evals ≡ true
    → last_outcome tier name missing scenarios ≡ fail
    → (compute_status br (outcomes_by_tier scenarios)).status ≡ regression
unfolding scenario_outcome
compute_status-regression br tier name scenarios scoped named covered failed =
    let by_tier = outcomes_by_tier scenarios in
    let found : lookup by_tier tier name ≡ fail =
      lookup-outcomes_from tier name scenarios [] ∙ failed in
    let occurs : is_outcome fail (scenario_outcome tier name by_tier) ≡ true =
      rw (named, found) refl in
    covered-regression br by_tier br.covering_evals scoped refl
      (covers-some_covering fail by_tier tier name br.covering_evals occurs covered)
