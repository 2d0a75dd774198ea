-- ===== src/GapReport/Regressions.antt =====
-- evals/gap_report.py: what the status of a requirement says of the scenarios that cover it.
use postgre_data_migration_a.Prelude.{
  Bool, true, false, ◌||◌, List, [], ◌∷◌, ◌≡◌, refl, ap, ◌∙◌, inl, inr, arith, Text, any,
  Bool-cases, if◌then◌else◌,
}
use postgre_data_migration_a.GapReport.Types.{
  Outcome, pass, fail, skip, missing, Br, Status, regression, verified, skipped, unverified,
}
use postgre_data_migration_a.GapReport.{
  is_outcome, scenario_outcome, Seen, mark, see, see_scenarios, see_tiers, unseen, passed_status,
  concluded, in_scope, compute_status,
}

abbrev pub Results : Type 0
Results = List (Text × List (Text × Outcome))

-- One of the scenarios that cover a requirement has the outcome.
abbrev pub some_scenario : Outcome → Results → Text → List Text → Bool
some_scenario o by_tier tier scenarios =
    any (λ name. is_outcome o (scenario_outcome tier name by_tier)) scenarios

abbrev pub some_covering : Outcome → Results → List (Text × List Text) → Bool
some_covering o by_tier covering = any (λ c. some_scenario o by_tier c.0 c.1) covering

abbrev flag : Outcome → Seen → Bool
flag pass x = x.any_pass
flag fail x = x.any_fail
flag skip x = x.any_skip
flag missing x = true

or_true : (b : Bool) → true ≡ (b || true)
or_true b = ground arith

or_false : (b : Bool) → b ≡ (b || false)
or_false b = ground arith

or_assoc : (a b c : Bool) → ((a || b) || c) ≡ (a || (b || c))
or_assoc a b c = ground arith

flag-mark : (o p : Outcome) (x : Seen) → flag o (mark p x) ≡ (flag o x || is_outcome o p)
flag-mark pass pass x = or_true x.any_pass
flag-mark pass fail x = or_false x.any_pass
flag-mark pass skip x = or_false x.any_pass
flag-mark pass missing x = or_false x.any_pass
flag-mark fail pass x = or_false x.any_fail
flag-mark fail fail x = or_true x.any_fail
flag-mark fail skip x = or_false x.any_fail
flag-mark fail missing x = or_false x.any_fail
flag-mark skip pass x = or_false x.any_skip
flag-mark skip fail x = or_false x.any_skip
flag-mark skip skip x = or_true x.any_skip
flag-mark skip missing x = or_false x.any_skip
flag-mark missing p x = refl

flag-see :
    (o : Outcome) (tier name : Text) (p : Outcome) (x : Seen)
    → flag o (see tier name p x) ≡ (flag o x || is_outcome o p)
flag-see pass tier name p x = flag-mark pass p _
flag-see fail tier name p x = flag-mark fail p _
flag-see skip tier name p x = flag-mark skip p _
flag-see missing tier name p x = refl

flag-see_scenarios :
    (o : Outcome) (by_tier : Results) (tier : Text) (names : List Text) (x : Seen)
    → flag o (see_scenarios by_tier tier names x) ≡ (flag o x || some_scenario o by_tier tier names)
unfolding see_scenarios
flag-see_scenarios o by_tier tier [] x = or_false (flag o x)
flag-see_scenarios o by_tier tier (name ∷ names) x =
    let p = scenario_outcome tier name by_tier in
    flag-see_scenarios o by_tier tier names (see tier name p x)
    ∙ ap (λ b. b || some_scenario o by_tier tier names) (flag-see o tier name p x)
    ∙ or_assoc (flag o x) (is_outcome o p) (some_scenario o by_tier tier names)

flag-see_tiers :
    (o : Outcome) (by_tier : Results) (covering : List (Text × List Text)) (x : Seen)
    → flag o (see_tiers by_tier covering x) ≡ (flag o x || some_covering o by_tier covering)
unfolding see_tiers
flag-see_tiers o by_tier [] x = or_false (flag o x)
flag-see_tiers o by_tier (c ∷ covering) x =
    flag-see_tiers o by_tier covering (see_scenarios by_tier c.0 c.1 x)
    ∙ ap (λ b. b || some_covering o by_tier covering) (flag-see_scenarios o by_tier c.0 c.1 x)
    ∙ or_assoc (flag o x) (some_scenario o by_tier c.0 c.1) (some_covering o by_tier covering)

-- The status by the outcomes that occur among the scenarios that cover a requirement.
abbrev pub expected_status : Br → (Outcome → Bool) → Status
expected_status br occurs =
    if occurs fail
    then regression
    else if occurs pass
    then passed_status br.baseline
    else if occurs skip
    then (if br.skip_means_verified then verified else skipped)
    else unverified

concluded-expected_status :
    (br : Br) (x : Seen) → (concluded br x).status ≡ expected_status br (λ o. flag o x)
concluded-expected_status br x = elim (Bool-cases x.any_fail) [
  | inl failed ↦ rw failed refl
  | inr e ↦ elim (Bool-cases x.any_pass) [
    | inl passed ↦ rw (e, passed) refl
    | inr f ↦ elim (Bool-cases x.any_skip) [
      | inr g ↦ rw (e, f, g) refl
      | inl g ↦ elim (Bool-cases br.skip_means_verified) [
        | inl h ↦ rw (e, f, g, h) refl
        | inr h ↦ rw (e, f, g, h) refl
      ]
    ]
  ]
]

-- A requirement in scope that some evaluation covers is a regression exactly if a covering scenario
-- failed; else it has the status of a pass by its baseline if one passed; else, if one was skipped,
-- it is skipped, or verified where a skip is the contract; and else it is unverified.
pub compute_status-expected_status :
    (br : Br) (by_tier : Results) (c : Text × List Text) (covering : List (Text × List Text))
    → in_scope br.baseline ≡ true
    → br.covering_evals ≡ c ∷ covering
    → (compute_status br by_tier).status
      ≡ expected_status br (λ o. some_covering o by_tier br.covering_evals)
unfolding compute_status
compute_status-expected_status br by_tier c covering scoped covered =
    let x = see_tiers by_tier (c ∷ covering) unseen in
    let flags : (o : Outcome)
        → flag o x ≡ (flag o unseen || some_covering o by_tier (c ∷ covering)) =
      λ o. flag-see_tiers o by_tier (c ∷ covering) unseen in
    rw (scoped, covered)
      (concluded-expected_status br x ∙ rw (flags fail, flags pass, flags skip) refl)
