-- ===== src/Runner/Run/Passing.antt =====
-- `main` of evals/runner.py: a run that exits with 0.
use postgre_data_migration_a.Prelude.{
  ℕ, Bool, true, Option, some, List, [], ◌∷◌, ◌++◌, ◌≡◌, sym, ap, ◌∙◌, subst, inl, inr, arith, all,
  All, all→All, Text, same, same_iff, member, Bool-cases,
}
use postgre_data_migration_a.Python.{Runtime}
use postgre_data_migration_a.Runner.Calm.{IsGreen}
use postgre_data_migration_a.Runner.Green.{exit_code-IsGreen}
use postgre_data_migration_a.Tiers.{bind-some, some_pair}
use postgre_data_migration_a.Runner.{Result}
use postgre_data_migration_a.Runner.Run.{
  known_tiers, tiers_of, discover_scenarios, result, run_scenarios, run_tiers, ended, main,
}

append-All {ℓ} :
    {A : Type ℓ} (P : A → Type 0) (xs ys : List A) → All P (xs ++ ys) → All P xs × All P ys
append-All P [] ys h = (tt, h)
append-All P (x ∷ xs) ys h = let rest = append-All P xs ys h.1 in ((h.0, rest.0), rest.1)

module _ {W : Type 0} (run : Text → Text → W → Option (Bool × W)) where
  -- From the one state to the other, the scenarios are executed one behind the other, each in the
  -- state that the one before it left, and each passes.
  abbrev pub Chain : Text → List Text → W → W → Type 0
  Chain tier [] w v = w ≡ v
  Chain tier (name ∷ names) w v =
      (u : W) × (run tier name w ≡ some (true, u)) × Chain tier names u v

  -- The same of tiers, each with its scenarios.
  abbrev pub Passes : (Text → List Text) → List Text → W → W → Type 0
  Passes scenarios [] w v = w ≡ v
  Passes scenarios (tier ∷ tiers) w v =
      (member tier known_tiers ≡ true)
      × (u : W) × Chain tier (scenarios tier) w u
      × Passes scenarios tiers u v

  run_scenarios-Chain :
      (tier : Text) (names : List Text) (w v : W) (rs : List Result)
      → run_scenarios run tier names w ≡ some (rs, v)
      → All IsGreen rs
      → Chain tier names w v
  unfolding run_scenarios
  run_scenarios-Chain tier [] w v rs e green = (some_pair e).1
  run_scenarios-Chain tier (name ∷ names) w v rs e green =
      let (one, ran, e1) = bind-some (run tier name w) _ e in
      let (rest, followed, e2) = bind-some (run_scenarios run tier names one.1) _ e1 in
      let is_rs : result tier name one.0 ∷ rest.0 ≡ rs = (some_pair e2).0 in
      let all_green = subst (All IsGreen) (sym is_rs) green in
      let ended : run_scenarios run tier names one.1 ≡ some (rest.0, v) =
        followed ∙ ap (λ u. some (rest.0, u)) (some_pair e2).1 in
      (
        one.1,
        ran ∙ ap (λ b. some (b, one.1)) all_green.0,
        run_scenarios-Chain tier names one.1 v rest.0 ended all_green.1,
      )

  run_tiers-Passes :
      (scenarios : Text → List Text) (tiers : List Text) (w v : W) (rs : List Result)
      → All (λ tier. member tier known_tiers ≡ true) tiers
      → run_tiers run scenarios tiers w ≡ some (rs, v)
      → All IsGreen rs
      → Passes scenarios tiers w v
  unfolding run_tiers
  run_tiers-Passes scenarios [] w v rs known e green = (some_pair e).1
  run_tiers-Passes scenarios (tier ∷ tiers) w v rs known e green =
      let (first, ran, e1) = bind-some (run_scenarios run tier (scenarios tier) w) _ e in
      let (rest, followed, e2) = bind-some (run_tiers run scenarios tiers first.1) _ e1 in
      let is_rs : first.0 ++ rest.0 ≡ rs = (some_pair e2).0 in
      let all_green = append-All IsGreen first.0 rest.0 (subst (All IsGreen) (sym is_rs) green) in
      let ended : run_tiers run scenarios tiers first.1 ≡ some (rest.0, v) =
        followed ∙ ap (λ u. some (rest.0, u)) (some_pair e2).1 in
      (
        known.0,
        first.1,
        run_scenarios-Chain tier (scenarios tier) w first.1 first.0 ran all_green.0,
        run_tiers-Passes scenarios tiers first.1 v rest.0 known.1 ended all_green.1,
      )

  two_or_zero : (w v : W) → ◌≡◌ {A = Option (ℕ × W)} (some (2, w)) (some (0, v)) → ⊥
  two_or_zero w v e = let bad = (some_pair e).0 in omega (arith, bad)

  ended-Passes :
      (scenarios : Text → List Text) (tiers : List Text) (w v : W)
      → All (λ tier. member tier known_tiers ≡ true) tiers
      → ended run (run_tiers run scenarios tiers w) ≡ some (0, v)
      → Passes scenarios tiers w v
  ended-Passes scenarios tiers w v known e =
      let (done, ran, e1) = bind-some (run_tiers run scenarios tiers w) _ e in
      run_tiers-Passes scenarios tiers w v done.0 known
        (ran ∙ ap (λ u. some (done.0, u)) (some_pair e1).1)
        (exit_code-IsGreen done.0 (some_pair e1).0)

  -- If `main` exits with 0, then every tier that was asked for is known, and from the state before
  -- the run to the one behind it every scenario that was discovered of them was executed, tier by
  -- tier and one behind the other, and passed.
  pub main-Passes :
      (rt : Runtime) (validator : Bool) (folders : Text → List Text) (tiers : Text)
      (only : Option Text) (w v : W)
      → main run rt validator folders tiers only w ≡ some (0, v)
      → Passes (λ tier. discover_scenarios folders tier only) (tiers_of rt tiers) w v
  unfolding main
  main-Passes rt validator folders tiers only w v e =
      elim (Bool-cases (all (λ t. member t known_tiers) (tiers_of rt tiers))) [
        | inr unknown ↦ absurd (two_or_zero w v (rw unknown at e))
        | inl known ↦ elim (Bool-cases validator) [
          | inr missing ↦ absurd (two_or_zero w v (rw (known, missing) at e))
          | inl found ↦
              ended-Passes (λ tier. discover_scenarios folders tier only) (tiers_of rt tiers) w v
                (all→All (λ t. member t known_tiers) (tiers_of rt tiers) known)
                (rw (known, found) at e)
        ]
      ]

  -- A scenario that was executed passed in some state of the run.
  pub Chain-member :
      (tier name : Text) (names : List Text) (w v : W)
      → member name names ≡ true
      → Chain tier names w v
      → (before : W) × (behind : W) × (run tier name before ≡ some (true, behind))
  Chain-member tier name [] w v e h = cc e
  Chain-member tier name (other ∷ names) w v e h = elim (Bool-cases (same name other)) [
    | inl here ↦ (
      w,
      h.0,
      subst (λ n. run tier n w ≡ some (true, h.0)) (sym ((same_iff name other).0 here)) h.1,
    )
    | inr later ↦ Chain-member tier name names h.0 v (rw later at e) h.2
  ]

  pub Passes-member :
      (scenarios : Text → List Text) (tier name : Text) (tiers : List Text) (w v : W)
      → member tier tiers ≡ true
      → member name (scenarios tier) ≡ true
      → Passes scenarios tiers w v
      → (before : W) × (behind : W) × (run tier name before ≡ some (true, behind))
  Passes-member scenarios tier name [] w v e found h = cc e
  Passes-member scenarios tier name (other ∷ tiers) w v e found h =
      elim (Bool-cases (same tier other)) [
        | inl here ↦
            let is_tier = sym ((same_iff tier other).0 here) in
            let chain = subst (λ t. Chain t (scenarios t) w h.1) is_tier h.2 in
            Chain-member tier name (scenarios tier) w h.1 found chain
        | inr later ↦ Passes-member scenarios tier name tiers h.1 v (rw later at e) found h.3
      ]
