-- ===== src/Tiers/Suite/Lines.antt =====
-- Tier S of evals/runner.py: the lines of the output that the total and the rate come from.
use postgre_data_migration_a.Prelude.{
  ℕ, Option, none, some, List, [], ◌∷◌, ◌≡◌, ◌⊎◌, refl, sym, ◌∙◌, inl, inr, Text, Option-cases,
}
use postgre_data_migration_a.Python.{Runtime}
use postgre_data_migration_a.Python.Lines.{splitlines}
use postgre_data_migration_a.Tiers.{int_of_digits}
use postgre_data_migration_a.Tiers.Suite.{
  Floats, summary_of, Summary, no_summary, with_rate, rate_of, next_summary, read_summary,
}

-- `P` holds of one element.
abbrev pub One {ℓ} : {A : Type ℓ} → (A → Type 0) → List A → Type 0
One P [] = ⊥
One P (x ∷ xs) = P x ⊎ One P xs

module _ (rt : Runtime) (floats : Floats) where
  -- The line is one of a summary, with that total; or with that rate.
  abbrev pub ShowsTotal : ℕ → Text → Type 0
  ShowsTotal n line =
      (total : Text) × (pct : Text) × (summary_of rt line ≡ some (total, pct))
      × (int_of_digits rt total ≡ some n)

  abbrev pub ShowsRate : floats.Rate → Text → Type 0
  ShowsRate rate line =
      (total : Text) × (pct : Text) × (summary_of rt line ≡ some (total, pct))
      × (rate_of rt floats pct ≡ some rate)

  with_rate-total :
      (o : Option floats.Rate) (s : Summary floats) → (with_rate rt floats o s).total ≡ s.total
  with_rate-total none s = refl
  with_rate-total (some rate) s = refl

  next_summary-total :
      (o : Option (Text × Text)) (s : Summary floats) (n : ℕ)
      → (next_summary rt floats o s).total ≡ some n
      → (s.total ≡ some n)
        ⊎ ((total : Text) × (pct : Text) × (o ≡ some (total, pct))
            × (int_of_digits rt total ≡ some n))
  next_summary-total none s n e = inl e
  next_summary-total (some (total, pct)) s n e = elim (Option-cases (int_of_digits rt total)) [
    | inl wrong ↦ inl (rw wrong at e)
    | inr (m, read) ↦
        let shown : (with_rate rt floats (rate_of rt floats pct)
              (record { total = some m; rate = s.rate })).total
            ≡ some n =
          rw read at e in
        inr (
          total,
          pct,
          refl,
          read
              ∙ sym (
                  with_rate-total (rate_of rt floats pct)
                    (record { total = some m; rate = s.rate }))
              ∙ shown,
        )
  ]

  next_summary-rate :
      (o : Option (Text × Text)) (s : Summary floats) (rate : floats.Rate)
      → (next_summary rt floats o s).rate ≡ some rate
      → (s.rate ≡ some rate)
        ⊎ ((total : Text) × (pct : Text) × (o ≡ some (total, pct))
            × (rate_of rt floats pct ≡ some rate))
  next_summary-rate none s rate e = inl e
  next_summary-rate (some (total, pct)) s rate e = elim (Option-cases (int_of_digits rt total)) [
    | inl wrong ↦ inl (rw wrong at e)
    | inr (m, read) ↦
        let shown : (with_rate rt floats (rate_of rt floats pct)
              (record { total = some m; rate = s.rate })).rate
            ≡ some rate =
          rw read at e in
        elim (Option-cases (rate_of rt floats pct)) [
          | inl wrong ↦ inl (rw wrong at shown)
          | inr (q, got) ↦
              let same_rate : some q ≡ some rate = rw got at shown in
              inr (total, pct, refl, got ∙ same_rate)
        ]
  ]

  read_summary-total :
      (lines : List Text) (s : Summary floats) (n : ℕ)
      → (read_summary rt floats lines s).total ≡ some n
      → (s.total ≡ some n) ⊎ One (ShowsTotal n) lines
  unfolding read_summary
  read_summary-total [] s n e = inl e
  read_summary-total (line ∷ lines) s n e =
      elim (read_summary-total lines (next_summary rt floats (summary_of rt line) s) n e) [
        | inr later ↦ inr (inr later)
        | inl now ↦ elim (next_summary-total (summary_of rt line) s n now) [
          | inl before ↦ inl before
          | inr here ↦ inr (inl here)
        ]
      ]

  read_summary-rate :
      (lines : List Text) (s : Summary floats) (rate : floats.Rate)
      → (read_summary rt floats lines s).rate ≡ some rate
      → (s.rate ≡ some rate) ⊎ One (ShowsRate rate) lines
  unfolding read_summary
  read_summary-rate [] s rate e = inl e
  read_summary-rate (line ∷ lines) s rate e =
      elim (read_summary-rate lines (next_summary rt floats (summary_of rt line) s) rate e) [
        | inr later ↦ inr (inr later)
        | inl now ↦ elim (next_summary-rate (summary_of rt line) s rate now) [
          | inl before ↦ inl before
          | inr here ↦ inr (inl here)
        ]
      ]

  pub total-shown :
      (stdout : Text) (n : ℕ)
      → (read_summary rt floats (splitlines stdout) (no_summary rt floats)).total ≡ some n
      → One (ShowsTotal n) (splitlines stdout)
  total-shown stdout n e =
      elim (read_summary-total (splitlines stdout) (no_summary rt floats) n e) [
        | inl never ↦ absurd (cc never)
        | inr shown ↦ shown
      ]

  pub rate-shown :
      (stdout : Text) (rate : floats.Rate)
      → (read_summary rt floats (splitlines stdout) (no_summary rt floats)).rate ≡ some rate
      → One (ShowsRate rate) (splitlines stdout)
  rate-shown stdout rate e =
      elim (read_summary-rate (splitlines stdout) (no_summary rt floats) rate e) [
        | inl never ↦ absurd (cc never)
        | inr shown ↦ shown
      ]
