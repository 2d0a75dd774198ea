-- ===== src/Startup/Pool.antt =====
-- `init_pool` of api/db.py: at which attempt it connects, and how long it sleeps.
use postgre_data_migration_a.Prelude.{
  ℕ, zero, suc, ◌+◌, ◌*◌, ◌≤◌, ◌<◌, Bool, true, false, ◌≡◌, refl, subst, inl, inr, ◌⊎◌, arith,
  Bool-cases,
}
use postgre_data_migration_a.Startup.{
  Ending, connected, unreachable, overflowed, never_tried, delay_of, overflows, connect_from,
  init_pool,
}

delay_bound : (base_delay attempt : ℕ) → delay_of base_delay attempt ≤ 10000
delay_bound base_delay attempt = omega arith

-- No attempt from `a` on, below `n`, is answered.
abbrev pub Silent : (ℕ → Bool) → ℕ → ℕ → Type 0
Silent answers a n = (k : ℕ) → a ≤ k → k < n → answers k ≡ false

-- How the attempts from `a` to `last` end.
abbrev pub Ends : (ℕ → Bool) → ℕ → ℕ → Ending → Type 0
Ends answers a last (connected n waited) =
    (answers n ≡ true) × Silent answers a n × (a ≤ n) × (n ≤ last) × (waited + 10000 ≤ n * 10000)
Ends answers a last (unreachable waited) = Silent answers a (suc last) × (waited ≤ last * 10000)
Ends answers a last (overflowed waited) =
    Silent answers a 1026 × (1025 ≤ last) × (waited ≤ last * 10000)
Ends answers a last never_tried = last ≡ 0

a_or_later : (a k : ℕ) → a ≤ k → (a ≡ k) ⊎ (a + 1 ≤ k)
a_or_later a k from = omega (arith, from)

Silent-more :
    (answers : ℕ → Bool) (a n : ℕ)
    → answers a ≡ false
    → Silent answers (a + 1) n
    → Silent answers a n
Silent-more answers a n here later k from below = elim (a_or_later a k from) [
  | inl e ↦ subst (λ m. answers m ≡ false) e here
  | inr past ↦ later k past below
]

Ends-more :
    (answers : ℕ → Bool) (a last : ℕ) (x : Ending)
    → answers a ≡ false
    → Ends answers (a + 1) last x
    → Ends answers a last x
Ends-more answers a last (connected n waited) here (at, silent, from, within, bound) =
    (at, Silent-more answers a n here silent, omega (arith, from), within, bound)
Ends-more answers a last (unreachable waited) here (silent, bound) =
    (Silent-more answers a (suc last) here silent, bound)
Ends-more answers a last (overflowed waited) here (silent, most, bound) =
    (Silent-more answers a 1026 here silent, most, bound)
Ends-more answers a last never_tried here e = e

overflows-last : (a : ℕ) → a ≤ 1025 → overflows a ≡ true → a ≡ 1025
overflows-last a before e = ground (arith, before, e)

overflows-before : (a : ℕ) → overflows a ≡ false → a + 1 ≤ 1025
overflows-before a e = ground (arith, e)

Silent-one : (answers : ℕ → Bool) (a : ℕ) → a ≡ 1025 → answers a ≡ false → Silent answers a 1026
Silent-one answers a e here k from below =
    let same_one : a ≡ k = omega (arith, e, from, below) in
    subst (λ m. answers m ≡ false) same_one here

connect_from-Ends :
    (answers : ℕ → Bool) (base_delay a left waited last : ℕ)
    → waited + 10000 ≤ a * 10000
    → a + left ≡ suc last
    → a ≤ 1025
    → Ends answers a last (connect_from answers base_delay a left waited)
unfolding connect_from
connect_from-Ends answers base_delay a zero waited last slept e before =
    (λ k from below. absurd (omega (arith, from, below, e)), omega (arith, slept, e))
connect_from-Ends answers base_delay a (suc left) waited last slept e before =
    elim (Bool-cases (answers a)) [
      | inl at ↦ rw at (
        at,
        λ k from below. absurd (omega (arith, from, below)),
        omega arith,
        omega (arith, e),
        slept,
      )
      | inr silent ↦ elim (Bool-cases (overflows a)) [
        | inl over ↦
            let at = overflows-last a before over in
            rw (silent, over)
              (Silent-one answers a at silent, omega (arith, at, e), omega (arith, slept, e))
        | inr fits ↦
            rw (silent, fits)
              (Ends-more answers a last _ silent (
                connect_from-Ends answers base_delay (a + 1) left (waited + delay_of base_delay a)
                  last (omega (arith, slept, delay_bound base_delay a)) (omega (arith, e))
                  (overflows-before a fits)))
      ]
    ]

-- `init_pool` with at least one attempt connects at the first attempt that the server answers, with
-- at most ten seconds of sleep for each attempt before it; if the server answers none, it ends with
-- the error of the last one, with at most ten seconds of sleep for each, or, behind 1025 attempts,
-- with the OverflowError of the delay.
pub init_pool-Ends :
    (answers : ℕ → Bool) (most base_delay : ℕ)
    → 1 ≤ most
    → Ends answers 1 most (init_pool answers most base_delay)
unfolding init_pool
init_pool-Ends answers zero base_delay some_try = refl
init_pool-Ends answers (suc n) base_delay some_try =
    connect_from-Ends answers base_delay 1 (suc n) 0 (suc n) (omega arith) (omega arith)
      (omega arith)
