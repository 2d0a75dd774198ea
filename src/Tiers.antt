-- ===== src/Tiers.antt =====
-- evals/runner.py: what the scenarios of the tiers share. A scenario ends with a list of problems,
-- one for each `errors.append`; the problems are values that hold what the text shows.
pub mod Validation
pub mod Twice
pub mod Parity
pub mod Suite
pub mod Engine
pub mod Together
use postgre_data_migration_a.Prelude.{
  ℕ, Bool, true, false, Option, none, some, List, [], ◌∷◌, ◌++◌, ◌≡◌, ◌↔◌, refl, ap, ◌∙◌, arith,
  Text, ◌+◌, ◌*◌, all, length, leb, ◌==◌, if◌then◌else◌, ==_iff,
}
use postgre_data_migration_a.Python.{Runtime}

-- `returncode`: the exit code, or minus the number of the signal.
pub data Code : Type 0 where
  exited : ℕ → Code
  killed : ℕ → Code

abbrev pub same_code : Code → Code → Bool
same_code (exited m) (exited n) = m == n
same_code (killed m) (killed n) = m == n
same_code _ _ = false

abbrev pub success : Code
success = exited 0

-- `CompletedProcess`.
pub record Process : Type 0 where
  pub code : Code
  pub stdout : Text
  pub stderr : Text

-- What a scenario fills in of its `ScenarioResult`.
pub record Report {ℓ} (E : Type ℓ) : Type ℓ where
  pub errors : List E
  pub passed : Bool

module _ {ℓ} {E : Type ℓ} where
  abbrev pub is_nil : List E → Bool
  is_nil [] = true
  is_nil (e ∷ es) = false

  -- `result.errors.append(…)` and `return result`.
  abbrev pub refuse : E → Report E
  refuse e = record { errors = e ∷ []; passed = false }

  -- `result.errors = errors` and `result.passed = not errors`.
  abbrev pub conclude : List E → Report E
  conclude errors = record { errors = errors; passed = is_nil errors }

  -- `if not test: errors.append(e)`.
  abbrev pub unless : Bool → E → List E
  unless test e = if test then [] else e ∷ []

  pub unless-nil : (test : Bool) (e : E) → (unless test e ≡ []) ↔ (test ≡ true)
  unless-nil true e = ground arith
  unless-nil false e = ground arith

  pub append-nil_iff : (xs ys : List E) → (xs ++ ys ≡ []) ↔ ((xs ≡ []) × (ys ≡ []))
  append-nil_iff [] ys = ground arith
  append-nil_iff (x ∷ xs) ys = ground arith

  pub is_nil_iff : (xs : List E) → (is_nil xs ≡ true) ↔ (xs ≡ [])
  is_nil_iff [] = ground arith
  is_nil_iff (x ∷ xs) = ground arith

pub same_code_iff : (a b : Code) → (same_code a b ≡ true) ↔ (a ≡ b)
same_code_iff (exited m) (exited n) = ground (arith, ==_iff m n)
same_code_iff (exited m) (killed n) = ground arith
same_code_iff (killed m) (exited n) = ground arith
same_code_iff (killed m) (killed n) = ground (arith, ==_iff m n)

-- `psql` on the machine, `W` being the state of its servers. `exists` tells whether a file of the
-- repository does. `run_file` runs a script; `count` and `columns` are the two queries; in each
-- case `none` is the TimeoutExpired that nothing catches.
pub record Psql (W : Type 0) : Type 0 where
  pub connects : W → Bool
  pub exists : Text → Bool
  pub run_file : Text → W → Option (Process × W)
  pub run_tests : W → Option (Process × W)
  pub count : Text → W → Option Process
  pub columns : Text → Text → W → Option Process

infixl 10 ◌>>=◌
abbrev pub ◌>>=◌ {ℓ κ} : {A : Type ℓ} → {B : Type κ} → Option A → (A → Option B) → Option B
none >>= f = none
some a >>= f = f a

pub bind-some {ℓ κ} :
    {A : Type ℓ} {B : Type κ} (o : Option A) (f : A → Option B) {b : B}
    → (o >>= f) ≡ some b
    → (a : A) × (o ≡ some a) × (f a ≡ some b)
bind-some none f e = cc e
bind-some (some a) f e = (a, refl, e)

pub some_inj {ℓ} : {A : Type ℓ} {a b : A} → some a ≡ some b → a ≡ b
some_inj e = cc e

-- What comes back of a run is equal part by part.
pub some_pair {ℓ κ} :
    {A : Type ℓ} {B : Type κ} {x y : A × B} → some x ≡ some y → (x.0 ≡ y.0) × (x.1 ≡ y.1)
some_pair e = let q = some_inj e in (ap (λ z. z.0) q, ap (λ z. z.1) q)

-- A report with a problem has not passed.
pub refused {ℓ κ} :
    {E : Type ℓ} {W : Type κ} (e : E) (w v : W) (report : Report E)
    → ◌≡◌ {A = Option (Report E × W)} (some (refuse e, w)) (some (report, v))
    → report.passed ≡ true
    → ⊥
refused problem w v report e passed =
    let same_report : refuse problem ≡ report = (some_pair e).0 in
    let bad : false ≡ true = ap (λ r. r.passed) same_report ∙ passed in cc bad

-- `s.isdigit()`.
abbrev pub is_digits : Runtime → Text → Bool
is_digits rt [] = false
is_digits rt (c ∷ s) = all rt.is_digit (c ∷ s)

abbrev pub number_from : Runtime → ℕ → Text → Option ℕ
number_from rt acc [] = some acc
number_from rt acc (c ∷ s) = elim (rt.decimal c) [
  | none ↦ none
  | some d ↦ number_from rt (acc * 10 + d) s
]

-- `int(s)` where `s.isdigit()`; `none` is the ValueError of a digit that is not decimal, or of too
-- many digits.
unfoldable pub int_of_digits : Runtime → Text → Option ℕ
int_of_digits rt s = if leb (length s) rt.int_limit then number_from rt 0 s else none

-- `exp.get(key) != code`, negated.
abbrev pub is_code : Option Code → Code → Bool
is_code none code = false
is_code (some expected) code = same_code expected code

pub is_code_iff :
    (expected : Option Code) (code : Code) → (is_code expected code ≡ true) ↔ (expected ≡ some code)
is_code_iff none code = ground arith
is_code_iff (some c) code = ground (arith, same_code_iff c code)
