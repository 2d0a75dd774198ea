-- ===== src/Tiers/Validation/Meets.antt =====
-- Tier P of evals/runner.py: the scenarios that pass.
use postgre_data_migration_a.Prelude.{
  ℕ, Bool, true, Option, none, some, List, [], ◌∷◌, ◌≡◌, ◌⊎◌, ◌↔◌, refl, sym, ap, ◌∙◌, subst, arith,
  any, All, Text, ==_iff,
}
use postgre_data_migration_a.Python.Search.{contains, Holds, contains_iff}
use postgre_data_migration_a.Signatures.Equal.{same_texts_iff}
use postgre_data_migration_a.Tiers.{
  Code, Report, refuse, same_code, same_code_iff, unless, unless-nil, append-nil_iff, is_nil_iff,
}
use postgre_data_migration_a.Tiers.Validation.{
  Rows, JsonKey, absent, null, given, Expected, Problem, no_expected_file, stdout_missing,
  stderr_missing, reason_missing, wrong_exit_code, Setup, Run, Prepared, refused, prepared, raised,
  Actual, setup_of, actual_of, same_rows, reasons_of, check_code, check_each, check_rows,
  check_count, assertions, report_of, run_setup, run_tier_p_scenario,
}

-- If a value is expected, `P` holds of it.
abbrev pub Wanted {ℓ} : {A : Type ℓ} → (A → Type 0) → Option A → Type 0
Wanted P none = Unit
Wanted P (some a) = P a

-- The code is the one that is expected, if the file has the key; `null` is no code.
abbrev pub CodeWanted : Code → JsonKey Code → Type 0
CodeWanted code absent = Unit
CodeWanted code null = ⊥
CodeWanted code (given expected) = expected ≡ code

-- One of the texts holds the needle.
abbrev pub OneHolds : Text → List Text → Type 0
OneHolds needle [] = ⊥
OneHolds needle (t ∷ ts) = Holds needle t ⊎ OneHolds needle ts

-- The process ended as expected: with the code, with the texts in its outputs, with the valid rows,
-- with the number of skipped rows, and each reason is in the last cell of a skipped row.
pub record Meets (exp : Expected) (actual : Actual) : Type 0 where
  pub code : CodeWanted actual.process.code exp.exit_code
  pub stdout : All (λ needle. Holds needle actual.process.stdout) exp.stdout_contains
  pub stderr : All (λ needle. Holds needle actual.process.stderr) exp.stderr_contains
  pub rows : Wanted (λ rows. actual.valid_csv_rows ≡ some rows) exp.valid_csv_rows
  pub count : Wanted (λ n. actual.skip_csv_row_count ≡ some n) exp.skip_csv_row_count
  pub reasons :
      All (λ needle. OneHolds needle (reasons_of actual.skip_csv_rows)) exp.skip_reasons_contain

any-OneHolds :
    (needle : Text) (ts : List Text) → (any (contains needle) ts ≡ true) ↔ OneHolds needle ts
any-OneHolds needle [] = ground arith
any-OneHolds needle (t ∷ ts) = ground (arith, contains_iff needle t, any-OneHolds needle ts)

check_code-nil :
    (expected : JsonKey Code) (code : Code)
    → (check_code expected code ≡ []) ↔ CodeWanted code expected
check_code-nil absent code = ground arith
check_code-nil null code = ground arith
check_code-nil (given c) code =
    ground
      (arith, unless-nil (same_code c code) (wrong_exit_code (some c) code), same_code_iff c code)

check_each-nil :
    (found : Text → Bool) (problem : Text → Problem) (P : Text → Type 0)
    → ((needle : Text) → (found needle ≡ true) ↔ P needle)
    → (needles : List Text) → (check_each found problem needles ≡ []) ↔ All P needles
unfolding check_each
check_each-nil found problem P h [] = (λ e. tt, λ t. refl)
check_each-nil found problem P h (n ∷ ns) = ground (
  arith,
  append-nil_iff (unless (found n) (problem n)) (check_each found problem ns),
  unless-nil (found n) (problem n),
  h n,
  check_each-nil found problem P h ns,
)

same_rows_iff : (rows others : Rows) → (same_rows rows others ≡ true) ↔ (rows ≡ others)
same_rows_iff [] [] = ground arith
same_rows_iff [] (q ∷ others) = ground arith
same_rows_iff (r ∷ rows) [] = ground arith
same_rows_iff (r ∷ rows) (q ∷ others) =
    ground (arith, same_texts_iff r q, same_rows_iff rows others)

check_rows-nil :
    (expected actual : Option Rows)
    → (check_rows expected actual ≡ []) ↔ Wanted (λ rows. actual ≡ some rows) expected
check_rows-nil none actual = ground arith
check_rows-nil (some rows) none = ground arith
check_rows-nil (some rows) (some others) = ground (arith, same_rows_iff others rows)

check_count-nil :
    (expected actual : Option ℕ)
    → (check_count expected actual ≡ []) ↔ Wanted (λ n. actual ≡ some n) expected
check_count-nil none actual = ground arith
check_count-nil (some n) none = ground arith
check_count-nil (some n) (some m) = ground (arith, ==_iff m n)

assertions-Meets :
    (exp : Expected) (actual : Actual) → (assertions exp actual ≡ []) ↔ Meets exp actual
unfolding assertions
assertions-Meets exp actual =
    let reasons = reasons_of actual.skip_csv_rows in
    let code = check_code-nil exp.exit_code actual.process.code in
    let stdout =
      check_each-nil (λ needle. contains needle actual.process.stdout) stdout_missing
        (λ needle. Holds needle actual.process.stdout)
        (λ needle. contains_iff needle actual.process.stdout) exp.stdout_contains in
    let stderr =
      check_each-nil (λ needle. contains needle actual.process.stderr) stderr_missing
        (λ needle. Holds needle actual.process.stderr)
        (λ needle. contains_iff needle actual.process.stderr) exp.stderr_contains in
    let rows = check_rows-nil exp.valid_csv_rows actual.valid_csv_rows in
    let count = check_count-nil exp.skip_csv_row_count actual.skip_csv_row_count in
    let texts =
      check_each-nil (λ needle. any (contains needle) reasons)
        (λ needle. reason_missing needle reasons) (λ needle. OneHolds needle reasons)
        (λ needle. any-OneHolds needle reasons) exp.skip_reasons_contain in
    (
      λ e.
          let one = (append-nil_iff (check_code exp.exit_code actual.process.code) _).0 e in
          let two = (append-nil_iff (check_each _ stdout_missing exp.stdout_contains) _).0 one.1 in
          let three =
            (append-nil_iff (check_each _ stderr_missing exp.stderr_contains) _).0 two.1 in
          let four =
            (append-nil_iff (check_rows exp.valid_csv_rows actual.valid_csv_rows) _).0 three.1 in
          let five =
            (append-nil_iff (check_count exp.skip_csv_row_count actual.skip_csv_row_count) _).0
              four.1 in
          record {
            code = code.0 one.0;
            stdout = stdout.0 two.0;
            stderr = stderr.0 three.0;
            rows = rows.0 four.0;
            count = count.0 five.0;
            reasons = texts.0 five.1;
          },
      λ m.
          rw (code.1 m.code, stdout.1 m.stdout, stderr.1 m.stderr, rows.1 m.rows, count.1 m.count)
            (texts.1 m.reasons),
    )

report_of-Meets :
    (exp : Expected) (o : Option Run)
    → (report_of exp o).passed ≡ true
    → (run : Run) × (o ≡ some run) × Meets exp (actual_of exp run)
report_of-Meets exp none e = cc e
report_of-Meets exp (some run) e =
    (run, refl, (assertions-Meets exp (actual_of exp run)).0 ((is_nil_iff _).0 e))

run_setup-Meets :
    (launch : Setup → Option Run) (exp : Expected) (s : Prepared) (report : Report Problem)
    → run_setup launch exp s ≡ some report
    → report.passed ≡ true
    → (setup : Setup) × (run : Run) × (s ≡ prepared setup)
      × (launch setup ≡ some run)
      × Meets exp (actual_of exp run)
run_setup-Meets launch exp (refused problem) report made e =
    let is_report : refuse problem ≡ report = cc made in cc (ap (λ r. r.passed) is_report ∙ e)
run_setup-Meets launch exp raised report made e = cc made
run_setup-Meets launch exp (prepared setup) report made e =
    let is_report : report_of exp (launch setup) ≡ report = cc made in
    let ended = report_of-Meets exp (launch setup) (ap (λ r. r.passed) is_report ∙ e) in
    (setup, ended.0, refl, ended.1, ended.2)

-- What it is for a scenario to be run and to meet its expectations.
abbrev pub Ran :
    (Setup → Option Run) → Option Expected → Option (List ℕ) → Expected → Setup → Run → Type 0
Ran launch expected input exp setup run =
    (expected ≡ some exp)
    × (setup_of exp input ≡ prepared setup)
    × (launch setup ≡ some run)
    × Meets exp (actual_of exp run)

-- The scenario raises no exception, and passes.
abbrev pub PassesP : (Setup → Option Run) → Option Expected → Option (List ℕ) → Type 0
PassesP launch expected input =
    (report : Report Problem) × (run_tier_p_scenario launch expected input ≡ some report)
    × (report.passed ≡ true)

passed-Ran :
    (launch : Setup → Option Run) (expected : Option Expected) (input : Option (List ℕ))
    → PassesP launch expected input
    → (exp : Expected) × (setup : Setup) × (run : Run) × Ran launch expected input exp setup run
unfolding run_tier_p_scenario
passed-Ran launch none input (report, made, e) =
    let is_report : refuse no_expected_file ≡ report = cc made in
    cc (ap (λ r. r.passed) is_report ∙ e)
passed-Ran launch (some exp) input (report, made, e) =
    let ended = run_setup-Meets launch exp (setup_of exp input) report made e in
    (exp, ended.0, ended.1, (refl, ended.2, ended.3, ended.4))

Ran-passed :
    (launch : Setup → Option Run) (input : Option (List ℕ)) (exp : Expected) (setup : Setup)
    (run : Run)
    → Ran launch (some exp) input exp setup run
    → PassesP launch (some exp) input
unfolding run_tier_p_scenario
Ran-passed launch input exp setup run (same_exp, prepares, launched, meets) = (
  report_of exp (some run),
  rw (prepares, launched) refl,
  (is_nil_iff (assertions exp (actual_of exp run))).1
      ((assertions-Meets exp (actual_of exp run)).1 meets),
)

-- A scenario of tier P raises no exception and passes exactly if it has an expected file, its action
-- prepares the environment of the validator, the validator starts in it, and the finished run meets
-- the expectations.
pub run_tier_p_scenario-Meets :
    (launch : Setup → Option Run) (expected : Option Expected) (input : Option (List ℕ))
    → PassesP launch expected input
      ↔ ((exp : Expected) × (setup : Setup) × (run : Run) × Ran launch expected input exp setup run)
run_tier_p_scenario-Meets launch expected input = (
  passed-Ran launch expected input,
  λ h.
      subst (λ x. PassesP launch x input) (sym h.3.0)
        (Ran-passed launch input h.0 h.1 h.2 (refl, h.3.1, h.3.2, h.3.3)),
)
