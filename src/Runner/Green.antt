-- ===== src/Runner/Green.antt =====
-- evals/runner.py and evals/gap_report.py: a run that ends well, and its report.
use postgre_data_migration_a.Prelude.{
  ℕ, ◌+◌, true, ◌||◌, List, [], ◌∷◌, ◌≡◌, ◌≢◌, refl, sym, subst, inl, inr, arith, Text, All,
  Bool-cases, if◌then◌else◌,
}
use postgre_data_migration_a.GapReport.Types.{Br, regression}
use postgre_data_migration_a.GapReport.{in_scope, compute_status, outcomes_by_tier}
use postgre_data_migration_a.GapReport.Regressions.{
  Results, some_covering, compute_status-expected_status,
}
use postgre_data_migration_a.Runner.{
  Result, Totals, no_totals, count_results, code_of, exit_code, scenarios_of,
}
use postgre_data_migration_a.Runner.Calm.{
  AllFine, IsGreen, outcomes_from-AllFine, some_covering-fail, IsCalm, expected_status-IsCalm,
  uncovered-IsCalm,
}

-- How many results are failures.
abbrev pub fails : List Result → ℕ
fails [] = 0
fails (r ∷ rs) = let rest = fails rs in if r.skipped || r.passed then rest else rest + 1

one_more : (x f n : ℕ) → x ≡ (f + 1) + n → x ≡ f + (n + 1)
one_more x f n e = omega (arith, e)

exit_zero : (n : ℕ) → code_of n ≡ 0 → n ≡ 0
exit_zero n e = ground (arith, e)

no_fails : (n f : ℕ) → n ≡ 0 + f → n ≡ 0 → f ≡ 0
no_fails n f e z = omega (arith, e, z)

count_results-fails :
    (rs : List Result) (t : Totals) → (count_results rs t).failed ≡ t.failed + fails rs
unfolding count_results
count_results-fails [] t = omega arith
count_results-fails (r ∷ rs) t = elim (Bool-cases r.skipped) [
  | inl left_out ↦ rw left_out (count_results-fails rs _)
  | inr ran ↦ elim (Bool-cases r.passed) [
    | inl good ↦ rw (ran, good) (count_results-fails rs _)
    | inr bad ↦
        let rest =
          count_results-fails rs (record t { total = t.total + 1; failed = t.failed + 1 }) in
        rw (ran, bad) (one_more _ t.failed (fails rs) rest)
  ]
]

fails-IsGreen : (rs : List Result) → fails rs ≡ 0 → All IsGreen rs
fails-IsGreen [] e = tt
fails-IsGreen (r ∷ rs) e = elim (Bool-cases (r.skipped || r.passed)) [
  | inl green ↦ (green, fails-IsGreen rs (rw green at e))
  | inr red ↦ let bad : fails rs + 1 ≡ 0 = rw red at e in absurd (omega (arith, bad))
]

pub exit_code-IsGreen : (rs : List Result) → exit_code rs ≡ 0 → All IsGreen rs
unfolding exit_code
exit_code-IsGreen rs e =
    let count = count_results-fails rs no_totals in
    let none_failed = exit_zero (count_results rs no_totals).failed e in
    fails-IsGreen rs (no_fails _ (fails rs) count none_failed)

covered-IsCalm :
    (br : Br) (by_tier : Results) (covering : List (Text × List Text))
    → AllFine by_tier
    → in_scope br.baseline ≡ true
    → br.covering_evals ≡ covering
    → IsCalm ((compute_status br by_tier).status)
unfolding compute_status
covered-IsCalm br by_tier [] fine scoped covered = rw (scoped, covered) (uncovered-IsCalm br)
covered-IsCalm br by_tier (c ∷ covering) fine scoped covered =
    subst IsCalm (sym (compute_status-expected_status br by_tier c covering scoped covered)) (
      expected_status-IsCalm br (λ o. some_covering o by_tier br.covering_evals)
        (some_covering-fail by_tier br.covering_evals fine))

compute_status-IsCalm :
    (br : Br) (by_tier : Results) → AllFine by_tier → IsCalm ((compute_status br by_tier).status)
unfolding compute_status
compute_status-IsCalm br by_tier fine = elim (Bool-cases (in_scope br.baseline)) [
  | inl scoped ↦ covered-IsCalm br by_tier br.covering_evals fine scoped refl
  | inr unscoped ↦ rw unscoped (λ e. cc e)
]

-- If a run of the evaluations exits with 0, the gap report of its summary calls no requirement a
-- regression.
pub exit_code-regression :
    (rs : List Result) (br : Br)
    → exit_code rs ≡ 0
    → (compute_status br (outcomes_by_tier (scenarios_of rs))).status ≢ regression
exit_code-regression rs br e =
    compute_status-IsCalm br (outcomes_by_tier (scenarios_of rs))
      (outcomes_from-AllFine rs [] (exit_code-IsGreen rs e) tt)
