-- ===== src/GapReport/Totals.antt =====
-- evals/gap_report.py: the counts of the report.
use postgre_data_migration_a.Prelude.{
  ℕ, suc, ◌+◌, Bool, true, false, List, [], ◌∷◌, ◌≡◌, refl, sym, ap, ◌∙◌, inl, inr, arith, length,
  Text, Bool-cases, if◌then◌else◌,
}
use postgre_data_migration_a.GapReport.Types.{
  Outcome, Br, Status, verified, partly, regression, skipped, unverified, out_of_band, out_of_scope,
  Verdict,
}
use postgre_data_migration_a.GapReport.Catalogue.{br_catalogue, functional_brs, other_brs}
use postgre_data_migration_a.GapReport.Markdown.{
  is_status, statuses, no_counts, add_one, count_of, rows_of, counts_from, with_status, Summary,
  summary_rows, summary_counts,
}

-- The statuses of the counts, in order.
abbrev keys : List (Status × ℕ) → List Status
keys [] = []
keys (c ∷ cs) = c.0 ∷ keys cs

abbrev pub total : List (Status × ℕ) → ℕ
total [] = 0
total (c ∷ cs) = c.1 + total cs

keys-add_one : (s : Status) (cs : List (Status × ℕ)) → keys (add_one s cs) ≡ keys cs
keys-add_one s [] = refl
keys-add_one s (c ∷ cs) = elim (Bool-cases (is_status c.0 s)) [
  | inl here ↦ rw here refl
  | inr passed ↦ rw passed (ap (λ l. c.0 ∷ l) (keys-add_one s cs))
]

abbrev has_key : Status → List Status → Bool
has_key s [] = false
has_key s (k ∷ ks) = let rest = has_key s ks in if is_status k s then true else rest

all_statuses : (s : Status) → has_key s statuses ≡ true
all_statuses verified = refl
all_statuses partly = refl
all_statuses regression = refl
all_statuses skipped = refl
all_statuses unverified = refl
all_statuses out_of_band = refl
all_statuses out_of_scope = refl

total-add_one :
    (s : Status) (cs : List (Status × ℕ))
    → has_key s (keys cs) ≡ true
    → total (add_one s cs) ≡ suc (total cs)
total-add_one s [] e = absurd (ground (arith, e))
total-add_one s (c ∷ cs) e = elim (Bool-cases (is_status c.0 s)) [
  | inl here ↦ rw here (omega arith)
  | inr passed ↦ let rest = total-add_one s cs (rw passed at e) in rw passed (omega (arith, rest))
]

is_status-eq : (a b : Status) → is_status a b ≡ true → a ≡ b
is_status-eq verified verified e = refl
is_status-eq partly partly e = refl
is_status-eq regression regression e = refl
is_status-eq skipped skipped e = refl
is_status-eq unverified unverified e = refl
is_status-eq out_of_band out_of_band e = refl
is_status-eq out_of_scope out_of_scope e = refl
is_status-eq _ _ e = absurd (ground (arith, e))

-- `1 if … else 0`.
abbrev one_if : Bool → ℕ
one_if true = 1
one_if false = 0

bumped : (b : Bool) (m n : ℕ) → (if b then m + 1 else n) ≡ one_if b + (if b then m else n)
bumped true m n = omega arith
bumped false m n = omega arith

is_status-sym : (a b : Status) → is_status a b ≡ is_status b a
is_status-sym a b = elim (Bool-cases (is_status a b)) [
  | inl e ↦
      let same_ab = is_status-eq a b e in
      ap (is_status a) (sym same_ab) ∙ ap (λ x. is_status x a) same_ab
  | inr e ↦ elim (Bool-cases (is_status b a)) [
    | inr f ↦ e ∙ sym f
    | inl f ↦
        let same_ba = is_status-eq b a f in
        ap (is_status a) same_ba ∙ ap (λ x. is_status x a) (sym same_ba)
  ]
]

count_of-add_one :
    (t s : Status) (cs : List (Status × ℕ))
    → has_key s (keys cs) ≡ true
    → count_of t (add_one s cs) ≡ one_if (is_status s t) + count_of t cs
count_of-add_one t s [] e = absurd (ground (arith, e))
count_of-add_one t s (c ∷ cs) e = elim (Bool-cases (is_status c.0 s)) [
  | inl here ↦
      let at : is_status c.0 t ≡ is_status s t =
        ap (λ x. is_status x t) (is_status-eq c.0 s here) in
      rw (here, at) (bumped (is_status s t) c.1 (count_of t cs))
  | inr passed ↦
      let later : has_key s (keys cs) ≡ true = rw passed at e in
      elim (Bool-cases (is_status c.0 t)) [
        | inr other ↦ rw (passed, other) (count_of-add_one t s cs later)
        | inl found ↦
            let differs : is_status s t ≡ false =
              is_status-sym s t
              ∙ ap (λ x. is_status x s) (sym (is_status-eq c.0 t found))
              ∙ passed in
            rw (passed, found, differs) (omega arith)
      ]
]

length-with_status :
    (t : Status) (row : Br × Verdict) (rows : List (Br × Verdict))
    → length (with_status t (row ∷ rows))
      ≡ one_if (is_status row.1.status t) + length (with_status t rows)
unfolding with_status
length-with_status t row rows = elim (Bool-cases (is_status row.1.status t)) [
  | inl here ↦ rw here (omega arith)
  | inr passed ↦ rw passed (omega arith)
]

-- Each status has a key.
abbrev AllKeys : List (Status × ℕ) → Type 0
AllKeys counts = keys counts ≡ statuses

module _ (counts : List (Status × ℕ)) (s : Status) (ks : AllKeys counts) where
  has_own_key : has_key s (keys counts) ≡ true
  has_own_key = ap (has_key s) ks ∙ all_statuses s

  add_one-AllKeys : AllKeys (add_one s counts)
  add_one-AllKeys = keys-add_one s counts ∙ ks

total-counts_from :
    (counts : List (Status × ℕ)) (rows : List (Br × Verdict))
    → AllKeys counts
    → total (counts_from counts rows) ≡ length rows + total counts
unfolding counts_from
total-counts_from counts [] ks = omega arith
total-counts_from counts (row ∷ rows) ks =
    let s = row.1.status in
    let rest = total-counts_from (add_one s counts) rows (add_one-AllKeys counts s ks) in
    let step = total-add_one s counts (has_own_key counts s ks) in omega (arith, rest, step)

count_of-counts_from :
    (t : Status) (counts : List (Status × ℕ)) (rows : List (Br × Verdict))
    → AllKeys counts
    → count_of t (counts_from counts rows) ≡ length (with_status t rows) + count_of t counts
unfolding counts_from with_status
count_of-counts_from t counts [] ks = omega arith
count_of-counts_from t counts (row ∷ rows) ks =
    let s = row.1.status in
    let rest = count_of-counts_from t (add_one s counts) rows (add_one-AllKeys counts s ks) in
    let step = count_of-add_one t s counts (has_own_key counts s ks) in
    let here = length-with_status t row rows in omega (arith, rest, step, here)

length-rows_of :
    (by_tier : List (Text × List (Text × Outcome))) (brs : List Br)
    → length (rows_of by_tier brs) ≡ length brs
unfolding rows_of
length-rows_of by_tier [] = refl
length-rows_of by_tier (br ∷ brs) = ap suc (length-rows_of by_tier brs)

catalogue_size : length br_catalogue ≡ 22
unfolding br_catalogue functional_brs other_brs
catalogue_size = refl

count_of-no_counts : (t : Status) → count_of t (no_counts statuses) ≡ 0
count_of-no_counts verified = refl
count_of-no_counts partly = refl
count_of-no_counts regression = refl
count_of-no_counts skipped = refl
count_of-no_counts unverified = refl
count_of-no_counts out_of_band = refl
count_of-no_counts out_of_scope = refl

-- In the report of every run the counts of the summary table add up to the 22 requirements, and the
-- count of each status is the number of requirements that the report gives that status.
pub summary_counts-with_status :
    (summary : Summary)
    → (total (summary_counts summary) ≡ 22)
      × ((t : Status)
          → count_of t (summary_counts summary) ≡ length (with_status t (summary_rows summary)))
summary_counts-with_status summary =
    let rows = summary_rows summary in
    let sum = total-counts_from (no_counts statuses) rows refl in
    let size : length rows ≡ 22 = length-rows_of _ br_catalogue ∙ catalogue_size in
    (
      omega (arith, sum, size),
      λ t.
          let counted = count_of-counts_from t (no_counts statuses) rows refl in
          let empty = count_of-no_counts t in omega (arith, counted, empty),
    )
