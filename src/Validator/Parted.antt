-- ===== src/Validator/Parted.antt =====
-- build/csv/validator.py: where each row goes, and what is written.
use postgre_data_migration_a.Prelude.{
  ℕ, suc, ◌+◌, Bool, true, false, ◌&&◌, not, List, [], ◌∷◌, ◌++◌, append_assoc, append-nil, ◌≡◌,
  refl, sym, ap, ◌∙◌, subst, inl, inr, ◌⊎◌, arith, map, any, length, length-append, Text, codes,
  ◌==◌, ==_iff, All, All-append, Bool-cases, if◌then◌else◌,
}
use postgre_data_migration_a.Python.{strip}
use postgre_data_migration_a.Validator.{
  has_bad_bytes, clean, Files, skip_row, keep_row, is_filled, sort_row, sort_rows, empty_files,
  with_headers, validate_file, blank_reason, bytes_reason, mismatch_reason, validate_rows,
}
use postgre_data_migration_a.Validator.Encodable.{
  Encodable, row-safe, bytes_reason-safe, mismatch_reason-safe, any-append,
}

-- A row for the valid file: some cell is not blank, every cell can be encoded, and there is one for
-- each column.
abbrev pub is_valid : ℕ → List Text → Bool
is_valid ncols row = any is_filled row && (not (any has_bad_bytes row) && length row == ncols)

abbrev pub valid_of : ℕ → List (List Text) → List (List Text)
valid_of ncols [] = []
valid_of ncols (row ∷ rows) =
    let rest = valid_of ncols rows in if is_valid ncols row then row ∷ rest else rest

-- Why the row `n`, which is not for the valid file, is skipped.
abbrev pub why_skipped : ℕ → ℕ → List Text → Text
why_skipped ncols n row =
    if not (any is_filled row)
    then blank_reason
    else if any has_bad_bytes row
    then bytes_reason n
    else mismatch_reason ncols (length row)

-- The rows for the skip file, the first of the rows being the row `n`: the cells, with a question
-- mark for each bad byte, and the reason behind them.
abbrev pub skips_of : ℕ → ℕ → List (List Text) → List (List Text)
skips_of ncols n [] = []
skips_of ncols n (row ∷ rows) =
    let rest = skips_of ncols (n + 1) rows in
    if is_valid ncols row then rest else (map clean row ++ (why_skipped ncols n row ∷ [])) ∷ rest

-- What the loop adds to the files for some rows, the first of them being the row `n`.
record Adds (ncols n : ℕ) (rows : List (List Text)) (old new : Files) : Type 0 where
  valid_rows : new.valid_rows ≡ old.valid_rows ++ valid_of ncols rows
  valid : new.valid ≡ old.valid + length (valid_of ncols rows)
  count : new.valid + new.skip ≡ (old.valid + old.skip) + length rows
  skip_rows : new.skip_rows ≡ old.skip_rows ++ skips_of ncols n rows
  skips : length new.skip_rows + old.skip ≡ length old.skip_rows + new.skip
  encodable : All Encodable old.skip_rows → All Encodable new.skip_rows

valid_of-one :
    (ncols : ℕ) (row : List Text) (rows : List (List Text))
    → valid_of ncols (row ∷ rows) ≡ valid_of ncols (row ∷ []) ++ valid_of ncols rows
valid_of-one ncols row rows = elim (Bool-cases (is_valid ncols row)) [
  | inl here ↦ rw here refl
  | inr passed ↦ rw passed refl
]

skips_of-one :
    (ncols n : ℕ) (row : List Text) (rows : List (List Text))
    → skips_of ncols n (row ∷ rows) ≡ skips_of ncols n (row ∷ []) ++ skips_of ncols (n + 1) rows
skips_of-one ncols n row rows = elim (Bool-cases (is_valid ncols row)) [
  | inl here ↦ rw here refl
  | inr passed ↦ rw passed refl
]

All-snoc :
    (rows : List (List Text)) (row : List Text)
    → All Encodable rows
    → Encodable row
    → All Encodable (rows ++ (row ∷ []))
All-snoc rows row h k = All-append Encodable rows (row ∷ []) h (k, tt)

skip_row-Adds :
    (ncols n : ℕ) (row : List Text) (reason : Text) (f : Files)
    → has_bad_bytes reason ≡ false
    → is_valid ncols row ≡ false
    → why_skipped ncols n row ≡ reason
    → Adds ncols n (row ∷ []) f (skip_row row reason f)
skip_row-Adds ncols n row reason f safe invalid because =
    let one : skips_of ncols n (row ∷ []) ≡ (map clean row ++ (reason ∷ [])) ∷ [] =
      rw (invalid, because) refl in
    let none_valid : valid_of ncols (row ∷ []) ≡ [] = rw invalid refl in
    let size : length (valid_of ncols (row ∷ [])) ≡ 0 = ap length none_valid in
    let longer = length-append f.skip_rows ((map clean row ++ (reason ∷ [])) ∷ []) in
    record {
      valid_rows = sym (append-nil f.valid_rows) ∙ ap (λ l. f.valid_rows ++ l) (sym none_valid);
      valid = omega (arith, size);
      count = omega arith;
      skip_rows = ap (λ l. f.skip_rows ++ l) (sym one);
      skips = omega (arith, longer);
      encodable = λ h. All-snoc f.skip_rows _ h (row-safe row reason safe);
    }

keep_row-Adds :
    (ncols n : ℕ) (row : List Text) (f : Files)
    → is_valid ncols row ≡ true
    → Adds ncols n (row ∷ []) f (keep_row row f)
keep_row-Adds ncols n row f valid =
    let no_skip : skips_of ncols n (row ∷ []) ≡ [] = rw valid refl in
    let one : valid_of ncols (row ∷ []) ≡ row ∷ [] = rw valid refl in
    let size : length (valid_of ncols (row ∷ [])) ≡ 1 = ap length one in
    record {
      valid_rows = ap (λ l. f.valid_rows ++ l) (sym one);
      valid = omega (arith, size);
      count = omega arith;
      skip_rows = sym (append-nil f.skip_rows) ∙ ap (λ l. f.skip_rows ++ l) (sym no_skip);
      skips = omega arith;
      encodable = λ h. h;
    }

sort_row-Adds :
    (ncols n : ℕ) (row : List Text) (f : Files) → Adds ncols n (row ∷ []) f (sort_row ncols n row f)
unfolding sort_row
sort_row-Adds ncols n row f = elim (Bool-cases (any is_filled row)) [
  | inr blank ↦
      rw blank (skip_row-Adds ncols n row blank_reason f refl (rw blank refl) (rw blank refl))
  | inl filled ↦ elim (Bool-cases (any has_bad_bytes row)) [
    | inl bad ↦
        rw (filled, bad)
          (skip_row-Adds ncols n row (bytes_reason n) f (bytes_reason-safe n)
            (rw (filled, bad) refl) (rw (filled, bad) refl))
    | inr good ↦ elim (Bool-cases (length row == ncols)) [
      | inr other ↦
          rw (filled, good, other)
            (skip_row-Adds ncols n row (mismatch_reason ncols (length row)) f
              (mismatch_reason-safe ncols (length row)) (rw (filled, good, other) refl)
              (rw (filled, good) refl))
      | inl fits ↦
          rw (filled, good, fits) (keep_row-Adds ncols n row f (rw (filled, good, fits) refl))
    ]
  ]
]

sum_valid : (f g h a b c : ℕ) → g ≡ f + a → h ≡ g + b → c ≡ a + b → h ≡ f + c
sum_valid f g h a b c e1 e2 e3 = omega (arith, e1, e2, e3)

sum_count : (f g h n : ℕ) → g ≡ f + 1 → h ≡ g + n → h ≡ f + suc n
sum_count f g h n e1 e2 = omega (arith, e1, e2)

sum_skips : (f g h i j k : ℕ) → g + i ≡ f + j → h + j ≡ g + k → h + i ≡ f + k
sum_skips f g h i j k e1 e2 = omega (arith, e1, e2)

Adds-trans :
    (ncols n : ℕ) (row : List Text) (rows : List (List Text)) (f g h : Files)
    → Adds ncols n (row ∷ []) f g
    → Adds ncols (n + 1) rows g h
    → Adds ncols n (row ∷ rows) f h
Adds-trans ncols n row rows f g h a b =
    let split = valid_of-one ncols row rows in
    let size = length-append (valid_of ncols (row ∷ [])) (valid_of ncols rows) in
    let both : length (valid_of ncols (row ∷ rows))
        ≡ length (valid_of ncols (row ∷ [])) + length (valid_of ncols rows) =
      ap length split ∙ size in
    record {
      valid_rows =
          b.valid_rows
          ∙ ap (λ l. l ++ valid_of ncols rows) a.valid_rows
          ∙ append_assoc f.valid_rows (valid_of ncols (row ∷ [])) (valid_of ncols rows)
          ∙ ap (λ l. f.valid_rows ++ l) (sym split);
      valid = sum_valid f.valid g.valid h.valid _ _ _ a.valid b.valid both;
      count =
          sum_count (f.valid + f.skip) (g.valid + g.skip) (h.valid + h.skip) (length rows) a.count
            b.count;
      skip_rows =
          b.skip_rows
          ∙ ap (λ l. l ++ skips_of ncols (n + 1) rows) a.skip_rows
          ∙ append_assoc f.skip_rows (skips_of ncols n (row ∷ [])) (skips_of ncols (n + 1) rows)
          ∙ ap (λ l. f.skip_rows ++ l) (sym (skips_of-one ncols n row rows));
      skips =
          sum_skips (length f.skip_rows) (length g.skip_rows) (length h.skip_rows) f.skip g.skip
            h.skip a.skips b.skips;
      encodable = λ k. b.encodable (a.encodable k);
    }

sort_rows-Adds :
    (ncols n : ℕ) (rows : List (List Text)) (f : Files)
    → Adds ncols n rows f (sort_rows ncols n rows f)
unfolding sort_rows
sort_rows-Adds ncols n [] f = record {
  valid_rows = sym (append-nil f.valid_rows);
  valid = omega arith;
  count = omega arith;
  skip_rows = sym (append-nil f.skip_rows);
  skips = omega arith;
  encodable = λ h. h;
}
sort_rows-Adds ncols n (row ∷ rows) f =
    Adds-trans ncols n row rows f (sort_row ncols n row f) _ (sort_row-Adds ncols n row f)
      (sort_rows-Adds ncols (n + 1) rows (sort_row ncols n row f))

no_bad : (a b c : Bool) → (a && (not b && c)) ≡ true → b ≡ false
no_bad a b c h = ground (arith, h)

valid_of-Encodable : (ncols : ℕ) (rows : List (List Text)) → All Encodable (valid_of ncols rows)
valid_of-Encodable ncols [] = tt
valid_of-Encodable ncols (row ∷ rows) = elim (Bool-cases (is_valid ncols row)) [
  | inr passed ↦ rw passed (valid_of-Encodable ncols rows)
  | inl here ↦
      rw here
        (no_bad (any is_filled row) _ (length row == ncols) here, valid_of-Encodable ncols rows)
]

-- A run on a usable header.
pub record IsParted (headers : List Text) (rows : List (List Text)) (r : ℕ × Files) : Type 0 where
  pub valid_rows : r.1.valid_rows ≡ headers ∷ valid_of (length headers) rows
  pub valid : r.1.valid ≡ length (valid_of (length headers) rows)
  pub count : r.1.valid + r.1.skip ≡ length rows
  pub skip_rows :
      r.1.skip_rows ≡ (headers ++ (codes "_skip_reason" ∷ [])) ∷ skips_of (length headers) 2 rows
  pub skips : length r.1.skip_rows ≡ r.1.skip + 1
  pub valid_encodable : All Encodable r.1.valid_rows
  pub skip_encodable : All Encodable r.1.skip_rows
  pub code : r.0 ≡ (if length (valid_of (length headers) rows) == 0 then 1 else 0)

zero_add : (n : ℕ) → 0 + n ≡ n
zero_add n = omega arith

one_skip : (n skip : ℕ) → n + 0 ≡ 1 + skip → n ≡ skip + 1
one_skip n skip e = omega (arith, e)

header-safe :
    (headers : List Text) → Encodable headers → Encodable (headers ++ (codes "_skip_reason" ∷ []))
header-safe headers good =
    any-append has_bad_bytes headers (codes "_skip_reason" ∷ []) ∙ rw good refl

validate_rows-IsParted :
    (headers : List Text) (rows : List (List Text))
    → any has_bad_bytes headers ≡ false
    → IsParted headers rows (validate_rows headers rows)
unfolding sort_rows
validate_rows-IsParted headers rows good =
    let a = sort_rows-Adds (length headers) 2 rows (with_headers headers) in
    let size : (sort_rows (length headers) 2 rows (with_headers headers)).valid
        ≡ length (valid_of (length headers) rows) =
      a.valid ∙ zero_add _ in
    record {
      valid_rows = a.valid_rows;
      valid = size;
      count = a.count ∙ zero_add _;
      skip_rows = a.skip_rows;
      skips = one_skip _ _ a.skips;
      valid_encodable =
          subst (λ l. All Encodable l) (sym a.valid_rows)
            (good, valid_of-Encodable (length headers) rows);
      skip_encodable = a.encodable (header-safe headers good, tt);
      code = ap (λ n. if n == 0 then 1 else 0) size;
    }

-- With no header, an empty one or one with bytes that are not UTF-8 the validator ends with the
-- exit code 1 and two empty files. Else the valid file is the stripped header and, in their order,
-- the rows with a cell that is not blank, no bad bytes and one cell for each column. Behind its own
-- header, the skip file has each other row, in their order: its cells, with a question mark for each
-- bad byte, and the reason: all blank, bad bytes with the number of the row, counted from 2, or the
-- two numbers of columns. The counters are the numbers of these rows, every cell that is written
-- can be encoded as UTF-8, and the exit code is 0 exactly if some row is valid.
pub validate_file-IsParted :
    (header : List Text) (rows : List (List Text))
    → (validate_file [] ≡ (1, empty_files))
      × ((((length (map strip header) ≡ 0) ⊎ (any has_bad_bytes (map strip header) ≡ true))
            × (validate_file (header ∷ rows) ≡ (1, empty_files)))
          ⊎ IsParted (map strip header) rows (validate_file (header ∷ rows)))
unfolding validate_file
validate_file-IsParted header rows = (
  refl,
  elim (Bool-cases (length (map strip header) == 0)) [
    | inl none_there ↦ inl (inl ((==_iff _ 0).0 none_there), rw none_there refl)
    | inr some_there ↦ elim (Bool-cases (any has_bad_bytes (map strip header))) [
      | inl bad ↦ inl (inr bad, rw (some_there, bad) refl)
      | inr good ↦ inr (rw (some_there, good) (validate_rows-IsParted (map strip header) rows good))
    ]
  ],
)
