-- ===== src/CsvParse/Columns/Base.antt =====
-- api/services/csv_parse.py: the name of a column before it is made unique.
use postgre_data_migration_a.Prelude.{
  ℕ, ◌+◌, ◌≤◌, Bool, true, false, ◌&&◌, not, [], ◌∷◌, ◌≡◌, refl, inl, inr, arith, length,
  length-take, take, all, all-append, all-take, All→all, Text, codes, member, leb, ◌==◌, Bool-cases,
}
use postgre_data_migration_a.Python.{Runtime, strip, strip_by}
use postgre_data_migration_a.Python.Decimal.{str, is_digit, str-is_digit}
use postgre_data_migration_a.Python.Strip.{head_fails, head_fails-strip_by, all-strip_by}
use postgre_data_migration_a.CsvParse.Columns.{
  reserved, is_name, sub_runs, or_text, column_number, not_digit_first, not_reserved, base_name,
}

abbrev pub starts_letter : Text → Bool
starts_letter [] = false
starts_letter (c ∷ s) = leb b'a' c && leb c b'z'

pub record IsStem (base : Text) : Type 0 where
  pub names : all is_name base ≡ true
  pub short : length base ≤ 55
  pub letter : starts_letter base ≡ true

sub_runs-is_name : (inside : Bool) (s : Text) → all is_name (sub_runs inside s) ≡ true
unfolding sub_runs
sub_runs-is_name inside [] = refl
sub_runs-is_name inside (c ∷ s) = ground (arith, sub_runs-is_name (not (is_name c)) s)

not_reserved-is_name : (s : Text) → all is_name s ≡ true → all is_name (not_reserved s) ≡ true
not_reserved-is_name s h = elim (Bool-cases (member s reserved)) [
  | inl e ↦ rw e (ground (arith, all-append is_name s (codes "_col")))
  | inr e ↦ rw e h
]

digits-is_name : (s : Text) → all is_digit s ≡ true → all is_name s ≡ true
digits-is_name [] h = refl
digits-is_name (c ∷ s) h = ground (arith, digits-is_name s)

pub str-is_name : (n : ℕ) → all is_name (str n) ≡ true
str-is_name n = digits-is_name (str n) (All→all is_digit (str n) (str-is_digit n))

-- Characters of `[a-z0-9_]` that begin with no underscore.
abbrev IsCore : Text → Type 0
IsCore s = (all is_name s ≡ true) × (head_fails (λ c. c == b'_') s ≡ true)

starts_letter-first :
    (s : Text) (idx : ℕ)
    → IsCore s
    → (all is_name (not_digit_first (or_text s (column_number idx))) ≡ true)
      × (starts_letter (not_digit_first (or_text s (column_number idx))) ≡ true)
starts_letter-first [] idx h = (ground (arith, str-is_name (idx + 1)), refl)
starts_letter-first (c ∷ s) idx h = elim (Bool-cases (is_digit c)) [
  | inl e ↦ rw e (ground arith, refl)
  | inr e ↦ rw e (h.0, ground arith)
]

IsStem-take : (s : Text) → all is_name s ≡ true → starts_letter s ≡ true → IsStem (take 55 s)
IsStem-take [] h k = cc
IsStem-take (c ∷ s) h k = record {
  names = all-take is_name 55 (c ∷ s) h;
  short = omega (arith, length-take 55 (c ∷ s));
  letter = k;
}

pub base_name-IsStem : (rt : Runtime) (idx : ℕ) (h : Text) → IsStem (base_name rt idx h)
unfolding base_name
base_name-IsStem rt idx h =
    let lowered = strip (rt.lower (or_text h (column_number idx))) in
    let replaced = not_reserved (sub_runs false lowered) in
    let core : IsCore (strip_by (λ c. c == b'_') replaced) = (
      all-strip_by (λ c. c == b'_') is_name replaced
          (not_reserved-is_name (sub_runs false lowered) (sub_runs-is_name false lowered)),
      head_fails-strip_by (λ c. c == b'_') replaced,
    ) in
    let stripped = strip_by (λ c. c == b'_') replaced in
    let first = starts_letter-first stripped idx core in
    IsStem-take (not_digit_first (or_text stripped (column_number idx))) first.0 first.1
