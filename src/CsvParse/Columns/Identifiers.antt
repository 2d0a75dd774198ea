-- ===== src/CsvParse/Columns/Identifiers.antt =====
-- api/services/csv_parse.py: the names that `sanitize_columns` returns.
use postgre_data_migration_a.Prelude.{
  ℕ, zero, suc, ◌+◌, ◌≤◌, ◌<◌, true, false, not, List, [], ◌∷◌, ◌++◌, ◌≡◌, refl, sym, ap, ◌∙◌,
  subst, inl, inr, arith, length, length-append, all, all-append, All, Text, member, same_sym,
  distinct,
}
use postgre_data_migration_a.Python.{Runtime}
use postgre_data_migration_a.Python.Decimal.{str, length-str}
use postgre_data_migration_a.CsvParse.Columns.{
  Counter, count_of, reserved, is_name, base_name, suffixed, fresh_name, sanitize_from,
  sanitize_columns, ident_rest, valid_identifier,
}
use postgre_data_migration_a.CsvParse.Columns.Base.{
  starts_letter, IsStem, base_name-IsStem, str-is_name,
}
use postgre_data_migration_a.CsvParse.Columns.Fresh.{
  IsCounted, fresh_name-free, fresh_name-IsCounted, fresh_name-shape, taken,
}

ident_rest-is_name :
    (n : ℕ) (s : Text) → all is_name s ≡ true → length s ≤ n → ident_rest n s ≡ true
unfolding ident_rest
ident_rest-is_name n [] h l = refl
ident_rest-is_name zero (c ∷ s) h l = absurd (omega arith)
ident_rest-is_name (suc n) (c ∷ s) h l = ground (arith, ident_rest-is_name n s)

-- A name that Postgres takes as a plain identifier and that is no column of the loader's own.
pub record IsColumn (name : Text) : Type 0 where
  pub valid : valid_identifier name ≡ true
  pub free : member name reserved ≡ false

IsColumn-of_letter :
    (s : Text) → starts_letter s ≡ true → all is_name s ≡ true → length s ≤ 63 → IsColumn s
unfolding valid_identifier
IsColumn-of_letter [] k h l = cc
IsColumn-of_letter (c ∷ s) k h l = record {
  valid = ground (arith, ident_rest-is_name 62 s);
  free = ground arith;
}

-- Ten million headers less two: the suffix then has seven digits at most.
abbrev pub max_headers : ℕ
max_headers = 9999997

starts_letter-append : (s t : Text) → starts_letter s ≡ true → starts_letter (s ++ t) ≡ true
starts_letter-append [] t h = cc
starts_letter-append (c ∷ s) t h = h

IsColumn-suffixed : (base : Text) (n : ℕ) → IsStem base → n < 10000000 → IsColumn (suffixed base n)
IsColumn-suffixed base n stem h =
    IsColumn-of_letter (suffixed base n) (starts_letter-append base (b'_' ∷ str n) stem.letter)
      (all-append is_name base (b'_' ∷ str n) ∙ ground (arith, stem.names, str-is_name n))
      (omega (arith, length-append base (b'_' ∷ str n), stem.short, length-str n 6 h))

all_of_cons :
    (name : Text) (xs rs : List Text)
    → all (λ r. not (member r (name ∷ xs))) rs ≡ true
    → (member name rs ≡ false) × (all (λ r. not (member r xs)) rs ≡ true)
all_of_cons name xs [] h = (refl, refl)
all_of_cons name xs (r ∷ rs) h =
    let rest = all_of_cons name xs rs (ground arith) in
    (ground (arith, same_sym name r, rest.0), ground (arith, rest.1))

sanitize_from-distinct :
    (rt : Runtime) (idx : ℕ) (assigned : List Text) (counter : Counter) (hs : List Text)
    → IsCounted assigned counter
    → (distinct (sanitize_from rt idx assigned counter hs) ≡ true)
      × (all (λ r. not (member r assigned)) (sanitize_from rt idx assigned counter hs) ≡ true)
unfolding sanitize_from
sanitize_from-distinct rt idx assigned counter [] h = (refl, refl)
sanitize_from-distinct rt idx assigned counter (g ∷ hs) h =
    let base = base_name rt idx g in
    let (name, counter') = fresh_name assigned base counter in
    let (one, all_new) =
      sanitize_from-distinct rt (idx + 1) (name ∷ assigned) counter' hs
        (fresh_name-IsCounted assigned base counter h) in
    let (unused, apart) = all_of_cons name assigned _ all_new in
    (ground (arith, one, unused), ground (arith, apart, fresh_name-free assigned base counter h))

sanitize_from-IsColumn :
    (rt : Runtime) (idx : ℕ) (assigned : List Text) (counter : Counter) (hs : List Text)
    → length assigned + length hs ≤ max_headers
    → IsCounted assigned counter
    → All IsColumn (sanitize_from rt idx assigned counter hs)
unfolding sanitize_from
sanitize_from-IsColumn rt idx assigned counter [] few h = tt
sanitize_from-IsColumn rt idx assigned counter (g ∷ hs) few h =
    let base = base_name rt idx g in
    let stem = base_name-IsStem rt idx g in
    let (name, counter') = fresh_name assigned base counter in
    (
      elim (fresh_name-shape assigned base counter h) [
        | inl here ↦
            subst IsColumn (sym here)
              (IsColumn-of_letter base stem.letter stem.names (omega (arith, stem.short)))
        | inr (n, here, bound) ↦
            subst IsColumn (sym here) (IsColumn-suffixed base n stem (omega arith))
      ],
      sanitize_from-IsColumn rt (idx + 1) (name ∷ assigned) counter' hs (omega arith)
          (fresh_name-IsCounted assigned base counter h),
    )

nil-IsCounted : IsCounted [] []
unfolding count_of taken
nil-IsCounted b = refl

length-sanitize_from :
    (rt : Runtime) (idx : ℕ) (assigned : List Text) (counter : Counter) (hs : List Text)
    → length (sanitize_from rt idx assigned counter hs) ≡ length hs
unfolding sanitize_from
length-sanitize_from rt idx assigned counter [] = refl
length-sanitize_from rt idx assigned counter (g ∷ hs) =
    ap suc (length-sanitize_from rt (idx + 1) _ _ hs)

-- There is one column for each header.
pub length-sanitize_columns :
    (rt : Runtime) (hs : List Text) → length (sanitize_columns rt hs) ≡ length hs
unfolding sanitize_columns
length-sanitize_columns rt hs = length-sanitize_from rt 0 [] [] hs

-- Whatever the headers are, the column names are all different.
pub distinct-sanitize_columns :
    (rt : Runtime) (hs : List Text) → distinct (sanitize_columns rt hs) ≡ true
unfolding sanitize_columns
distinct-sanitize_columns rt hs = (sanitize_from-distinct rt 0 [] [] hs nil-IsCounted).0

-- With fewer than ten million headers less two, each column name is accepted by
-- `valid_identifier` and is none of the reserved names.
pub sanitize_columns-IsColumn :
    (rt : Runtime) (hs : List Text)
    → length hs ≤ max_headers
    → All IsColumn (sanitize_columns rt hs)
unfolding sanitize_columns
sanitize_columns-IsColumn rt hs few =
    sanitize_from-IsColumn rt 0 [] [] hs (omega arith) nil-IsCounted
