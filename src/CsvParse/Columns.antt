-- ===== src/CsvParse/Columns.antt =====
-- `sanitize_columns` and `valid_identifier`. The proofs are in the modules below.
pub mod Base
pub mod Fresh
pub mod Identifiers
use postgre_data_migration_a.Prelude.{
  ℕ, zero, suc, ◌+◌, Bool, true, false, ◌&&◌, ◌||◌, not, List, [], ◌∷◌, ◌++◌, length, take, Text,
  codes, member, same, leb, ltb, ◌==◌, if◌then◌else◌, all,
}
use postgre_data_migration_a.Python.{Runtime, strip, strip_by}
use postgre_data_migration_a.Python.Decimal.{str, is_digit}

abbrev pub reserved : List Text
reserved = codes "_id" ∷ codes "_row_hash" ∷ codes "_created_at" ∷ []

-- `[a-z0-9_]`.
abbrev pub is_name : ℕ → Bool
is_name c = (leb b'a' c && leb c b'z') || is_digit c || c == b'_'

-- `re.sub(r"[^a-z0-9_]+", "_", s)`; the flag says that the run before `s` is replaced already.
unfoldable pub sub_runs : Bool → Text → Text
sub_runs inside [] = []
sub_runs inside (c ∷ s) =
    let rest = sub_runs (not (is_name c)) s in
    if is_name c then c ∷ rest else if inside then rest else b'_' ∷ rest

-- `x or y` on texts.
abbrev pub or_text : Text → Text → Text
or_text [] y = y
or_text (c ∷ s) y = c ∷ s

abbrev pub column_number : ℕ → Text
column_number idx = codes "column_" ++ str (idx + 1)

-- `if base[0].isdigit(): base = f"col_{base}"`. At that point every character is in `[a-z0-9_]`.
abbrev pub not_digit_first : Text → Text
not_digit_first [] = []
not_digit_first (c ∷ s) = if is_digit c then codes "col_" ++ c ∷ s else c ∷ s

abbrev pub not_reserved : Text → Text
not_reserved base = if member base reserved then base ++ codes "_col" else base

-- The body of the loop up to `name = base`, for header `h` at index `idx`.
unfoldable pub base_name : Runtime → ℕ → Text → Text
unfolding sub_runs
base_name rt idx h =
    let lowered = strip (rt.lower (or_text h (column_number idx))) in
    let replaced = not_reserved (sub_runs false lowered) in
    let stripped = strip_by (λ c. c == b'_') replaced in
    take 55 (not_digit_first (or_text stripped (column_number idx)))

-- `counter`, with `counter.get(base, 0)` and `counter[base] = n`.
abbrev pub Counter : Type 0
Counter = List (Text × ℕ)

unfoldable pub count_of : Text → Counter → ℕ
count_of base [] = 0
count_of base ((b, n) ∷ l) = if same base b then n else count_of base l

unfoldable pub set_count : Text → ℕ → Counter → Counter
set_count base n l = (base, n) ∷ l

abbrev pub suffixed : Text → ℕ → Text
suffixed base n = base ++ (b'_' ∷ str n)

-- `while name in assigned`. `length assigned + 1` rounds are enough (`Fresh`).
unfoldable pub fresh : ℕ → List Text → Text → Counter → Text → Text × Counter
unfolding count_of set_count
fresh zero assigned base counter name = (name, counter)
fresh (suc f) assigned base counter name =
    let c = count_of base counter + 1 in
    let rest = fresh f assigned base (set_count base c counter) (suffixed base (c + 1)) in
    if member name assigned then rest else (name, counter)

abbrev pub fresh_name : List Text → Text → Counter → Text × Counter
fresh_name assigned base counter = fresh (suc (length assigned)) assigned base counter base

-- The loop over the headers; `assigned` and `out` hold the same names.
unfoldable pub sanitize_from : Runtime → ℕ → List Text → Counter → List Text → List Text
unfolding base_name fresh
sanitize_from rt idx assigned counter [] = []
sanitize_from rt idx assigned counter (h ∷ hs) =
    let (name, counter') = fresh_name assigned (base_name rt idx h) counter in
    name ∷ sanitize_from rt (idx + 1) (name ∷ assigned) counter' hs

unfoldable pub sanitize_columns : Runtime → List Text → List Text
unfolding sanitize_from
sanitize_columns rt headers = sanitize_from rt 0 [] [] headers

-- `[a-z0-9_]{0,62}$`: `$` also matches in front of one newline at the end.
unfoldable pub ident_rest : ℕ → Text → Bool
ident_rest n [] = true
ident_rest zero (c ∷ s) = c == b'\n' && same s []
ident_rest (suc n) (c ∷ s) = if is_name c then ident_rest n s else c == b'\n' && same s []

unfoldable pub valid_identifier : Text → Bool
unfolding ident_rest
valid_identifier [] = false
valid_identifier (c ∷ s) = is_name c && (not (is_digit c) && ident_rest 62 s)
