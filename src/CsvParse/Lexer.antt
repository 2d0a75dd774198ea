-- ===== src/CsvParse/Lexer.antt =====
-- `parse_csv`: the state machine over the characters, the last row, and the blank rows at the end.
pub mod RoundTrip
use postgre_data_migration_a.Prelude.{
  ℕ, Bool, true, false, ◌&&◌, List, [], ◌∷◌, ◌++◌, reverse, all, Text, same, ◌==◌, if◌then◌else◌,
}

-- The variables of the loop. `i` is what is left of `src`.
pub record Scan : Type 0 where
  pub rows : List (List Text)
  pub row : List Text
  pub field : Text
  pub in_quotes : Bool

abbrev pub quote : ℕ
quote = b'"'

abbrev pub push : Scan → ℕ → Scan
push s c = record s { field = s.field ++ c ∷ [] }

abbrev pub end_field : Scan → Scan
end_field s = record s { row = s.row ++ s.field ∷ []; field = [] }

abbrev pub end_row : Scan → Scan
end_row s = record s { rows = s.rows ++ (s.row ++ s.field ∷ []) ∷ []; row = []; field = [] }

-- One round of the loop that reads one character.
unfoldable pub step : Scan → ℕ → Scan
step s c =
    if s.in_quotes
    then (if c == quote then record s { in_quotes = false } else push s c)
    else if c == quote
    then record s { in_quotes = true }
    else if c == b','
    then end_field s
    else if c == b'\r'
    then s
    else if c == b'\n'
    then end_row s
    else push s c

-- The loop. A doubled quote inside quotes is the round that reads two characters.
unfoldable pub scan : Scan → Text → Scan
unfolding step
scan s [] = s
scan s (c ∷ []) = step s c
scan s (c ∷ d ∷ rest) =
    let escaped = scan (push s quote) rest in
    let single = scan (step s c) (d ∷ rest) in
    if s.in_quotes && (c == quote && d == quote) then escaped else single

abbrev pub start : Scan
start = record { rows = []; row = []; field = []; in_quotes = false }

-- `if field or row:` behind the loop.
finish_row : List (List Text) → List Text → Text → List (List Text)
finish_row rows [] [] = rows
finish_row rows row field = rows ++ (row ++ field ∷ []) ∷ []

unfoldable pub finish : Scan → List (List Text)
unfolding finish_row
finish s = finish_row s.rows s.row s.field

unfoldable pub is_blank : List Text → Bool
is_blank row = all (λ c. same c []) row

-- `while rows and all(c == "" for c in rows[-1]): rows.pop()`, on the reversed rows.
unfoldable pub pop_blank : List (List Text) → List (List Text)
unfolding is_blank
pop_blank [] = []
pop_blank (r ∷ rs) = if is_blank r then pop_blank rs else r ∷ rs

abbrev pub bom : ℕ
bom = 0xfeff

unfoldable pub drop_bom : Text → Text
drop_bom [] = []
drop_bom (c ∷ s) = if c == bom then s else c ∷ s

unfoldable pub drop_blank_rows : List (List Text) → List (List Text)
unfolding pop_blank
drop_blank_rows rows = reverse (pop_blank (reverse rows))

unfoldable pub parse_csv : Text → List (List Text)
unfolding scan finish drop_blank_rows drop_bom
parse_csv text = drop_blank_rows (finish (scan start (drop_bom text)))
