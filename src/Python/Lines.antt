-- ===== src/Python/Lines.antt =====
-- `str.splitlines` and `str.split`.
use postgre_data_migration_a.Prelude.{
  ℕ, Bool, false, ◌||◌, ◌&&◌, List, [], ◌∷◌, ◌++◌, Text, leb, ◌==◌, if◌then◌else◌,
}
use postgre_data_migration_a.Python.{is_space}

-- A character that ends a line.
abbrev pub is_line_end : ℕ → Bool
is_line_end c =
    (leb 10 c && leb c 13)
    || ((leb 28 c && leb c 30) || (c == 0x85 || (c == 0x2028 || c == 0x2029)))

-- Behind the last line end there is no line if nothing follows.
abbrev pub last_line : Text → List Text
last_line [] = []
last_line (c ∷ s) = (c ∷ s) ∷ []

-- `line` is what is read of the line; `cr` tells whether a carriage return was the last character.
unfoldable pub lines_from : Bool → Text → Text → List Text
lines_from cr line [] = last_line line
lines_from cr line (c ∷ s) =
    let skipped = lines_from false line s in
    let ended = line ∷ lines_from (c == 13) [] s in
    let longer = lines_from false (line ++ (c ∷ [])) s in
    if cr && c == 10 then skipped else if is_line_end c then ended else longer

-- `s.splitlines()`.
unfoldable pub splitlines : Text → List Text
unfolding lines_from
splitlines s = lines_from false [] s

unfoldable pub pieces_from : ℕ → Text → Text → List Text
pieces_from sep piece [] = piece ∷ []
pieces_from sep piece (c ∷ s) =
    let ended = piece ∷ pieces_from sep [] s in
    let longer = pieces_from sep (piece ++ (c ∷ [])) s in if c == sep then ended else longer

-- `s.split(sep)` for a separator of one character.
unfoldable pub split_on : ℕ → Text → List Text
unfolding pieces_from
split_on sep s = pieces_from sep [] s

unfoldable pub words_from : Text → Text → List Text
words_from word [] = last_line word
words_from word (c ∷ s) =
    let ended = last_line word ++ words_from [] s in
    let longer = words_from (word ++ (c ∷ [])) s in if is_space c then ended else longer

-- `s.split()`.
unfoldable pub words : Text → List Text
unfolding words_from is_space
words s = words_from [] s
