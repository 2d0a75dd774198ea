-- ===== src/Python/Replace.antt =====
-- `str.replace` and `str.upper`.
use postgre_data_migration_a.Prelude.{
  ℕ, zero, suc, ◌-◌, ◌&&◌, [], ◌∷◌, ◌++◌, map, drop, length, Text, starts_with, leb, if◌then◌else◌,
}

-- `skip` characters belong to the piece that was replaced last.
unfoldable pub replace_from : Text → Text → ℕ → Text → Text
replace_from old new skip [] = []
replace_from old new (suc skip) (c ∷ s) = replace_from old new skip s
replace_from old new zero (c ∷ s) =
    let replaced = new ++ replace_from old new (length old - 1) s in
    let kept = c ∷ replace_from old new zero s in if starts_with (c ∷ s) old then replaced else kept

-- `s.replace(old, new)`, where `old` is not empty.
unfoldable pub replace : Text → Text → Text → Text
unfolding replace_from
replace old new s = replace_from old new zero s

abbrev pub upper_char : ℕ → ℕ
upper_char c = if leb b'a' c && leb c b'z' then c - 32 else c

-- `s.upper()` of ASCII.
abbrev pub upper : Text → Text
upper s = map upper_char s

-- `s.replace(old, new, 1)`.
unfoldable pub replace_once : Text → Text → Text → Text
replace_once old new [] = []
replace_once old new (c ∷ s) =
    let later = replace_once old new s in
    if starts_with (c ∷ s) old then new ++ drop (length old) (c ∷ s) else c ∷ later
