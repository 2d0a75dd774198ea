-- ===== src/Python.antt =====
-- The interpreter and its standard library: `str.strip` over the fixed set of white space, and, as
-- a parameter, what depends on the version of the Unicode tables or is not code of the repository.
pub mod Decimal
pub mod Strip
pub mod Search
pub mod Lines
pub mod Replace
use postgre_data_migration_a.Prelude.{
  ℕ, Bool, ◌||◌, ◌&&◌, Option, [], ◌∷◌, ◌++◌, reverse, Text, leb, ◌==◌, if◌then◌else◌,
}

-- `Stamp` is a `datetime`. `decimal c` is the value of a character of the class `\d`.
-- `is_digit c` is `str.isdigit` of one character, a wider class than `\d`. `int` raises
-- ValueError on a text of more than `int_limit` digits (`sys.get_int_max_str_digits()`).
-- `sha256 s` is `hashlib.sha256(s.encode("utf-8")).hexdigest()`.
pub record Runtime : Type 1 where
  pub lower : Text → Text
  pub decimal : ℕ → Option ℕ
  pub is_digit : ℕ → Bool
  pub int_limit : ℕ
  pub Stamp : Type 0
  pub fromisoformat : Text → Option Stamp
  pub is_naive : Stamp → Bool
  pub with_utc : Stamp → Stamp
  pub isoformat : Stamp → Text
  pub sha256 : Text → Text

-- `str.isspace` of one character.
unfoldable pub is_space : ℕ → Bool
is_space c =
    (leb 9 c && leb c 13)
    || (leb 28 c && leb c 32)
    || c == 0x85
    || c == 0xa0
    || c == 0x1680
    || (leb 0x2000 c && leb c 0x200a)
    || c == 0x2028
    || c == 0x2029
    || c == 0x202f
    || c == 0x205f
    || c == 0x3000

module _ (p : ℕ → Bool) where
  unfoldable pub lstrip_by : Text → Text
  lstrip_by [] = []
  lstrip_by (c ∷ s) = if p c then lstrip_by s else c ∷ s

  unfoldable pub rstrip_by : Text → Text
  unfolding lstrip_by
  rstrip_by s = reverse (lstrip_by (reverse s))

  unfoldable pub strip_by : Text → Text
  unfolding rstrip_by
  strip_by s = lstrip_by (rstrip_by s)

-- `str.strip()`.
unfoldable pub strip : Text → Text
unfolding strip_by is_space
strip = strip_by is_space

-- `s.replace(c, t)` for one character `c`.
unfoldable pub replace_char : ℕ → Text → Text → Text
replace_char c t [] = []
replace_char c t (d ∷ s) = let rest = replace_char c t s in if d == c then t ++ rest else d ∷ rest
