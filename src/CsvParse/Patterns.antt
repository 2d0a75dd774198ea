-- ===== src/CsvParse/Patterns.antt =====
-- The regular expressions of csv_parse.py as tests with what may follow, and `_valid_date`.
use postgre_data_migration_a.Prelude.{
  ℕ, zero, suc, ◌+◌, ◌-◌, ◌*◌, ◌%◌, Bool, true, false, ◌&&◌, ◌||◌, not, none, some, [], ◌∷◌, Text,
  same, leb, ◌==◌, if◌then◌else◌,
}
use postgre_data_migration_a.Python.{Runtime}

-- `$`: the end, or one newline in front of it.
abbrev pub at_end : Text → Bool
at_end [] = true
at_end (c ∷ s) = c == b'\n' && same s []

module _ (rt : Runtime) where
  abbrev pub is_decimal : ℕ → Bool
  is_decimal c = elim (rt.decimal c) [ none ↦ false | some d ↦ true ]

  -- `\d*` and `\d+` in front of what `k` matches.
  unfoldable pub many_digits : (Text → Bool) → Text → Bool
  many_digits k [] = k []
  many_digits k (c ∷ s) = k (c ∷ s) || (is_decimal c && many_digits k s)

  unfoldable pub some_digits : (Text → Bool) → Text → Bool
  unfolding many_digits
  some_digits k [] = false
  some_digits k (c ∷ s) = is_decimal c && many_digits k s

  -- One literal character in front of what `k` matches, required and optional.
  abbrev pub literal : ℕ → (Text → Bool) → Text → Bool
  literal d k [] = false
  literal d k (c ∷ s) = c == d && k s

  abbrev pub optional : ℕ → (Text → Bool) → Text → Bool
  optional d k s = k s || literal d k s

  -- `^-?\d+$`
  unfoldable pub int_re : Text → Bool
  unfolding some_digits
  int_re = optional b'-' (some_digits at_end)

  -- `^-?\d+(\.\d+)?$`
  unfoldable pub num_re : Text → Bool
  unfolding some_digits
  num_re = optional b'-' (some_digits (λ s. at_end s || literal b'.' (some_digits at_end) s))

  -- `\d{n}` in front of what `k` matches.
  unfoldable pub digits_exactly : ℕ → (Text → Bool) → Text → Bool
  digits_exactly zero k s = k s
  digits_exactly (suc n) k [] = false
  digits_exactly (suc n) k (c ∷ s) = is_decimal c && digits_exactly n k s

  -- `^\d{4}-\d{2}-\d{2}$`
  unfoldable pub date_re : Text → Bool
  unfolding digits_exactly
  date_re =
      digits_exactly 4 (literal b'-' (digits_exactly 2 (literal b'-' (digits_exactly 2 at_end))))

  -- `datetime.strptime(v, "%Y-%m-%d")`: the fields are `\d\d\d\d`, `1[0-2]|0[1-9]|[1-9]` and
  -- `3[0-1]|[1-2]\d|0[1-9]|[1-9]| [1-9]`, and then the date has to exist.
  abbrev in_range : ℕ → ℕ → ℕ → Bool
  in_range lo hi c = leb lo c && leb c hi

  digit_of : ℕ → ℕ
  digit_of c = elim (rt.decimal c) [ none ↦ 0 | some d ↦ d ]

  is_leap : ℕ → Bool
  is_leap y = y % 4 == 0 && (not (y % 100 == 0) || y % 400 == 0)

  days_in_month : ℕ → ℕ → ℕ
  days_in_month y m =
      if m == 2
      then (if is_leap y then 29 else 28)
      else if m == 4 || m == 6 || m == 9 || m == 11
      then 30
      else 31

  exists_date : ℕ → ℕ → ℕ → Bool
  unfolding days_in_month is_leap
  exists_date y m d = leb 1 y && leb d (days_in_month y m)

  day_then : ℕ → ℕ → Text → Bool
  unfolding exists_date digit_of
  day_then y m (c ∷ []) = in_range b'1' b'9' c && exists_date y m (c - b'0')
  day_then y m (c ∷ d ∷ []) =
      if (c == b'3' && in_range b'0' b'1' d) || (in_range b'1' b'2' c && is_decimal d)
      then exists_date y m ((c - b'0') * 10 + digit_of d)
      else (c == b'0' || c == b' ') && in_range b'1' b'9' d && exists_date y m (d - b'0')
  day_then y m _ = false

  month_then : ℕ → Text → Bool
  unfolding day_then
  month_then y (c ∷ d ∷ e ∷ s) =
      if d == b'-'
      then in_range b'1' b'9' c && day_then y (c - b'0') (e ∷ s)
      else e == b'-'
        && ((c == b'1' && in_range b'0' b'2' d) || (c == b'0' && in_range b'1' b'9' d))
        && day_then y ((c - b'0') * 10 + (d - b'0')) s
  month_then y _ = false

  unfoldable pub valid_date : Text → Bool
  unfolding month_then digit_of
  valid_date (a ∷ b ∷ c ∷ d ∷ e ∷ s) =
      is_decimal a
      && is_decimal b
      && is_decimal c
      && is_decimal d
      && e == b'-'
      && month_then (digit_of a * 1000 + digit_of b * 100 + digit_of c * 10 + digit_of d) s
  valid_date _ = false
