-- ===== src/CsvParse/Cast.antt =====
-- `cast_value` and `infer_type`.
pub mod Infer
use postgre_data_migration_a.Prelude.{
  ℕ, suc, ◌+◌, ◌-◌, ◌*◌, Bool, true, false, ◌&&◌, ◌||◌, Option, none, some, List, [], ◌∷◌, ◌++◌,
  all, length, Text, codes, same, member, leb, ltb, ◌==◌, if◌then◌else◌,
}
use postgre_data_migration_a.Python.{Runtime, strip, replace_char}
use postgre_data_migration_a.CsvParse.Types.{
  ColType, int8, numeric, date, timestamptz, boolean, text,
}
use postgre_data_migration_a.CsvParse.Patterns.{int_re, num_re, date_re, valid_date}

-- `negsuc n` is -(n + 1).
pub data ℤ : Type 0 where
  pos : ℕ → ℤ
  negsuc : ℕ → ℤ

pub data Value : Type 0 where
  null : Value
  int : ℤ → Value
  bool : Bool → Value
  str : Text → Value

-- `(True, value, None)`, `(False, None, reason)`, or a ValueError that nothing catches.
pub data Cast : Type 0 where
  ok : Value → Cast
  bad : Text → Cast
  raised : Cast

abbrev pub bool_true : List Text
bool_true = codes "true" ∷ codes "t" ∷ codes "yes" ∷ codes "y" ∷ codes "1" ∷ []

abbrev pub bool_false : List Text
bool_false = codes "false" ∷ codes "f" ∷ codes "no" ∷ codes "n" ∷ codes "0" ∷ []

-- The decimal digits that `v` begins with, as a number and counted.
digits_value : Runtime → ℕ → Text → ℕ
digits_value rt acc [] = acc
digits_value rt acc (c ∷ s) = elim (rt.decimal c) [
  | none ↦ acc
  | some d ↦ digits_value rt (acc * 10 + d) s
]

unfoldable pub count_digits : Runtime → Text → ℕ
count_digits rt [] = 0
count_digits rt (c ∷ s) = elim (rt.decimal c) [ none ↦ 0 | some d ↦ suc (count_digits rt s) ]

negate : ℕ → ℤ
negate n = if n == 0 then pos 0 else negsuc (n - 1)

unfoldable pub unsigned : Text → Text
unsigned [] = []
unsigned (c ∷ s) = if c == b'-' then s else c ∷ s

int_value : Runtime → Text → ℤ
unfolding digits_value negate
int_value rt [] = pos 0
int_value rt (c ∷ s) =
    if c == b'-' then negate (digits_value rt 0 s) else pos (digits_value rt 0 (c ∷ s))

-- `int(v)` on a text that `_INT_RE` matches.
unfoldable pub int_of : Runtime → Text → Cast
unfolding int_value count_digits unsigned
int_of rt v =
    if leb (count_digits rt (unsigned v)) rt.int_limit then ok (int (int_value rt v)) else raised

abbrev pub complain : Text → Text → Cast
complain raw what = bad (b'"' ∷ (raw ++ (b'"' ∷ what)))

abbrev pub iso_text : Text → Text
iso_text v = replace_char b'Z' (codes "+00:00") v

unfoldable pub valid_timestamp : Runtime → Text → Bool
valid_timestamp rt v = elim (rt.fromisoformat (iso_text v)) [ none ↦ false | some d ↦ true ]

cast_boolean : Runtime → Text → Text → Cast
cast_boolean rt raw v =
    let low = rt.lower v in
    if member low bool_true
    then ok (bool true)
    else if member low bool_false
    then ok (bool false)
    else complain raw (codes " is not true/false")

cast_timestamp : Runtime → Text → Text → Cast
cast_timestamp rt raw v = elim (rt.fromisoformat (iso_text v)) [
  | none ↦ complain raw (codes " is not a valid timestamp")
  | some d ↦ ok (str (rt.isoformat (if rt.is_naive d then rt.with_utc d else d)))
]

-- `cast_value` behind `if v == ""`; `v` is `raw.strip()`.
cast_stripped : Runtime → Text → Text → ColType → Cast
unfolding int_of cast_boolean cast_timestamp
cast_stripped rt raw v int8 =
    if int_re rt v then int_of rt v else complain raw (codes " is not a whole number")
cast_stripped rt raw v numeric =
    if num_re rt v then ok (str v) else complain raw (codes " is not a number")
cast_stripped rt raw v boolean = cast_boolean rt raw v
cast_stripped rt raw v date =
    if date_re rt v && valid_date rt v
    then ok (str v)
    else complain raw (codes " is not a YYYY-MM-DD date")
cast_stripped rt raw v timestamptz = cast_timestamp rt raw v
cast_stripped rt raw v text = ok (str raw)

unfoldable pub cast_value : Runtime → Text → ColType → Cast
unfolding cast_stripped
cast_value rt raw t = let v = strip raw in if same v [] then ok null else cast_stripped rt raw v t

-- `[v.strip() for v in values if v.strip() != ""]`.
unfoldable pub non_blank : List Text → List Text
non_blank [] = []
non_blank (v ∷ vs) = let rest = non_blank vs in if same (strip v) [] then rest else strip v ∷ rest

abbrev pub is_bool : Runtime → Text → Bool
is_bool rt v = member (rt.lower v) bool_true || member (rt.lower v) bool_false

-- The tests of `infer_type` on the stripped values, in its order.
infer_from : Runtime → List Text → ColType
unfolding valid_timestamp
infer_from rt [] = text
infer_from rt (v ∷ vs) =
    if all (int_re rt) (v ∷ vs)
    then int8
    else if all (num_re rt) (v ∷ vs)
    then numeric
    else if all (is_bool rt) (v ∷ vs)
    then boolean
    else if all (λ w. date_re rt w && valid_date rt w) (v ∷ vs)
    then date
    else if all (valid_timestamp rt) (v ∷ vs)
    then timestamptz
    else text

unfoldable pub infer_type : Runtime → List Text → ColType
unfolding infer_from non_blank
infer_type rt values = infer_from rt (non_blank values)
