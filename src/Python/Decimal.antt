-- ===== src/Python/Decimal.antt =====
-- `str(n)` of a natural number, as the f-strings of `sanitize_columns` use it.
use postgre_data_migration_a.Prelude.{
  ℕ, zero, suc, ◌+◌, ◌-◌, ◌*◌, ◌/◌, ◌%◌, ◌≤◌, ◌<◌, Bool, true, ◌&&◌, [], ◌∷◌, ◌++◌, ◌≡◌, refl, sym,
  ap, ◌∙◌, inl, inr, arith, length, length-append, All, All-append, Text, codes, ltb, leb,
  if◌then◌else◌, Bool-cases,
}

-- The fuel bounds the number of digits; `n + 1` is enough.
str_fuel : ℕ → ℕ → Text
str_fuel zero n = []
str_fuel (suc f) n =
    let high = str_fuel f (n / 10) in
    if ltb n 10 then (b'0' + n) ∷ [] else high ++ (b'0' + n % 10) ∷ []

unfoldable pub str : ℕ → Text
unfolding str_fuel
str n = str_fuel (suc n) n

abbrev pub is_digit : ℕ → Bool
is_digit c = leb b'0' c && leb c b'9'

value_from : ℕ → Text → ℕ
value_from acc [] = acc
value_from acc (c ∷ s) = value_from (acc * 10 + (c - b'0')) s

value_from-append :
    (acc : ℕ) (s t : Text) → value_from acc (s ++ t) ≡ value_from (value_from acc s) t
unfolding value_from
value_from-append acc [] t = refl
value_from-append acc (c ∷ s) t = value_from-append (acc * 10 + (c - b'0')) s t

value_from-str_fuel : (f n : ℕ) → n < f → value_from 0 (str_fuel f n) ≡ n
unfolding str_fuel
value_from-str_fuel zero n h = elim h [ ]
value_from-str_fuel (suc f) n h = elim (Bool-cases (ltb n 10)) [
  | inl e ↦ rw e (unfold value_from in omega arith)
  | inr e ↦
      rw (e, value_from-append)
        (rw (value_from-str_fuel f (n / 10) (ground arith)) (unfold value_from in omega arith))
]

-- Different numbers are printed differently.
pub str_inj : (m n : ℕ) → str m ≡ str n → m ≡ n
unfolding str
str_inj m n e =
    sym (value_from-str_fuel (suc m) m (omega arith))
    ∙ ap (value_from 0) e
    ∙ value_from-str_fuel (suc n) n (omega arith)

str_fuel-is_digit : (f n : ℕ) → All (λ c. is_digit c ≡ true) (str_fuel f n)
unfolding str_fuel
str_fuel-is_digit zero n = tt
str_fuel-is_digit (suc f) n = elim (Bool-cases (ltb n 10)) [
  | inl e ↦ rw e (ground arith, tt)
  | inr e ↦ rw e (
      All-append (λ c. is_digit c ≡ true) (str_fuel f (n / 10)) _ (str_fuel-is_digit f (n / 10))
        (ground arith, tt))
]

pub str-is_digit : (n : ℕ) → All (λ c. is_digit c ≡ true) (str n)
unfolding str
str-is_digit n = str_fuel-is_digit (suc n) n

-- The least number with more than `k` digits.
abbrev pub tens : ℕ → ℕ
tens zero = 1
tens (suc k) = 10 * tens k

length-str_fuel : (f n k : ℕ) → n < tens (suc k) → length (str_fuel f n) ≤ suc k
unfolding str_fuel
length-str_fuel zero n k h = omega arith
length-str_fuel (suc f) n zero h = ground arith
length-str_fuel (suc f) n (suc k) h = elim (Bool-cases (ltb n 10)) [
  | inl e ↦ rw e (omega arith)
  | inr e ↦ rw e (omega (arith, length-append {0}, length-str_fuel f (n / 10) k (omega arith)))
]

-- A number below 10^(k+1) takes at most `k + 1` digits.
pub length-str : (n k : ℕ) → n < tens (suc k) → length (str n) ≤ suc k
unfolding str
length-str n k h = length-str_fuel (suc n) n k h

str_120 : str 120 ≡ codes "120"
unfolding str
str_120 = refl
