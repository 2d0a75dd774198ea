-- ===== src/Validator/Encodable.antt =====
-- build/csv/validator.py: texts that UTF-8 encodes.
use postgre_data_migration_a.Prelude.{
  ℕ, Bool, true, false, ◌||◌, List, [], ◌∷◌, ◌++◌, ◌≡◌, refl, ◌∙◌, inl, inr, arith, map, any, Text,
  codes, All, Bool-cases,
}
use postgre_data_migration_a.Python.Decimal.{str, is_digit, str-is_digit}
use postgre_data_migration_a.Validator.{
  is_surrogate, has_bad_bytes, clean_char, clean, bytes_reason, mismatch_reason,
}

-- No cell of the row has a code point that UTF-8 does not encode.
abbrev pub Encodable : List Text → Type 0
Encodable row = any has_bad_bytes row ≡ false

clean_char-safe : (c : ℕ) → is_surrogate (clean_char c) ≡ false
clean_char-safe c = elim (Bool-cases (is_surrogate c)) [
  | inl bad ↦ rw bad refl
  | inr good ↦ rw good good
]

clean-safe : (cell : Text) → has_bad_bytes (clean cell) ≡ false
clean-safe [] = refl
clean-safe (c ∷ cell) = rw (clean_char-safe c) (clean-safe cell)

pub row-safe :
    (row : List Text) (reason : Text)
    → has_bad_bytes reason ≡ false
    → Encodable (map clean row ++ (reason ∷ []))
row-safe [] reason h = rw h refl
row-safe (cell ∷ row) reason h = rw (clean-safe cell) (row-safe row reason h)

digit_low : (c : ℕ) → is_digit c ≡ true → is_surrogate c ≡ false
digit_low c h = ground (arith, h)

digits-safe : (s : Text) → All (λ c. is_digit c ≡ true) s → has_bad_bytes s ≡ false
digits-safe [] h = refl
digits-safe (c ∷ s) h =
    let low : is_surrogate c ≡ false = digit_low c h.0 in rw low (digits-safe s h.1)

pub any-append {ℓ} :
    {A : Type ℓ} (p : A → Bool) (xs ys : List A) → any p (xs ++ ys) ≡ (any p xs || any p ys)
any-append p [] ys = refl
any-append p (x ∷ xs) ys = ground (arith, any-append p xs ys)

str-safe : (n : ℕ) → has_bad_bytes (str n) ≡ false
str-safe n = digits-safe (str n) (str-is_digit n)

pub bytes_reason-safe : (n : ℕ) → has_bad_bytes (bytes_reason n) ≡ false
bytes_reason-safe n =
    any-append is_surrogate (codes "invalid UTF-8 bytes at line ") (str n) ∙ str-safe n

pub mismatch_reason-safe : (n m : ℕ) → has_bad_bytes (mismatch_reason n m) ≡ false
mismatch_reason-safe n m =
    any-append is_surrogate (codes "column mismatch — expected ")
      (str n ++ (codes ", got " ++ str m))
    ∙ any-append is_surrogate (str n) (codes ", got " ++ str m)
    ∙ rw (str-safe n) (any-append is_surrogate (codes ", got ") (str m) ∙ str-safe m)
