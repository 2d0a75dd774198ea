-- ===== src/CsvParse/Cast/Infer.antt =====
-- api/services/csv_parse.py: `infer_type` against `cast_value`.
use postgre_data_migration_a.Prelude.{
  ℕ, ◌≤◌, Bool, true, false, ◌&&◌, List, [], ◌∷◌, ◌≡◌, ◌≢◌, refl, inl, inr, arith, all, All, Text,
  same, if◌then◌else◌, Bool-cases, le→leb,
}
use postgre_data_migration_a.Python.{Runtime, strip}
use postgre_data_migration_a.CsvParse.Types.{
  ColType, int8, numeric, date, timestamptz, boolean, text,
}
use postgre_data_migration_a.CsvParse.Patterns.{int_re, num_re, date_re, valid_date}
use postgre_data_migration_a.CsvParse.Cast.{
  Cast, ok, bad, raised, is_bool, valid_timestamp, unsigned, count_digits, int_of, cast_value,
  non_blank, infer_from, infer_type,
}

-- `ok` of the tuple that `cast_value` returns.
abbrev pub casts : Cast → Bool
casts (ok v) = true
casts (bad reason) = false
casts raised = false

all-true : (ws : List Text) → all (λ w. true) ws ≡ true
all-true [] = refl
all-true (w ∷ ws) = all-true ws

-- `int(v)` does not refuse the text for its length.
abbrev pub IsShort : Runtime → Text → Type 0
IsShort rt v = count_digits rt (unsigned (strip v)) ≤ rt.int_limit

module _ (rt : Runtime) where
  abbrev test : ColType → Text → Bool
  test int8 v = int_re rt v
  test numeric v = num_re rt v
  test boolean v = is_bool rt v
  test date v = date_re rt v && valid_date rt v
  test timestamptz v = valid_timestamp rt v
  test text v = true

  -- The place of a type among the tests.
  abbrev pub rank : ColType → ℕ
  rank int8 = 0
  rank numeric = 1
  rank boolean = 2
  rank date = 3
  rank timestamptz = 4
  rank text = 5

  casts_of_test :
      (t : ColType) (v : Text)
      → IsShort rt v
      → test t (strip v) ≡ true
      → casts (cast_value rt v t) ≡ true
  unfolding cast_value int_of valid_timestamp
  casts_of_test int8 v s h =
      ground (arith, le→leb (count_digits rt (unsigned (strip v))) rt.int_limit s)
  casts_of_test _ v s h = ground arith

  test_of_casts :
      (t : ColType) (v : Text)
      → same (strip v) [] ≡ false
      → casts (cast_value rt v t) ≡ true
      → test t (strip v) ≡ true
  unfolding cast_value int_of valid_timestamp
  test_of_casts int8 v s h = ground arith
  test_of_casts _ v s h = ground arith

  -- The first type of a list that fits every text, else `text`.
  first_fit : List ColType → List Text → ColType
  first_fit [] ws = text
  first_fit (t ∷ ts) ws = let later = first_fit ts ws in if all (test t) ws then t else later

  all-test-first_fit : (ts : List ColType) (ws : List Text) → all (test (first_fit ts ws)) ws ≡ true
  unfolding first_fit
  all-test-first_fit [] ws = all-true ws
  all-test-first_fit (t ∷ ts) ws = elim (Bool-cases (all (test t) ws)) [
    | inl fits ↦ rw fits fits
    | inr not_all ↦ rw not_all (all-test-first_fit ts ws)
  ]

  all-test-infer_from : (ws : List Text) → all (test (infer_from rt ws)) ws ≡ true
  unfolding infer_from first_fit
  all-test-infer_from [] = refl
  all-test-infer_from (w ∷ ws) =
      all-test-first_fit (int8 ∷ numeric ∷ boolean ∷ date ∷ timestamptz ∷ []) (w ∷ ws)

  rank-infer_from :
      (t : ColType) (w : Text) (ws : List Text)
      → all (test t) (w ∷ ws) ≡ true
      → rank (infer_from rt (w ∷ ws)) ≤ rank t
  unfolding infer_from
  rank-infer_from int8 w ws h = ground arith
  rank-infer_from _ w ws h = ground arith

  casts-all :
      (t : ColType) (vs : List Text)
      → All (IsShort rt) vs
      → all (test t) (non_blank vs) ≡ true
      → All (λ v. casts (cast_value rt v t) ≡ true) vs
  unfolding non_blank
  casts-all t [] s h = tt
  casts-all t (v ∷ vs) s h = elim (Bool-cases (same (strip v) [])) [
    | inl blank ↦ (unfold cast_value in rw blank, casts-all t vs s.1 (rw blank at h))
    | inr full ↦
        let h' : all (test t) (strip v ∷ non_blank vs) ≡ true = rw full at h in
        (casts_of_test t v s.0 (ground arith), casts-all t vs s.1 (ground arith))
  ]

  test-all :
      (t : ColType) (vs : List Text)
      → All (λ v. casts (cast_value rt v t) ≡ true) vs
      → all (test t) (non_blank vs) ≡ true
  unfolding non_blank
  test-all t [] h = refl
  test-all t (v ∷ vs) h = elim (Bool-cases (same (strip v) [])) [
    | inl blank ↦ rw blank (test-all t vs h.1)
    | inr full ↦ rw full (ground (arith, test_of_casts t v full h.0, test-all t vs h.1))
  ]

  -- Every value of the sample casts to the type inferred from the sample, if no value is a number
  -- too long for `int`.
  pub cast_value-infer_type :
      (vs : List Text)
      → All (IsShort rt) vs
      → All (λ v. casts (cast_value rt v (infer_type rt vs)) ≡ true) vs
  unfolding infer_type
  cast_value-infer_type vs s = casts-all _ vs s (all-test-infer_from (non_blank vs))

  -- No type that comes earlier among the tests takes every value, unless all values are blank.
  pub rank-infer_type :
      (t : ColType) (vs : List Text)
      → non_blank vs ≢ []
      → All (λ v. casts (cast_value rt v t) ≡ true) vs
      → rank (infer_type rt vs) ≤ rank t
  unfolding infer_type
  rank-infer_type t vs some_value h = narrow (non_blank vs) some_value (test-all t vs h)
    where
      narrow :
          (ws : List Text) → ws ≢ [] → all (test t) ws ≡ true → rank (infer_from rt ws) ≤ rank t
      narrow [] ne k = absurd (ne refl)
      narrow (w ∷ ws) ne k = rank-infer_from t w ws k
