-- ===== src/CsvParse/Lexer/RoundTrip.antt =====
-- `parse_csv` against a writer: RFC 4180 rows, in which a field may be quoted and must be if it
-- holds a special character. build/csv/validator.py writes such rows with `csv.writer`.
use mathlib.Core.List.{reverse-append, reverse-reverse}
use postgre_data_migration_a.Prelude.{
  ℕ, Bool, true, false, ◌&&◌, ◌||◌, not, List, [], ◌∷◌, ◌++◌, ◌≡◌, ◌≢◌, refl, sym, ap, ◌∙◌, inl,
  inr, arith, append-nil, append_assoc, reverse, All, Text, ◌==◌, ==_iff, if◌then◌else◌, Bool-cases,
}
use postgre_data_migration_a.CsvParse.Lexer.{
  Scan, quote, step, scan, is_blank, bom, drop_bom, drop_blank_rows, parse_csv,
}

-- A character that needs no quotes.
abbrev pub is_plain : ℕ → Bool
is_plain c = not (c == quote || c == b',' || c == b'\r' || c == b'\n' || c == bom)

pub escaped : Text → Text → Text
escaped [] rest = rest
escaped (c ∷ f) rest =
    let tail = escaped f rest in if c == quote then quote ∷ quote ∷ tail else c ∷ tail

module _ (quoted : Text → Bool) (crlf : Bool) where
  abbrev pub field_onto : Text → Text → Text
  field_onto f rest = if quoted f then quote ∷ escaped f (quote ∷ rest) else f ++ rest

  abbrev pub newline : Text → Text
  newline rest = if crlf then b'\r' ∷ b'\n' ∷ rest else b'\n' ∷ rest

  pub row_onto : List Text → Text → Text
  row_onto [] rest = newline rest
  row_onto (f ∷ []) rest = field_onto f (newline rest)
  row_onto (f ∷ g ∷ fs) rest = field_onto f (b',' ∷ row_onto (g ∷ fs) rest)

  unfoldable pub write_csv : List (List Text) → Text
  unfolding row_onto escaped
  write_csv [] = []
  write_csv (r ∷ rs) = row_onto r (write_csv rs)

abbrev at : List (List Text) → List Text → Text → Bool → Scan
at rows row field inside = record { rows = rows; row = row; field = field; in_quotes = inside }

scan-cons :
    (s : Scan) (c : ℕ) (t : Text)
    → (s.in_quotes && c == quote) ≡ false
    → scan s (c ∷ t) ≡ scan (step s c) t
unfolding scan
scan-cons s c [] h = refl
scan-cons s c (d ∷ t) h = ground arith

scan_close :
    (s : Scan) (c : ℕ) (t : Text)
    → (c == quote) ≡ false
    → scan s (quote ∷ c ∷ t) ≡ scan (step s quote) (c ∷ t)
unfolding scan
scan_close s c t h = ground arith

scan_double :
    (rows : List (List Text)) (row : List Text) (field t : Text)
    → scan (at rows row field true) (quote ∷ quote ∷ t)
      ≡ scan (at rows row (field ++ quote ∷ []) true) t
unfolding scan
scan_double rows row field t = refl

scan_inside :
    (rows : List (List Text)) (row : List Text) (field : Text) (d : ℕ) (t : Text)
    → (d == quote) ≡ false
    → scan (at rows row field true) (d ∷ t) ≡ scan (at rows row (field ++ d ∷ []) true) t
unfolding step
scan_inside rows row field d t h = scan-cons (at rows row field true) d t h ∙ rw h

scan-escaped :
    (rows : List (List Text)) (row : List Text) (f field : Text) (c : ℕ) (rest : Text)
    → (c == quote) ≡ false
    → scan (at rows row field true) (escaped f (quote ∷ c ∷ rest))
      ≡ scan (at rows row (field ++ f) false) (c ∷ rest)
unfolding escaped
scan-escaped rows row [] field c rest h =
    scan_close (at rows row field true) c rest h ∙ rw append-nil (unfold step in refl)
scan-escaped rows row (d ∷ f) field c rest h = elim (Bool-cases (d == quote)) [
  | inl doubled ↦ rw doubled (
      scan_double rows row field _
      ∙ scan-escaped rows row f (field ++ quote ∷ []) c rest h
      ∙ rw (append_assoc, (==_iff d quote).0 doubled))
  | inr single ↦ rw single (
      scan_inside rows row field d _ single
      ∙ scan-escaped rows row f (field ++ d ∷ []) c rest h
      ∙ rw append_assoc)
]

step_plain :
    (rows : List (List Text)) (row : List Text) (field : Text) (c : ℕ)
    → is_plain c ≡ true
    → step (at rows row field false) c ≡ at rows row (field ++ c ∷ []) false
unfolding step
step_plain rows row field c h = ground arith

scan_plain :
    (rows : List (List Text)) (row : List Text) (f field rest : Text)
    → All (λ c. is_plain c ≡ true) f
    → scan (at rows row field false) (f ++ rest) ≡ scan (at rows row (field ++ f) false) rest
scan_plain rows row [] field rest h = rw append-nil
scan_plain rows row (c ∷ f) field rest h =
    scan-cons (at rows row field false) c (f ++ rest) refl
    ∙ rw (step_plain rows row field c h.0)
        (scan_plain rows row f (field ++ c ∷ []) rest h.1 ∙ rw append_assoc)

step_comma :
    (rows : List (List Text)) (row : List Text) (f : Text)
    → step (at rows row f false) b',' ≡ at rows (row ++ f ∷ []) [] false
unfolding step
step_comma rows row f = refl

-- Each field that the writer leaves unquoted is plain.
abbrev pub IsSafe : (Text → Bool) → Text → Type 0
IsSafe quoted f = quoted f ≡ false → All (λ c. is_plain c ≡ true) f

module _ (quoted : Text → Bool) (crlf : Bool) where
  scan-field_onto :
      (rows : List (List Text)) (row : List Text) (f : Text) (c : ℕ) (rest : Text)
      → IsSafe quoted f
      → (c == quote) ≡ false
      → scan (at rows row [] false) (field_onto quoted crlf f (c ∷ rest))
        ≡ scan (at rows row f false) (c ∷ rest)
  scan-field_onto rows row f c rest safe h = elim (Bool-cases (quoted f)) [
    | inl q ↦ rw q (
        scan-cons (at rows row [] false) quote _ refl
        ∙ unfold step in scan-escaped rows row f [] c rest h)
    | inr q ↦ rw q (scan_plain rows row f [] (c ∷ rest) (safe q))
  ]

  scan-newline :
      (rows : List (List Text)) (row : List Text) (f rest : Text)
      → IsSafe quoted f
      → scan (at rows row [] false) (field_onto quoted crlf f (newline quoted crlf rest))
        ≡ scan (at (rows ++ (row ++ f ∷ []) ∷ []) [] [] false) rest
  unfolding step
  scan-newline rows row f rest safe = elim (Bool-cases crlf) [
    | inl e ↦ rw e (
        scan-field_onto rows row f b'\r' (b'\n' ∷ rest) safe refl
        ∙ scan-cons (at rows row f false) b'\r' (b'\n' ∷ rest) refl
        ∙ scan-cons (at rows row f false) b'\n' rest refl)
    | inr e ↦ rw e (
        scan-field_onto rows row f b'\n' rest safe refl
        ∙ scan-cons (at rows row f false) b'\n' rest refl)
  ]

  scan-row_onto :
      (rows : List (List Text)) (row : List Text) (f : Text) (fs : List Text) (rest : Text)
      → All (IsSafe quoted) (f ∷ fs)
      → scan (at rows row [] false) (row_onto quoted crlf (f ∷ fs) rest)
        ≡ scan (at (rows ++ (row ++ f ∷ fs) ∷ []) [] [] false) rest
  unfolding row_onto
  scan-row_onto rows row f [] rest safe = scan-newline rows row f rest safe.0
  scan-row_onto rows row f (g ∷ fs) rest safe =
      scan-field_onto rows row f b',' _ safe.0 refl
      ∙ scan-cons (at rows row f false) b',' _ refl
      ∙ rw (step_comma rows row f)
          (scan-row_onto rows (row ++ f ∷ []) g fs rest safe.1 ∙ rw append_assoc)

  -- The rows that the writer can express: those with a field.
  abbrev pub IsRow : List Text → Type 0
  IsRow r = (r ≢ []) × All (IsSafe quoted) r

  scan-write_csv :
      (done rs : List (List Text))
      → All IsRow rs
      → scan (at done [] [] false) (write_csv quoted crlf rs) ≡ at (done ++ rs) [] [] false
  unfolding write_csv
  scan-write_csv done [] h = rw append-nil (unfold scan in refl)
  scan-write_csv done ([] ∷ rs) h = absurd (h.0.0 refl)
  scan-write_csv done ((f ∷ fs) ∷ rs) h =
      scan-row_onto done [] f fs _ h.0.1
      ∙ scan-write_csv (done ++ (f ∷ fs) ∷ []) rs h.1
      ∙ rw append_assoc

  drop_bom-field_onto :
      (f : Text) (c : ℕ) (rest : Text)
      → IsSafe quoted f
      → (c == bom) ≡ false
      → drop_bom (field_onto quoted crlf f (c ∷ rest)) ≡ field_onto quoted crlf f (c ∷ rest)
  unfolding drop_bom
  drop_bom-field_onto [] c rest safe h = ground arith
  drop_bom-field_onto (d ∷ f) c rest safe h = elim (Bool-cases (quoted (d ∷ f))) [
    | inl q ↦ rw q
    | inr q ↦ rw q (ground (arith, (safe q).0))
  ]

  drop_bom-write_csv :
      (rs : List (List Text))
      → All IsRow rs
      → drop_bom (write_csv quoted crlf rs) ≡ write_csv quoted crlf rs
  unfolding write_csv row_onto
  drop_bom-write_csv [] h = unfold drop_bom in refl
  drop_bom-write_csv ([] ∷ rs) h = absurd (h.0.0 refl)
  drop_bom-write_csv ((f ∷ []) ∷ rs) h = elim (Bool-cases crlf) [
    | inl e ↦ rw e (drop_bom-field_onto f b'\r' _ h.0.1.0 refl)
    | inr e ↦ rw e (drop_bom-field_onto f b'\n' _ h.0.1.0 refl)
  ]
  drop_bom-write_csv ((f ∷ g ∷ fs) ∷ rs) h = drop_bom-field_onto f b',' _ h.0.1.0 refl

  -- Parsing what the writer wrote gives the rows, less the blank ones at the end.
  pub parse_csv-write_csv :
      (rs : List (List Text))
      → All IsRow rs
      → parse_csv (write_csv quoted crlf rs) ≡ drop_blank_rows rs
  unfolding parse_csv
  parse_csv-write_csv rs h = rw (drop_bom-write_csv rs h) (rw (scan-write_csv [] rs h) refl)

-- Nothing is dropped if the last row is not blank.
pub drop_blank_rows-concat :
    (rs : List (List Text)) (r : List Text)
    → is_blank r ≡ false
    → drop_blank_rows (rs ++ r ∷ []) ≡ rs ++ r ∷ []
unfolding drop_blank_rows
drop_blank_rows-concat rs r h =
    rw (reverse-append rs (r ∷ []))
      (rw h (ap reverse (sym (reverse-append rs (r ∷ []))) ∙ reverse-reverse (rs ++ r ∷ [])))
