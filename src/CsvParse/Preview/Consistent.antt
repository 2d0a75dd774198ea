-- ===== src/CsvParse/Preview/Consistent.antt =====
-- api/services/csv_parse.py: the parts of a preview, and the casts that an upload makes.
use postgre_data_migration_a.Prelude.{
  ℕ, zero, suc, ◌+◌, ◌-◌, ◌<◌, true, List, [], ◌∷◌, ◌≡◌, refl, sym, subst, ap, ◌∙◌, inl, inr, arith,
  map, all, length, length-take, length-append, length-replicate, take, get_or, replicate, All,
  Text, Bool-cases,
}
use postgre_data_migration_a.Python.{Runtime}
use postgre_data_migration_a.CsvParse.Lexer.{parse_csv}
use postgre_data_migration_a.CsvParse.Columns.{sanitize_columns}
use postgre_data_migration_a.CsvParse.Columns.Identifiers.{length-sanitize_columns}
use postgre_data_migration_a.CsvParse.Types.{ColType, text}
use postgre_data_migration_a.CsvParse.Cast.{cast_value, infer_type}
use postgre_data_migration_a.CsvParse.Cast.Infer.{casts, IsShort, cast_value-infer_type}
use postgre_data_migration_a.CsvParse.Preview.{
  Table, Preview, invalid_structure, ok, is_blank_cell, column_cells, infer_columns, pad_row,
  table_of, preview_rows, build_preview,
}

-- Each part of the preview has the width of the header.
pub record IsAligned (t : Table) : Type 0 where
  pub columns : length t.columns ≡ length t.headers
  pub types : length t.inferred_types ≡ length t.headers
  pub rows : All (λ r. length r ≡ length t.headers) t.sample_rows

length-infer_columns :
    (rt : Runtime) (rows : List (List Text)) (c n : ℕ) → length (infer_columns rt rows c n) ≡ n
unfolding infer_columns
length-infer_columns rt rows c zero = refl
length-infer_columns rt rows c (suc n) = ap suc (length-infer_columns rt rows (c + 1) n)

length-pad_row : (n : ℕ) (r : List Text) → length (pad_row n r) ≡ n
length-pad_row n r = omega (
  arith,
  length-append (take n r) (replicate (n - length r) []),
  length-take n r,
  length-replicate {A = Text} (n - length r) [],
)

All-pad_row :
    (n m : ℕ) (rows : List (List Text)) → n ≡ m → All (λ r. length r ≡ m) (map (pad_row n) rows)
All-pad_row n m [] e = tt
All-pad_row n m (r ∷ rows) e = (length-pad_row n r ∙ e, All-pad_row n m rows e)

table_of-IsAligned :
    (rt : Runtime) (s i : ℕ) (headers : List Text) (rows : List (List Text))
    → IsAligned (table_of rt s i headers rows)
unfolding table_of
table_of-IsAligned rt s i headers rows = record {
  columns = length-sanitize_columns rt headers;
  types = length-infer_columns rt (take i rows) 0 _ ∙ length-sanitize_columns rt headers;
  rows = All-pad_row _ _ (take s rows) (length-sanitize_columns rt headers);
}

-- The cells of column `c` of the rows cast to the type that the preview shows for it.
abbrev pub Fits : Runtime → List (List Text) → List ColType → ℕ → Type 0
Fits rt rows types c =
    All (λ cell. casts (cast_value rt cell (get_or types c text)) ≡ true) (column_cells c rows)

infer_columns-get_or :
    (rt : Runtime) (rows : List (List Text)) (c n k : ℕ)
    → k < n
    → get_or (infer_columns rt rows c n) k text ≡ infer_type rt (column_cells (c + k) rows)
unfolding infer_columns
infer_columns-get_or rt rows c zero k h = elim h [ ]
infer_columns-get_or rt rows c (suc n) zero h =
    ap (λ i. infer_type rt (column_cells i rows)) (omega arith)
infer_columns-get_or rt rows c (suc n) (suc k) h =
    infer_columns-get_or rt rows (c + 1) n k (omega arith)
    ∙ ap (λ i. infer_type rt (column_cells i rows)) (omega arith)

table_of-Fits :
    (rt : Runtime) (s i : ℕ) (headers : List Text) (rows : List (List Text)) (c : ℕ)
    → c < length headers
    → All (IsShort rt) (column_cells c (take i rows))
    → Fits rt (take i rows) (table_of rt s i headers rows).inferred_types c
unfolding table_of
table_of-Fits rt s i headers rows c lt short =
    let shown : get_or (infer_columns rt (take i rows) 0 (length (sanitize_columns rt headers))) c
          text
        ≡ infer_type rt (column_cells c (take i rows)) =
      infer_columns-get_or rt (take i rows) 0 _ c
        (omega (arith, length-sanitize_columns rt headers))
      ∙ ap (λ k. infer_type rt (column_cells k (take i rows))) (omega arith) in
    subst (λ t. All (λ cell. casts (cast_value rt cell t) ≡ true) (column_cells c (take i rows)))
      (sym shown) (cast_value-infer_type rt (column_cells c (take i rows)) short)

-- `p` holds of the table that a preview shows, if it shows one.
abbrev pub Shows : (Table → Type 0) → Preview → Type 0
Shows p (invalid_structure reason) = Unit
Shows p (ok t) = p t

preview_rows-Shows :
    (rt : Runtime) (s i : ℕ) (p : Table → Type 0) (rows : List (List Text))
    → ((header : List Text) (data_rows : List (List Text))
        → rows ≡ header ∷ data_rows
        → p (table_of rt s i header data_rows))
    → Shows p (preview_rows rt s i rows)
unfolding preview_rows
preview_rows-Shows rt s i p [] h = tt
preview_rows-Shows rt s i p (header ∷ []) h = tt
preview_rows-Shows rt s i p (header ∷ r ∷ rows) h = elim (Bool-cases (all is_blank_cell header)) [
  | inl blank ↦ rw blank tt
  | inr named ↦ rw named (h header (r ∷ rows) refl)
]

-- A preview has as many columns, types and sample cells in each row as headers.
pub build_preview-IsAligned :
    (rt : Runtime) (s i : ℕ) (content : Text) → Shows IsAligned (build_preview rt s i content)
unfolding build_preview
build_preview-IsAligned rt s i content =
    preview_rows-Shows rt s i IsAligned (parse_csv content)
      (λ header rows e. table_of-IsAligned rt s i header rows)

-- In the rows that the preview looks at, each cell casts to the type that it shows for the column,
-- if no cell is a number too long for `int`.
pub build_preview-Fits :
    (rt : Runtime) (s i c : ℕ) (content : Text) (header : List Text) (rows : List (List Text))
    → parse_csv content ≡ header ∷ rows
    → c < length header
    → All (IsShort rt) (column_cells c (take i rows))
    → Shows (λ t. Fits rt (take i rows) t.inferred_types c) (build_preview rt s i content)
unfolding build_preview
build_preview-Fits rt s i c content header rows e lt short =
    preview_rows-Shows rt s i _ (parse_csv content) (λ header' rows' e'.
      let same_header : header ≡ header' = cc (e, e') in
      let same_rows : rows' ≡ rows = cc (e, e') in
      let lt' : c < length header' = subst (λ g. c < length g) same_header lt in
      let short' : All (IsShort rt) (column_cells c (take i rows')) =
        subst (λ r. All (IsShort rt) (column_cells c (take i r))) (sym same_rows) short in
      subst (λ r. Fits rt (take i r) (table_of rt s i header' rows').inferred_types c) same_rows
        (table_of-Fits rt s i header' rows' c lt' short'))
