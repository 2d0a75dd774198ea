-- ===== src/Review/Rows.antt =====
-- `_upload`, `_validate`, `_latest` and `_rows` of api/services/review.py, on the tables of
-- alembic/versions/0007 and 0008.
use postgre_data_migration_a.Prelude.{
  ℕ, zero, suc, ◌+◌, Bool, true, false, ◌&&◌, Option, none, some, List, [], ◌∷◌, ◌++◌, length, take,
  drop, replicate, get_elem?, Text, codes, ◌==◌, if◌then◌else◌,
}
use postgre_data_migration_a.Python.{Runtime}
use postgre_data_migration_a.CsvParse.Types.{ColType, text}
use postgre_data_migration_a.CsvParse.Cast.{Cast, ok, bad, raised, cast_value}
use postgre_data_migration_a.CsvParse.Columns.{sanitize_columns}
use postgre_data_migration_a.CsvParse.Ragged.{beyond_header, extra_cells, ragged_row_reason}
use postgre_data_migration_a.Audit

-- A row of `uploads` with its `source_rows`: row number 0 is the header, if there is one.
pub record Upload : Type 0 where
  pub id : ℕ
  pub file_name : Text
  pub columns : Option (List Text)
  pub column_types : Option (List ColType)
  pub source : List (List Text)

pub record Decision : Type 0 where
  pub upload_id : ℕ
  pub row_number : ℕ
  pub decision : Text
  pub reason : Text
  pub actor : Option Text
  pub at : ℕ

pub record Edit : Type 0 where
  pub upload_id : ℕ
  pub row_number : ℕ
  pub column_index : ℕ
  pub old_value : Text
  pub new_value : Text
  pub reason : Text
  pub actor : Option Text
  pub at : ℕ

pub record Store : Type 0 where
  pub uploads : List Upload
  pub decisions : List Decision
  pub edits : List Edit
  pub audit : List Audit.Row

unfoldable pub find_upload : ℕ → List Upload → Option Upload
find_upload id [] = none
find_upload id (u ∷ us) = if u.id == id then some u else find_upload id us

pub record Meta : Type 0 where
  pub file_name : Text
  pub columns : List Text
  pub types : List ColType
  pub total : ℕ

abbrev pub header_of : List (List Text) → List Text
header_of [] = []
header_of (header ∷ rows) = header

-- `columns or sanitize_columns(header or [])`.
abbrev pub columns_of : Runtime → Upload → Option (List Text) → List Text
columns_of rt u none = sanitize_columns rt (header_of u.source)
columns_of rt u (some []) = sanitize_columns rt (header_of u.source)
columns_of rt u (some (c ∷ columns)) = c ∷ columns

-- `types if types and len(types) == len(columns) else ["text"] * len(columns)`.
abbrev pub types_of : List Text → Option (List ColType) → List ColType
types_of columns none = replicate (length columns) text
types_of columns (some types) =
    if length types == length columns then types else replicate (length columns) text

unfoldable pub meta_of : Runtime → Upload → Meta
meta_of rt u = record {
  file_name = u.file_name;
  columns = columns_of rt u u.columns;
  types = types_of (columns_of rt u u.columns) u.column_types;
  total = length (drop 1 u.source);
}

-- `{"column": …, "value": …, "reason": …}`.
pub record Issue : Type 0 where
  pub column : Text
  pub value : Text
  pub reason : Text

-- The round for one cell, in front of the later ones; `none` is a ValueError of `int`.
abbrev pub add_issue : Text → Text → Cast → Option (List Issue) → Option (List Issue)
add_issue name value (ok v) rest = rest
add_issue name value (bad reason) none = none
add_issue name value (bad reason) (some issues) =
    some (record { column = name; value = value; reason = reason } ∷ issues)
add_issue name value raised rest = none

-- `for name, value, col_type in zip(columns, cells, types)`.
unfoldable pub cell_issues : Runtime → List Text → List Text → List ColType → Option (List Issue)
cell_issues rt (name ∷ columns) (value ∷ cells) (t ∷ types) =
    let rest = cell_issues rt columns cells types in
    add_issue name value (cast_value rt value t) rest
cell_issues rt _ _ _ = some []

abbrev pub add_extra : Text → List Text → Option (List Issue) → Option (List Issue)
add_extra reason [] issues = issues
add_extra reason (extra ∷ more) none = none
add_extra reason (extra ∷ more) (some issues) =
    some (record { column = beyond_header; value = extra; reason = reason } ∷ issues)

-- `_validate`.
unfoldable pub validate :
    Runtime → List Text → List Text → List Text → List ColType → Option (List Issue)
unfolding cell_issues
validate rt cells raw columns types =
    add_extra (ragged_row_reason raw (length columns)) (extra_cells raw (length columns))
      (cell_issues rt columns cells types)

-- The current decision of a row.
unfoldable pub latest_decision : ℕ → ℕ → List Decision → Option Decision
latest_decision id n [] = none
latest_decision id n (d ∷ ds) =
    if d.upload_id == id && d.row_number == n then some d else latest_decision id n ds

-- The current value of an edited cell.
unfoldable pub latest_edit : ℕ → ℕ → ℕ → List Edit → Option Text
latest_edit id n c [] = none
latest_edit id n c (e ∷ es) =
    if e.upload_id == id && (e.row_number == n && e.column_index == c)
    then some e.new_value
    else latest_edit id n c es

abbrev pub or_value : Option Text → Text → Text
or_value none v = v
or_value (some w) v = w

-- `[edits.get(n, {}).get(c, v) for c, v in enumerate(original)]`, from column `c` on.
unfoldable pub current_cells : ℕ → ℕ → List Edit → ℕ → List Text → List Text
unfolding latest_edit
current_cells id n edits c [] = []
current_cells id n edits c (v ∷ original) =
    or_value (latest_edit id n c edits) v ∷ current_cells id n edits (c + 1) original

abbrev pub is_some {ℓ} : {A : Type ℓ} → Option A → Bool
is_some none = false
is_some (some a) = true

-- `sorted(edits.get(n, {}))`: only columns of the header are edited.
unfoldable pub edited_from : ℕ → ℕ → List Edit → ℕ → ℕ → List ℕ
unfolding latest_edit
edited_from id n edits c zero = []
edited_from id n edits c (suc width) =
    let rest = edited_from id n edits (c + 1) width in
    if is_some (latest_edit id n c edits) then c ∷ rest else rest

pub record View : Type 0 where
  pub row_number : ℕ
  pub original : List Text
  pub current : List Text
  pub edited_columns : List ℕ
  pub decision : Text
  pub decision_reason : Option Text
  pub errors : List Issue

-- `(list(raw) + [""] * width)[:width]`.
abbrev pub original_of : ℕ → List Text → List Text
original_of width raw = take width (raw ++ replicate width [])

abbrev pub decision_of : Option Decision → Text
decision_of none = codes "include"
decision_of (some d) = d.decision

abbrev pub decision_reason_of : Option Decision → Option Text
decision_reason_of none = none
decision_reason_of (some d) = some d.reason

abbrev pub with_issues : View → Option (List Issue) → Option View
with_issues v none = none
with_issues v (some issues) = some (record v { errors = issues })

-- The dictionary of a row, with no errors yet.
abbrev pub bare_view : Store → ℕ → Meta → ℕ → List Text → View
bare_view s id meta n raw =
    let original = original_of (length meta.columns) raw in
    let latest = latest_decision id n s.decisions in
    record {
      row_number = n;
      original = original;
      current = current_cells id n s.edits 0 original;
      edited_columns = edited_from id n s.edits 0 (length meta.columns);
      decision = decision_of latest;
      decision_reason = decision_reason_of latest;
      errors = [];
    }

-- One round of `_rows`.
unfoldable pub view_row : Runtime → Store → ℕ → Meta → ℕ → List Text → Option View
unfolding current_cells edited_from latest_decision validate
view_row rt s id meta n raw =
    let bare = bare_view s id meta n raw in
    with_issues bare (validate rt bare.current raw meta.columns meta.types)

abbrev pub put_view : Option View → Option (List View) → Option (List View)
put_view (some v) (some vs) = some (v ∷ vs)
put_view _ _ = none

-- `_rows`, on rows that are numbered from `n` on.
unfoldable pub view_rows : Runtime → Store → ℕ → Meta → ℕ → List (List Text) → Option (List View)
unfolding view_row
view_rows rt s id meta n [] = some []
view_rows rt s id meta n (raw ∷ rows) =
    put_view (view_row rt s id meta n raw) (view_rows rt s id meta (n + 1) rows)

-- The row of a number: `row_number = ANY(…)`.
abbrev pub source_row : Upload → ℕ → Option (List Text)
source_row u n = get_elem? u.source n
