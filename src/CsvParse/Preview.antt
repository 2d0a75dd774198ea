-- ===== src/CsvParse/Preview.antt =====
-- `build_preview`.
pub mod Consistent
use postgre_data_migration_a.Prelude.{
  ℕ, zero, suc, ◌+◌, ◌-◌, Bool, List, [], ◌∷◌, ◌++◌, map, all, length, take, get_or, replicate,
  Text, same, if◌then◌else◌,
}
use postgre_data_migration_a.Python.{Runtime, strip}
use postgre_data_migration_a.CsvParse.Lexer.{parse_csv}
use postgre_data_migration_a.CsvParse.Columns.{sanitize_columns}
use postgre_data_migration_a.CsvParse.Types.{ColType}
use postgre_data_migration_a.CsvParse.Cast.{infer_type}

pub data Reason : Type 0 where
  empty header_only no_columns : Reason

pub record Table : Type 0 where
  pub headers : List Text
  pub columns : List Text
  pub inferred_types : List ColType
  pub sample_rows : List (List Text)
  pub total_rows : ℕ

pub data Preview : Type 0 where
  invalid_structure : Reason → Preview
  ok : Table → Preview

-- `(c or "").strip() == ""`.
abbrev pub is_blank_cell : Text → Bool
is_blank_cell c = same (strip c) []

-- `[r[c] if c < len(r) else "" for r in rows]`.
abbrev pub column_cells : ℕ → List (List Text) → List Text
column_cells c rows = map (λ r. get_or r c []) rows

-- `for c in range(ncols)`, from `c` on with `n` columns to go.
unfoldable pub infer_columns : Runtime → List (List Text) → ℕ → ℕ → List ColType
infer_columns rt rows c zero = []
infer_columns rt rows c (suc n) =
    infer_type rt (column_cells c rows) ∷ infer_columns rt rows (c + 1) n

-- `r[:ncols] + [""] * (ncols - len(r))`.
abbrev pub pad_row : ℕ → List Text → List Text
pad_row ncols r = take ncols r ++ replicate (ncols - length r) []

unfoldable pub table_of : Runtime → ℕ → ℕ → List Text → List (List Text) → Table
unfolding infer_columns
table_of rt sample_rows infer_rows headers rows =
    let columns = sanitize_columns rt headers in
    record {
      headers = headers;
      columns = columns;
      inferred_types = infer_columns rt (take infer_rows rows) 0 (length columns);
      sample_rows = map (pad_row (length columns)) (take sample_rows rows);
      total_rows = length rows;
    }

preview_rows : Runtime → ℕ → ℕ → List (List Text) → Preview
unfolding table_of
preview_rows rt sample_rows infer_rows [] = invalid_structure empty
preview_rows rt sample_rows infer_rows (header ∷ []) = invalid_structure header_only
preview_rows rt sample_rows infer_rows (header ∷ r ∷ rows) =
    if all is_blank_cell header
    then invalid_structure no_columns
    else ok (table_of rt sample_rows infer_rows header (r ∷ rows))

unfoldable pub build_preview : Runtime → ℕ → ℕ → Text → Preview
unfolding preview_rows
build_preview rt sample_rows infer_rows content =
    preview_rows rt sample_rows infer_rows (parse_csv content)
