-- ===== src/TeLoader/Rows.antt =====
-- The loop of `upload_te` that casts the rows.
use postgre_data_migration_a.Prelude.{
  ℕ, ◌+◌, Option, none, some, List, [], ◌∷◌, ◌++◌, length, Text, same, if◌then◌else◌,
}
use postgre_data_migration_a.Python.{Runtime, strip}
use postgre_data_migration_a.CsvParse.Types.{ColType}
use postgre_data_migration_a.CsvParse.Cast.{Value, null, str, Cast, ok, cast_value}
use postgre_data_migration_a.CsvParse.Ragged.{
  RowError, beyond_header, extra_cells, ragged_row_reason, report,
}
use postgre_data_migration_a.DynamicLoader.Rows.{
  Cells, done, failed, raises, first_cell, rest_cells, add_cell,
}

-- `{"rowNumber", "column", "value", "reason"}`, or `{"rowNumber", "reason"}` from the database.
pub data TeError : Type 0 where
  of_cell : RowError → TeError
  of_row : ℕ → Text → TeError

-- One cell, with no type where the server casts.
unfoldable pub cast_cell : Runtime → Text → Option ColType → Cast
cast_cell rt cell none = if same cell [] then ok null else ok (str cell)
cast_cell rt cell (some t) = if same cell [] then ok null else cast_value rt cell t

-- `for c, col_type in enumerate(col_types)`.
unfoldable pub cast_cells : Runtime → List Text → List (Option ColType) → List Text → Cells
unfolding cast_cell
cast_cells rt (column ∷ columns) (t ∷ types) raw =
    let later = cast_cells rt columns types (rest_cells raw) in
    let cell = strip (first_cell raw) in add_cell column cell (cast_cell rt cell t) later
cast_cells rt _ _ raw = done [] []

pub record Casting : Type 0 where
  pub to_insert : List (List Value)
  pub row_errors : List TeError
  pub failed_row_count : ℕ

abbrev pub casting : Casting
casting = record { to_insert = []; row_errors = []; failed_row_count = 0 }

abbrev pub fail_row : ℕ → Casting → RowError → Casting
fail_row most s e = record s {
  row_errors = report most s.row_errors (of_cell e);
  failed_row_count = s.failed_row_count + 1;
}

abbrev pub settle : ℕ → Casting → ℕ → Cells → Option Casting
settle most s n (done values cells) = some (record s { to_insert = s.to_insert ++ values ∷ [] })
settle most s n (failed column value reason) =
    some
      (fail_row most s (record { row_number = n; column = column; value = value; reason = reason }))
settle most s n raises = none

abbrev pub check_extra : ℕ → Casting → ℕ → Text → List Text → Cells → Option Casting
check_extra most s n reason [] cells = settle most s n cells
check_extra most s n reason (extra ∷ more) cells = some (
    fail_row most s
      (record { row_number = n; column = beyond_header; value = extra; reason = reason }))

-- One round: row number `n`. `none` is a ValueError of `int`.
unfoldable pub cast_row :
    Runtime → ℕ → List Text → List (Option ColType) → Casting → ℕ → List Text → Option Casting
unfolding cast_cells
cast_row rt most columns types s n raw =
    check_extra most s n (ragged_row_reason raw (length columns)) (extra_cells raw (length columns))
      (cast_cells rt columns types raw)

-- `for r, raw in enumerate(data_rows)`, from row number `n` on.
unfoldable pub cast_rows :
    Runtime
    → ℕ
    → List Text
    → List (Option ColType)
    → Casting
    → ℕ
    → List (List Text)
    → Option Casting
cast_rows rt most columns types s n [] = some s
cast_rows rt most columns types s n (raw ∷ rows) = elim (cast_row rt most columns types s n raw) [
  | none ↦ none
  | some s' ↦ cast_rows rt most columns types s' (n + 1) rows
]
