-- ===== src/DynamicLoader/Rows.antt =====
-- The loop of `_do_upload` that casts the rows, with the row hash and the three counters.
pub mod Accounting
pub mod Hashing
use postgre_data_migration_a.Prelude.{
  ℕ, ◌+◌, Option, none, some, List, [], ◌∷◌, ◌++◌, length, Text, member, if◌then◌else◌,
}
use postgre_data_migration_a.Python.{Runtime}
use postgre_data_migration_a.CsvParse.Types.{ColType}
use postgre_data_migration_a.CsvParse.Cast.{Value, Cast, ok, bad, raised, cast_value}
use postgre_data_migration_a.CsvParse.Ragged.{
  RowError, beyond_header, extra_cells, ragged_row_reason, report,
}

-- What the inner loop over the columns ends with: `values` and `raw_joined`, the error of the cell
-- at which it breaks, or the ValueError of `int`.
pub data Cells : Type 0 where
  done : List Value → List Text → Cells
  failed : Text → Text → Text → Cells
  raises : Cells

-- `raw[c] if c < len(raw) else ""`, and what is left of the row.
abbrev pub first_cell : List Text → Text
first_cell [] = []
first_cell (c ∷ cs) = c

abbrev pub rest_cells : List Text → List Text
rest_cells [] = []
rest_cells (c ∷ cs) = cs

abbrev pub put_cell : Value → Text → Cells → Cells
put_cell v cell (done vs cells) = done (v ∷ vs) (cell ∷ cells)
put_cell v cell (failed column value reason) = failed column value reason
put_cell v cell raises = raises

-- The round for one column, in front of the rounds for the later ones.
abbrev pub add_cell : Text → Text → Cast → Cells → Cells
add_cell column cell (ok v) later = put_cell v cell later
add_cell column cell (bad reason) later = failed column cell reason
add_cell column cell raised later = raises

-- `for c in range(len(columns))`. There is a type for each column.
unfoldable pub cast_cells : Runtime → List Text → List ColType → List Text → Cells
cast_cells rt (column ∷ columns) (t ∷ types) raw =
    let later = cast_cells rt columns types (rest_cells raw) in
    add_cell column (first_cell raw) (cast_value rt (first_cell raw) t) later
cast_cells rt _ _ raw = done [] []

-- `"\x1f".join(cells)`.
unfoldable pub join_cells : List Text → Text
join_cells [] = []
join_cells (c ∷ []) = c
join_cells (c ∷ d ∷ cells) = c ++ (0x1f ∷ join_cells (d ∷ cells))

-- A row of `to_insert`: the values, and the row hash behind them.
pub record Row : Type 0 where
  pub values : List Value
  pub row_hash : Text

pub record Casting : Type 0 where
  pub seen : List Text
  pub to_insert : List Row
  pub row_errors : List RowError
  pub failed_row_count : ℕ
  pub duplicates : ℕ

abbrev pub fail_row : ℕ → Casting → RowError → Casting
fail_row most s e = record s {
  row_errors = report most s.row_errors e;
  failed_row_count = s.failed_row_count + 1;
}

-- The end of the round, at the row hash `h`.
unfoldable pub keep_row : Casting → List Value → Text → Casting
keep_row s values h =
    if member h s.seen then record s { duplicates = s.duplicates + 1 } else record s {
      seen = h ∷ s.seen;
      to_insert = s.to_insert ++ record { values = values; row_hash = h } ∷ [];
    }

abbrev pub settle : Runtime → ℕ → Casting → ℕ → Cells → Option Casting
settle rt most s n (done values cells) = some (keep_row s values (rt.sha256 (join_cells cells)))
settle rt most s n (failed column value reason) =
    some
      (fail_row most s (record { row_number = n; column = column; value = value; reason = reason }))
settle rt most s n raises = none

-- `if extra:`, with the reason for a row that is too wide, and what the other branch uses.
abbrev pub check_extra : Runtime → ℕ → Casting → ℕ → Text → List Text → Cells → Option Casting
check_extra rt most s n reason [] cells = settle rt most s n cells
check_extra rt most s n reason (extra ∷ more) cells = some (
    fail_row most s
      (record { row_number = n; column = beyond_header; value = extra; reason = reason }))

-- One round: row number `n`, cells `raw`. `none` is the ValueError, which ends the request.
unfoldable pub cast_row :
    Runtime → ℕ → List Text → List ColType → Casting → ℕ → List Text → Option Casting
unfolding keep_row
cast_row rt most columns types s n raw =
    check_extra rt most s n (ragged_row_reason raw (length columns))
      (extra_cells raw (length columns)) (cast_cells rt columns types raw)

infixl 5 ◌>>=◌
abbrev pub ◌>>=◌ : Option Casting → (Casting → Option Casting) → Option Casting
none >>= f = none
some s >>= f = f s

-- `for r, raw in enumerate(data_rows)`, from row number `n` on.
unfoldable pub cast_rows :
    Runtime → ℕ → List Text → List ColType → Casting → ℕ → List (List Text) → Option Casting
cast_rows rt most columns types s n [] = some s
cast_rows rt most columns types s n (raw ∷ rows) =
    cast_row rt most columns types s n raw >>= λ s'. cast_rows rt most columns types s' (n + 1) rows

abbrev pub casting : Casting
casting = record {
  seen = [];
  to_insert = [];
  row_errors = [];
  failed_row_count = 0;
  duplicates = 0;
}
