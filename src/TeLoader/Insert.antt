-- ===== src/TeLoader/Insert.antt =====
-- The INSERTs of `upload_te`: a chunk at once behind a savepoint, and row by row where it fails.
use postgre_data_migration_a.Prelude.{
  ℕ, zero, suc, ◌+◌, Bool, List, [], ◌∷◌, ◌++◌, length, take, drop, Option, none, some, Text,
  if◌then◌else◌,
}
use postgre_data_migration_a.CsvParse.Cast.{Value}
use postgre_data_migration_a.CsvParse.Ragged.{report}
use postgre_data_migration_a.TeLoader.Rows.{TeError, of_row}

abbrev pub TeRow : Type 0
TeRow = List Value

-- What the server says of its schema, and of INSERTs: `refuses stored r` is the first line of the
-- error of the INSERT of one row, if it fails, and `takes_all stored rows` whether
-- `execute_values` succeeds.
pub record TeServer : Type 0 where
  pub table_columns : Text → List Text
  pub pg_type : Text → Text → Text
  pub refuses : List TeRow → TeRow → Option Text
  pub takes_all : List TeRow → List TeRow → Bool

-- The target table with the counters.
pub record Loading : Type 0 where
  pub stored : List TeRow
  pub inserted : ℕ
  pub failed_row_count : ℕ
  pub row_errors : List TeError

-- One row behind `SAVEPOINT row_sp`, reported as row `n`.
abbrev pub settle_row : ℕ → Loading → ℕ → TeRow → Option Text → Loading
settle_row most s n r none = record s { stored = s.stored ++ r ∷ []; inserted = s.inserted + 1 }
settle_row most s n r (some reason) = record s {
  failed_row_count = s.failed_row_count + 1;
  row_errors = report most s.row_errors (of_row n reason);
}

-- `for i, values in enumerate(chunk)`, where `n` is `start + i`.
unfoldable pub insert_each : TeServer → ℕ → Loading → ℕ → List TeRow → Loading
insert_each server most s n [] = s
insert_each server most s n (r ∷ rows) =
    insert_each server most (settle_row most s (n + 1) r (server.refuses s.stored r)) (n + 1) rows

-- A chunk behind `SAVEPOINT chunk_sp`, from `start` on.
unfoldable pub insert_chunk : TeServer → ℕ → Loading → ℕ → List TeRow → Loading
unfolding insert_each
insert_chunk server most s start chunk =
    if server.takes_all s.stored chunk
    then record s { stored = s.stored ++ chunk; inserted = s.inserted + length chunk }
    else insert_each server most s start chunk

-- `for start in range(0, len(to_insert), chunk_size)`; the fuel bounds the rounds.
unfoldable pub insert_chunks : TeServer → ℕ → ℕ → ℕ → Loading → ℕ → List TeRow → Loading
unfolding insert_chunk
insert_chunks server most size fuel s start [] = s
insert_chunks server most size zero s start (r ∷ rows) = s
insert_chunks server most size (suc fuel) s start (r ∷ rows) =
    insert_chunks server most size fuel (insert_chunk server most s start (take size (r ∷ rows)))
      (start + size) (drop size (r ∷ rows))
