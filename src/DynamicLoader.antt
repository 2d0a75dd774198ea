-- ===== src/DynamicLoader.antt =====
-- api/services/dynamic_loader.py: `upload_dynamic` and `_do_upload`. The log entries of the
-- result are left out. A request ends with its result and the database behind it; a result that
-- is returned early has no database, and `conclude` gives back the old one. Session has the
-- connection with its commit and its rollbacks written out, and shows that this is what they leave.
pub mod Rows
pub mod Result
pub mod Flows
pub mod Atomic
pub mod Session
pub mod Stages
pub mod Counts
pub mod Checks
use postgre_data_migration_a.Prelude.{
  ℕ, suc, ◌+◌, ◌-◌, Bool, true, false, ◌&&◌, ◌||◌, not, Option, none, some, List, [], ◌∷◌, ◌++◌,
  map, any, all, take, length, replicate, Text, codes, same, same_texts, member, distinct, ltb,
  ◌==◌, if◌then◌else◌,
}
use postgre_data_migration_a.Python.{Runtime}
use postgre_data_migration_a.Config.{Settings}
use postgre_data_migration_a.CsvParse.Lexer.{parse_csv}
use postgre_data_migration_a.CsvParse.Columns.{sanitize_columns, valid_identifier}
use postgre_data_migration_a.CsvParse.Types.{ColType, text, allowed_type}
use postgre_data_migration_a.CsvParse.Preview.{empty, header_only, no_columns, is_blank_cell}
use postgre_data_migration_a.Registry.{
  CsvFile, dynamic, Table, Db, Server, Others, find_file, find_table, set_table, by_name, by_hash,
  clashes, csv_prefix, remove_file, register, insert_chunks,
}
use postgre_data_migration_a.DynamicLoader.Rows.{Row, Casting, casting, cast_rows}
use postgre_data_migration_a.DynamicLoader.Result.{
  DupReason, name, content, Problem, too_many_rows, no_usable_columns, duplicate_column,
  bad_identifiers, wrong_type_count, unsupported_type, nothing_imported, database_error, Loaded,
  Upload, invalid_structure, error, duplicate_file, ok, crashed, Flow, go, stop, ◌>>=◌, or_stop,
}
use postgre_data_migration_a.DynamicLoader.Checks.{
  Request, table_of, existing, Work, check_duplicates, check_columns, check_types, create_table,
  check_some, chunk_size,
}

-- What the transaction has made in front of the INSERT into the registry.
pub record Prepared : Type 0 where
  pub db : Db
  pub replaced : Option Text
  pub columns : List Text
  pub types : List ColType
  pub cast : Casting
  pub inserted : ℕ

-- The rows into the table.
unfoldable pub fill :
    Runtime
    → Settings
    → Server
    → Request
    → List (List Text)
    → Work
    → List Text
    → List ColType
    → Table
    → Flow Prepared
unfolding check_some
fill rt settings server req rows w columns types table = do
  s ← or_stop crashed (cast_rows rt settings.max_row_errors columns types casting 1 rows)
  cast ← check_some (length rows) columns types s
  filled ← or_stop (error database_error) (
      insert_chunks server table.types chunk_size (length cast.to_insert) table.rows cast.to_insert
        0)
  go (record {
    db = record (w.db) {
      tables = set_table (table_of req) (record table { rows = filled.0 }) w.db.tables;
    };
    replaced = w.replaced;
    columns = columns;
    types = types;
    cast = cast;
    inserted = filled.1;
  })

unfoldable pub prepare :
    Runtime
    → Settings
    → Server
    → Others
    → Request
    → List Text
    → List (List Text)
    → Db
    → Flow Prepared
unfolding check_duplicates check_columns check_types create_table fill
prepare rt settings server others req header rows db = do
  w ← check_duplicates req (record { db = db; replaced = none })
  columns ← check_columns (sanitize_columns rt header)
  types ← check_types columns req.types
  table ← create_table server others req columns types w.db
  fill rt settings server req rows w columns types table

abbrev pub file_row : Request → ℕ → Prepared → CsvFile
file_row req total p = record {
  id = p.db.next_id;
  file_name = req.file_name;
  file_hash = req.file_hash;
  table_name = table_of req;
  mode = dynamic;
  row_count = p.inserted;
  column_names = p.columns;
  total_rows = total;
  duplicate_rows_skipped = p.cast.duplicates;
  failed_rows = p.cast.failed_row_count;
}

abbrev pub loaded : Request → ℕ → Prepared → Loaded
loaded req total p = record {
  file_id = p.db.next_id;
  table_name = table_of req;
  total_rows = total;
  inserted_rows = p.inserted;
  duplicate_rows_skipped = p.cast.duplicates;
  failed_rows = p.cast.failed_row_count;
  columns = p.columns;
  types = p.types;
  row_errors = p.cast.row_errors;
  replaced_file_name = p.replaced;
}

-- The answer to a UniqueViolation of the registry, from the row that is there.
abbrev pub lost_race : Request → Option CsvFile → Upload
lost_race req none = duplicate_file name req.file_name (table_of req) 0
lost_race req (some f) = existing (if same f.file_name req.file_name then name else content) f

-- The INSERT into the registry, then the commit, or the rollback to the database `old`.
abbrev pub commit_or_lose :
    Others → Request → ℕ → Db → Prepared → Option (List CsvFile) → Upload × Db
commit_or_lose others req total old p (some files) =
    (ok (loaded req total p), record (p.db) { files = files; next_id = p.db.next_id + 1 })
commit_or_lose others req total old p none =
    let now = old.files ++ others.registered in
    (
      lost_race req (find_file (clashes req.file_name req.file_hash) now),
      record old { files = now; next_id = p.db.next_id + 1 },
    )

abbrev pub conclude : Others → Request → ℕ → Db → Flow Prepared → Upload × Db
conclude others req total old (stop u) = (u, old)
conclude others req total old (go p) =
    commit_or_lose others req total old p
      (register (p.db.files ++ others.registered) (file_row req total p))

unfoldable pub do_upload :
    Runtime → Settings → Server → Others → Request → List Text → List (List Text) → Db → Upload × Db
unfolding prepare
do_upload rt settings server others req header rows db =
    conclude others req (length rows) db (prepare rt settings server others req header rows db)

upload_rows : Runtime → Settings → Server → Others → Request → List (List Text) → Db → Upload × Db
unfolding do_upload
upload_rows rt settings server others req [] db = (invalid_structure empty, db)
upload_rows rt settings server others req (header ∷ []) db = (invalid_structure header_only, db)
upload_rows rt settings server others req (header ∷ r ∷ rows) db =
    if all is_blank_cell header
    then (invalid_structure no_columns, db)
    else if ltb settings.max_rows (length (r ∷ rows))
    then (error (too_many_rows (length (r ∷ rows))), db)
    else do_upload rt settings server others req header (r ∷ rows) db

unfoldable pub upload_dynamic :
    Runtime
    → Settings
    → Server
    → Others
    → Text
    → Text
    → Option (List Text)
    → Bool
    → Db
    → Upload × Db
unfolding upload_rows
upload_dynamic rt settings server others file_name body types overwrite db =
    upload_rows rt settings server others
      (record {
        file_name = file_name;
        file_hash = rt.sha256 body;
        types = types;
        overwrite = overwrite;
      })
      (parse_csv body) db
