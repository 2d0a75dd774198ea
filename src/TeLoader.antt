-- ===== src/TeLoader.antt =====
-- api/services/te_loader.py: `match_te_table` and `upload_te`, which loads a file into one of the
-- fixed tables. Log entries are left out.
pub mod Rows
pub mod Insert
pub mod Batches
pub mod Match
pub mod Loads
pub mod Counts
use postgre_data_migration_a.Prelude.{
  ℕ, suc, ◌+◌, ◌-◌, Bool, true, false, ◌&&◌, ◌||◌, not, Option, none, some, List, [], ◌∷◌, ◌++◌,
  map, any, all, length, Text, codes, same, member, ltb, if◌then◌else◌,
}
use postgre_data_migration_a.Python.{Runtime}
use postgre_data_migration_a.Config.{Settings, te_tables}
use postgre_data_migration_a.CsvParse.Lexer.{parse_csv}
use postgre_data_migration_a.CsvParse.Columns.{sanitize_columns}
use postgre_data_migration_a.CsvParse.Types.{ColType, pg_type_to_allowed_type}
use postgre_data_migration_a.CsvParse.Preview.{Reason, empty, header_only}
use postgre_data_migration_a.Registry.{
  CsvFile, Table, te, Db, delete_files, drop_table, clashes, is_owned, register,
}
use postgre_data_migration_a.TeLoader.Rows.{TeError, Casting, casting, cast_rows}
use postgre_data_migration_a.TeLoader.Insert.{TeServer, TeRow, Loading, insert_chunks}

-- `set(columns).issubset(te_cols)`, for a table that has columns.
abbrev pub matches : List Text → List Text → Bool
matches columns [] = false
matches columns (c ∷ te_cols) = all (λ d. member d (c ∷ te_cols)) columns

-- `for table in TE_TABLES`.
unfoldable pub first_match : TeServer → List Text → List Text → Option Text
first_match server columns [] = none
first_match server columns (t ∷ tables) =
    let rest = first_match server columns tables in
    if matches columns (server.table_columns t) then some t else rest

unfoldable pub match_te_table : TeServer → List Text → Option Text
unfolding first_match
match_te_table server columns = first_match server columns te_tables

-- The loop over the registry rows of the name or the hash, which drops the tables they own.
unfoldable pub drop_owned : Text → Text → List CsvFile → List (Text × Table) → List (Text × Table)
unfolding drop_table
drop_owned name hash [] tables = tables
drop_owned name hash (f ∷ fs) tables =
    let rest = drop_owned name hash fs in
    if clashes name hash f && is_owned f then rest (drop_table f.table_name tables) else rest tables

-- `_cleanup_prior_registry_entries`.
unfoldable pub cleanup : Text → Text → Db → Db
unfolding drop_owned delete_files
cleanup name hash db = record db {
  files = delete_files (clashes name hash) db.files;
  tables = drop_owned name hash db.files db.tables;
}

pub data Problem : Type 0 where
  not_a_te_table : Problem
  too_many_rows : ℕ → Problem
  te_table_missing : Problem
  unknown_columns : List Text → Problem
  loaded_concurrently : Problem

pub record Loaded : Type 0 where
  pub file_id : ℕ
  pub table_name : Text
  pub total_rows : ℕ
  pub inserted_rows : ℕ
  pub failed_rows : ℕ
  pub columns : List Text
  pub row_errors : List TeError

-- `crashed` is an exception that the handler does not catch.
pub data Upload : Type 0 where
  invalid_structure : Reason → Upload
  error : Problem → Upload
  ok : Loaded → Upload
  crashed : Upload

-- The rows of the target table, and the uploads schema.
pub record State : Type 0 where
  pub stored : List TeRow
  pub db : Db

abbrev pub column_types : Runtime → TeServer → Text → List Text → List (Option ColType)
column_types rt server target columns =
    map (λ c. pg_type_to_allowed_type rt (server.pg_type target c)) columns

-- `f"{te_schema()}.{target_table}"`.
abbrev pub qualified : Settings → Text → Text
qualified settings target = settings.te_schema ++ (b'.' ∷ target)

abbrev pub file_row : Text → Text → Text → List Text → ℕ → Loading → ℕ → CsvFile
file_row name hash table columns total l id = record {
  id = id;
  file_name = name;
  file_hash = hash;
  table_name = table;
  mode = te;
  row_count = l.inserted;
  column_names = columns;
  total_rows = total;
  duplicate_rows_skipped = 0;
  failed_rows = l.failed_row_count;
}

-- The INSERT into the registry: the commit, or the rollback to `old`.
abbrev pub commit_or_lose :
    List CsvFile
    → Text
    → List Text
    → ℕ
    → State
    → Db
    → Loading
    → Option (List CsvFile)
    → Upload × State
commit_or_lose others table columns total old cleaned l (some files) = (
  ok (record {
    file_id = cleaned.next_id;
    table_name = table;
    total_rows = total;
    inserted_rows = l.inserted;
    failed_rows = l.failed_row_count;
    columns = columns;
    row_errors = l.row_errors;
  }),
  record {
    stored = l.stored;
    db = record cleaned { files = files; next_id = cleaned.next_id + 1 };
  },
)
commit_or_lose others table columns total old cleaned l none = (
  error loaded_concurrently,
  record old {
    db = record (old.db) { files = old.db.files ++ others; next_id = cleaned.next_id + 1 };
  },
)

-- Behind the loops. `others` is what other sessions register in the meantime.
unfoldable pub finish :
    List CsvFile → Text → Text → Text → List Text → ℕ → State → Loading → Upload × State
unfolding cleanup
finish others name hash table columns total old l =
    let cleaned = cleanup name hash old.db in
    commit_or_lose others table columns total old cleaned l (
      register (cleaned.files ++ others) (file_row name hash table columns total l cleaned.next_id))

abbrev pub chunk_size : ℕ
chunk_size = 500

-- The INSERTs of the rows that were cast, and what follows.
abbrev pub load :
    TeServer
    → Settings
    → List CsvFile
    → Text
    → Text
    → Text
    → List Text
    → ℕ
    → State
    → Option Casting
    → Upload × State
load server settings others name hash table columns total old none = (crashed, old)
load server settings others name hash table columns total old (some c) =
    finish others name hash table columns total old (
      insert_chunks server settings.max_row_errors chunk_size (length c.to_insert)
        (record {
          stored = old.stored;
          inserted = 0;
          failed_row_count = c.failed_row_count;
          row_errors = c.row_errors;
        })
        0 c.to_insert)

abbrev pub is_none {ℓ} : {A : Type ℓ} → List A → Bool
is_none [] = true
is_none (x ∷ xs) = false

-- `[c for c in columns if c not in table_cols]`.
unfoldable pub unknown_of : List Text → List Text → List Text
unknown_of table_cols [] = []
unknown_of table_cols (c ∷ columns) =
    let rest = unknown_of table_cols columns in if member c table_cols then rest else c ∷ rest

-- Behind the check of the number of rows.
unfoldable pub load_rows :
    Runtime
    → TeServer
    → Settings
    → List CsvFile
    → Text
    → Text
    → Text
    → List Text
    → List (List Text)
    → State
    → Upload × State
unfolding unknown_of finish
load_rows rt server settings others name hash target columns rows s =
    let unknown = unknown_of (server.table_columns target) columns in
    if is_none (server.table_columns target)
    then (error te_table_missing, s)
    else if is_none unknown
    then load server settings others name hash (qualified settings target) columns (length rows) s (
        cast_rows rt settings.max_row_errors columns (column_types rt server target columns) casting
          1 rows)
    else (error (unknown_columns unknown), s)

unfoldable pub upload_rows :
    Runtime
    → TeServer
    → Settings
    → List CsvFile
    → Text
    → Text
    → Text
    → List (List Text)
    → State
    → Upload × State
unfolding load_rows
upload_rows rt server settings others name hash target [] s = (invalid_structure empty, s)
upload_rows rt server settings others name hash target (h ∷ []) s =
    (invalid_structure header_only, s)
upload_rows rt server settings others name hash target (h ∷ r ∷ rows) s =
    if ltb settings.max_rows (length (r ∷ rows))
    then (error (too_many_rows (length (r ∷ rows))), s)
    else load_rows rt server settings others name hash target (sanitize_columns rt h) (r ∷ rows) s

unfoldable pub upload_te :
    Runtime → TeServer → Settings → List CsvFile → Text → Text → Text → State → Upload × State
unfolding upload_rows
upload_te rt server settings others name content target s =
    if member target te_tables
    then upload_rows rt server settings others name (rt.sha256 content) target (parse_csv content) s
    else (error not_a_te_table, s)
