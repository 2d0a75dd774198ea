-- ===== src/Registry.antt =====
-- The uploads schema: the registry `csv_files` with its two UNIQUE indexes (alembic/versions/0001
-- and 0002), the tables that uploads create, and the SQL statements of the loaders and routes as
-- functions on them.
pub mod Unique
pub mod Batches
use postgre_data_migration_a.Prelude.{
  ℕ, zero, suc, ◌+◌, Bool, true, false, ◌&&◌, ◌||◌, not, Option, none, some, List, [], ◌∷◌, ◌++◌,
  map, any, all, take, drop, length, Text, codes, same, starts_with, ◌==◌, if◌then◌else◌,
}
use postgre_data_migration_a.CsvParse.Types.{ColType}
use postgre_data_migration_a.CsvParse.Cast.{Value}
use postgre_data_migration_a.DynamicLoader.Rows.{Row}

pub data Mode : Type 0 where
  dynamic te : Mode

pub record CsvFile : Type 0 where
  pub id : ℕ
  pub file_name : Text
  pub file_hash : Text
  pub table_name : Text
  pub mode : Mode
  pub row_count : ℕ
  pub column_names : List Text
  pub total_rows : ℕ
  pub duplicate_rows_skipped : ℕ
  pub failed_rows : ℕ

pub record Table : Type 0 where
  pub columns : List Text
  pub types : List ColType
  pub rows : List Row

-- `next_id` is the sequence of `csv_files.id`, which a rollback does not turn back.
pub record Db : Type 0 where
  pub files : List CsvFile
  pub tables : List (Text × Table)
  pub next_id : ℕ

-- What the server decides: whether CREATE TABLE takes the columns, and whether a column of a type
-- takes a value that `cast_value` let through.
pub record Server : Type 0 where
  pub can_create : List Text → List ColType → Bool
  pub fits : ColType → Value → Bool

-- What other sessions commit while a request runs: the files that they register between its checks
-- and its own INSERT, and whether one of them creates the same table at the same time.
pub record Others : Type 0 where
  pub registered : List CsvFile
  pub creates_table : Bool

-- `SELECT … WHERE p` and `fetchone`.
unfoldable pub find_file : (CsvFile → Bool) → List CsvFile → Option CsvFile
find_file p [] = none
find_file p (f ∷ fs) = if p f then some f else find_file p fs

-- `DELETE FROM csv_files WHERE p`.
unfoldable pub delete_files : (CsvFile → Bool) → List CsvFile → List CsvFile
delete_files p [] = []
delete_files p (f ∷ fs) = let rest = delete_files p fs in if p f then rest else f ∷ rest

-- `DROP TABLE IF EXISTS`.
unfoldable pub drop_table : Text → List (Text × Table) → List (Text × Table)
drop_table name [] = []
drop_table name ((n, t) ∷ l) =
    let rest = drop_table name l in if same name n then rest else (n, t) ∷ rest

unfoldable pub find_table : Text → List (Text × Table) → Option Table
find_table name [] = none
find_table name ((n, t) ∷ l) = if same name n then some t else find_table name l

unfoldable pub set_table : Text → Table → List (Text × Table) → List (Text × Table)
set_table name t [] = (name, t) ∷ []
set_table name t ((n, u) ∷ l) = if same name n then (n, t) ∷ l else (n, u) ∷ set_table name t l

abbrev pub by_name : Text → CsvFile → Bool
by_name name f = same f.file_name name

abbrev pub by_hash : Text → CsvFile → Bool
by_hash hash f = same f.file_hash hash

abbrev pub by_id : ℕ → CsvFile → Bool
by_id id f = f.id == id

-- `WHERE file_name = %s OR file_hash = %s`, and what the UNIQUE indexes refuse.
abbrev pub clashes : Text → Text → CsvFile → Bool
clashes name hash f = by_name name f || by_hash hash f

abbrev pub csv_prefix : Text
csv_prefix = codes "csv_"

-- `mode == "dynamic" and table_name.startswith("csv_")`.
abbrev pub is_dynamic : Mode → Bool
is_dynamic dynamic = true
is_dynamic te = false

abbrev pub is_owned : CsvFile → Bool
is_owned f = is_dynamic f.mode && starts_with f.table_name csv_prefix

-- DROP the table of a dynamic upload, and DELETE the registry row by its id.
unfoldable pub remove_file : CsvFile → Db → Db
unfolding drop_table delete_files
remove_file f db = record db {
  files = delete_files (by_id f.id) db.files;
  tables = if is_owned f then drop_table f.table_name db.tables else db.tables;
}

-- `INSERT INTO csv_files … RETURNING id`: `none` is the UniqueViolation. The id is used up.
unfoldable pub register : List CsvFile → CsvFile → Option (List CsvFile)
register files f =
    if any (clashes f.file_name f.file_hash) files then none else some (files ++ f ∷ [])

fits_row : Server → List ColType → List Value → Bool
fits_row server (t ∷ types) (v ∷ values) = server.fits t v && fits_row server types values
fits_row server [] [] = true
fits_row server _ _ = false

abbrev pub has_hash : Text → List Row → Bool
has_hash h rows = any (λ r. same h r.row_hash) rows

-- `INSERT … VALUES … ON CONFLICT (_row_hash) DO NOTHING RETURNING 1`: the rows of the table behind
-- the statement, and how many rows it returns. `none` is a database error.
unfoldable pub insert_rows : Server → List ColType → List Row → List Row → Option (List Row × ℕ)
unfolding fits_row
insert_rows server types rows [] = some (rows, 0)
insert_rows server types rows (r ∷ new) =
    let skipped = insert_rows server types rows new in
    let kept = insert_rows server types (rows ++ r ∷ []) new in
    if fits_row server types r.values
    then (if has_hash r.row_hash rows
        then skipped
        else (elim kept [ none ↦ none | some p ↦ some (p.0, p.1 + 1) ]))
    else none

-- `for i in range(0, len(to_insert), size)`; the fuel bounds the rounds.
unfoldable pub insert_chunks :
    Server → List ColType → ℕ → ℕ → List Row → List Row → ℕ → Option (List Row × ℕ)
unfolding insert_rows
insert_chunks server types size fuel rows [] inserted = some (rows, inserted)
insert_chunks server types size zero rows (r ∷ new) inserted = none
insert_chunks server types size (suc fuel) rows (r ∷ new) inserted =
    elim (insert_rows server types rows (take size (r ∷ new))) [
      | none ↦ none
      | some p ↦ insert_chunks server types size fuel p.0 (drop size (r ∷ new)) (inserted + p.1)
    ]
