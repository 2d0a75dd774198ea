-- ===== src/DynamicLoader/Checks.antt =====
-- api/services/dynamic_loader.py: the checks in front of the INSERTs, and the new table.
use postgre_data_migration_a.Prelude.{
  ℕ, Bool, true, false, ◌&&◌, not, Option, none, some, List, [], ◌∷◌, ◌++◌, any, take, length,
  replicate, Text, same, same_texts, member, distinct, ◌==◌, if◌then◌else◌,
}
use postgre_data_migration_a.CsvParse.Columns.{valid_identifier}
use postgre_data_migration_a.CsvParse.Types.{ColType, text, allowed_type}
use postgre_data_migration_a.Registry.{
  CsvFile, Table, Db, Server, Others, find_file, find_table, by_name, by_hash, csv_prefix,
  remove_file,
}
use postgre_data_migration_a.DynamicLoader.Rows.{Casting}
use postgre_data_migration_a.DynamicLoader.Result.{
  DupReason, name, content, no_usable_columns, duplicate_column, bad_identifiers, wrong_type_count,
  unsupported_type, nothing_imported, database_error, Upload, error, duplicate_file, Flow, go, stop,
  ◌>>=◌, or_stop,
}

-- The request: `file_name`, the content's hash, `types` and `overwrite`.
pub record Request : Type 0 where
  pub file_name : Text
  pub file_hash : Text
  pub types : Option (List Text)
  pub overwrite : Bool

abbrev pub table_of : Request → Text
table_of req = csv_prefix ++ take 16 req.file_hash

abbrev pub name_reason : Request → CsvFile → DupReason
name_reason req f = if same f.file_hash req.file_hash then content else name

abbrev pub existing : DupReason → CsvFile → Upload
existing reason f = duplicate_file reason f.file_name f.table_name f.row_count

-- The database that the transaction has made so far, and `replaced_file_name`.
pub record Work : Type 0 where
  pub db : Db
  pub replaced : Option Text

abbrev pub or_else : Option Text → Text → Option Text
or_else none t = some t
or_else (some s) t = some s

-- One duplicate check: at a match, return or overwrite.
abbrev pub on_match : Request → (CsvFile → DupReason) → Work → Option CsvFile → Flow Work
on_match req reason w none = go w
on_match req reason w (some f) =
    if req.overwrite
    then go (record { db = remove_file f w.db; replaced = or_else w.replaced f.file_name })
    else stop (existing (reason f) f)

unfoldable pub check_duplicates : Request → Work → Flow Work
check_duplicates req w = do
  w' ← on_match req (name_reason req) w (find_file (by_name req.file_name) w.db.files)
  on_match req (λ f. content) w' (find_file (by_hash req.file_hash) w'.db.files)

-- `next(c for i, c in enumerate(columns) if columns.index(c) != i)`.
first_repeat : List Text → List Text → Text
first_repeat seen [] = []
first_repeat seen (c ∷ cs) =
    let rest = first_repeat (c ∷ seen) cs in if member c seen then c else rest

abbrev pub is_none {ℓ} : {A : Type ℓ} → List A → Bool
is_none [] = true
is_none (x ∷ xs) = false

unfoldable pub check_columns : List Text → Flow (List Text)
unfolding first_repeat
check_columns columns =
    if is_none columns
    then stop (error no_usable_columns)
    else if not (distinct columns)
    then stop (error (duplicate_column (first_repeat [] columns)))
    else if any (λ c. not (valid_identifier c)) columns
    then stop (error bad_identifiers)
    else go columns

-- The types that the texts name, if each is in `ALLOWED_TYPES`.
unfoldable pub all_types : List Text → Option (List ColType)
all_types [] = some []
all_types (t ∷ ts) = elim (allowed_type t) [
  | none ↦ none
  | some c ↦ elim (all_types ts) [ none ↦ none | some cs ↦ some (c ∷ cs) ]
]

-- `types` as given, behind the check of their number; none is a `text` for each column.
unfoldable pub check_types : List Text → Option (List Text) → Flow (List ColType)
unfolding all_types
check_types columns none = go (replicate (length columns) text)
check_types columns (some types) =
    if length types == length columns
    then or_stop (error unsupported_type) (all_types types)
    else stop (error (wrong_type_count (length types) (length columns)))

-- CREATE TABLE IF NOT EXISTS. The INSERT wants a table that is there to have the same columns.
abbrev pub open_table : Server → List Text → List ColType → Option Table → Flow Table
open_table server columns types none =
    if server.can_create columns types
    then go (record { columns = columns; types = types; rows = [] })
    else stop (error database_error)
open_table server columns types (some t) =
    if same_texts t.columns columns then go t else stop (error database_error)

unfoldable pub create_table : Server → Others → Request → List Text → List ColType → Db → Flow Table
create_table server others req columns types db =
    if others.creates_table
    then stop (duplicate_file content req.file_name (table_of req) 0)
    else open_table server columns types (find_table (table_of req) db.tables)

-- #123: every row failed.
unfoldable pub check_some : ℕ → List Text → List ColType → Casting → Flow Casting
check_some total columns types s =
    if s.failed_row_count == total && not (total == 0)
    then stop (error (nothing_imported total s.failed_row_count s.row_errors columns types))
    else go s

abbrev pub chunk_size : ℕ
chunk_size = 500
