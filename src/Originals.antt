-- ===== src/Originals.antt =====
-- api/services/originals.py, on the insert-only tables of alembic/versions/0007. A row of `uploads`
-- stands with its blob and its source rows. Originals are listed from the newest on.
pub mod Kept
use postgre_data_migration_a.Prelude.{
  ℕ, zero, suc, ◌+◌, ◌/◌, ◌%◌, Bool, true, false, ◌&&◌, Option, none, some, List, [], ◌∷◌, ◌++◌,
  map, take, length, Text, codes, same, ltb, leb, ◌==◌, if◌then◌else◌,
}
use postgre_data_migration_a.Python.{Runtime}
use postgre_data_migration_a.CsvParse.Lexer.{parse_csv}
use postgre_data_migration_a.CsvParse.Types.{ColType}
use postgre_data_migration_a.CsvParse.Ragged.{RowError}
use postgre_data_migration_a.DynamicLoader.Result
use postgre_data_migration_a.TeLoader
use postgre_data_migration_a.TeLoader.Rows.{TeError, of_cell}
use postgre_data_migration_a.Review.Rows

-- What `record_upload` and the routes read of a result.
pub record Report : Type 0 where
  pub status : Text
  pub file_id : Option ℕ
  pub table_name : Option Text
  pub total_rows : Option ℕ
  pub inserted_rows : Option ℕ
  pub failed_rows : Option ℕ
  pub row_errors : List TeError
  pub columns : Option (List Text)
  pub types : Option (List ColType)

-- A result with a status, and with no other of these keys.
abbrev pub bare_report : Text → Report
bare_report status = record {
  status = status;
  file_id = none;
  table_name = none;
  total_rows = none;
  inserted_rows = none;
  failed_rows = none;
  row_errors = [];
  columns = none;
  types = none;
}

abbrev pub error_report : Result.Problem → Report
error_report (Result.nothing_imported total failed errors columns types) =
    record (bare_report (codes "error")) {
      total_rows = some total;
      failed_rows = some failed;
      row_errors = map of_cell errors;
      columns = some columns;
      types = some types;
    }
error_report _ = bare_report (codes "error")

-- The dictionary that `upload_dynamic` returns; `none` is an exception.
unfoldable pub dynamic_report : Result.Upload → Option Report
dynamic_report (Result.invalid_structure reason) = some (bare_report (codes "invalid_structure"))
dynamic_report (Result.error problem) = some (error_report problem)
dynamic_report (Result.duplicate_file reason name table_name count) =
    some (record (bare_report (codes "duplicate_file")) { table_name = some table_name })
dynamic_report (Result.ok l) = some (record {
  status = codes "ok";
  file_id = some l.file_id;
  table_name = some l.table_name;
  total_rows = some l.total_rows;
  inserted_rows = some l.inserted_rows;
  failed_rows = some l.failed_rows;
  row_errors = map of_cell l.row_errors;
  columns = some l.columns;
  types = some l.types;
})
dynamic_report Result.crashed = none

-- The dictionary that `upload_te` returns.
unfoldable pub te_report : TeLoader.Upload → Option Report
te_report (TeLoader.invalid_structure reason) = some (bare_report (codes "invalid_structure"))
te_report (TeLoader.error problem) = some (bare_report (codes "error"))
te_report (TeLoader.ok l) = some (record {
  status = codes "ok";
  file_id = some l.file_id;
  table_name = some l.table_name;
  total_rows = some l.total_rows;
  inserted_rows = some l.inserted_rows;
  failed_rows = some l.failed_rows;
  row_errors = l.row_errors;
  columns = some l.columns;
  types = some [];
})
te_report TeLoader.crashed = none

-- `"partly_imported" if result.get("failedRows") else "imported"`.
abbrev pub imported_status : Option ℕ → Text
imported_status none = codes "imported"
imported_status (some n) = if n == 0 then codes "imported" else codes "partly_imported"

-- `outcome`, with `_STATUS`.
unfoldable pub outcome : Report → Text
outcome r =
    if same r.status (codes "ok")
    then imported_status r.failed_rows
    else if same r.status (codes "duplicate_file")
    then codes "duplicate"
    else if same r.status (codes "invalid_structure")
    then codes "rejected"
    else codes "failed"

-- `str.encode("utf-8")` of one code point; `none` is the UnicodeEncodeError of a surrogate.
abbrev pub utf8_char : ℕ → Option (List ℕ)
utf8_char c =
    if ltb c 128
    then some (c ∷ [])
    else if ltb c 2048
    then some ((192 + c / 64) ∷ (128 + c % 64) ∷ [])
    else if leb 55296 c && ltb c 57344
    then none
    else if ltb c 65536
    then some ((224 + c / 4096) ∷ (128 + (c / 64) % 64) ∷ (128 + c % 64) ∷ [])
    else some
        ((240 + c / 262144) ∷ (128 + (c / 4096) % 64) ∷ (128 + (c / 64) % 64) ∷ (128 + c % 64) ∷ [])

abbrev pub append_bytes : Option (List ℕ) → Option (List ℕ) → Option (List ℕ)
append_bytes (some a) (some b) = some (a ++ b)
append_bytes _ _ = none

unfoldable pub utf8 : Text → Option (List ℕ)
utf8 [] = some []
utf8 (c ∷ s) = append_bytes (utf8_char c) (utf8 s)

pub record Original : Type 0 where
  pub id : ℕ
  pub file_name : Text
  pub sha256 : Text
  pub byte_size : ℕ
  pub uploader : Option Text
  pub mode : Text
  pub status : Text
  pub total_rows : Option ℕ
  pub imported_rows : Option ℕ
  pub failed_rows : Option ℕ
  pub csv_file_id : Option ℕ
  pub row_errors : List TeError
  pub columns : Option (List Text)
  pub column_types : Option (List ColType)
  pub content : List ℕ
  pub source : List (List Text)

-- What an upload request is, for its original: the id that the sequence gives it, who sends it.
pub record Sent : Type 0 where
  pub id : ℕ
  pub actor : Option Text
  pub file_name : Text
  pub content : Text
  pub mode : Text

-- `coerce_file_id(…) if ok else None`.
abbrev pub registered_id : Report → Option ℕ
registered_id r = if same r.status (codes "ok") then r.file_id else none

abbrev pub original_of : Runtime → ℕ → Sent → Report → List ℕ → Original
original_of rt most sent r bytes = record {
  id = sent.id;
  file_name = sent.file_name;
  sha256 = rt.sha256 sent.content;
  byte_size = length bytes;
  uploader = sent.actor;
  mode = sent.mode;
  status = outcome r;
  total_rows = r.total_rows;
  imported_rows = r.inserted_rows;
  failed_rows = r.failed_rows;
  csv_file_id = registered_id r;
  row_errors = take most r.row_errors;
  columns = r.columns;
  column_types = r.types;
  content = bytes;
  source = parse_csv sent.content;
}

abbrev pub store_original : (Original → Bool) → Original → List Original → Option ℕ × List Original
store_original takes o originals = if takes o then (some o.id, o ∷ originals) else (none, originals)

-- `record_upload` on the bytes; `takes` tells whether the database takes the INSERTs.
unfoldable pub record_upload :
    Runtime
    → (Original → Bool)
    → ℕ
    → Sent
    → Report
    → List ℕ
    → List Original
    → Option ℕ × List Original
unfolding outcome
record_upload rt takes most sent r bytes originals =
    store_original takes (original_of rt most sent r bytes) originals

unfoldable pub find_original : ℕ → List Original → Option Original
find_original id [] = none
find_original id (o ∷ os) = if o.id == id then some o else find_original id os

-- What api/services/review.py reads of an original.
abbrev pub reviewed : Original → Rows.Upload
reviewed o = record {
  id = o.id;
  file_name = o.file_name;
  columns = o.columns;
  column_types = o.column_types;
  source = o.source;
}
