-- ===== src/Tests/Upload.antt =====
-- The loader for new tables.
use postgre_data_migration_a.Prelude.{
  true, false, none, some, List, [], ◌∷◌, ◌++◌, ◌≡◌, refl, ◌⊎◌, Text, codes,
}
use postgre_data_migration_a.Tests.Samples.{ascii, settings, server, nobody, no_files, other_file}
use postgre_data_migration_a.CsvParse.Types.{int8, text, allowed_type}
use postgre_data_migration_a.CsvParse.Cast.{str, cast_value}
use postgre_data_migration_a.Python.{strip_by, strip}
use postgre_data_migration_a.CsvParse.Columns.{sanitize_columns, valid_identifier}
use postgre_data_migration_a.CsvParse.Patterns.{int_re}
use postgre_data_migration_a.CsvParse.Ragged.{extra_cells, report}
use postgre_data_migration_a.Registry.{
  CsvFile, te, Db, find_file, find_table, remove_file, register, insert_chunks,
}
use postgre_data_migration_a.DynamicLoader.Rows.{Row, cast_cells, cast_row, cast_rows, join_cells}
use postgre_data_migration_a.DynamicLoader.Result.{ok, Loaded, duplicate_file, name}
use postgre_data_migration_a.DynamicLoader.Checks.{Request}
use postgre_data_migration_a.DynamicLoader.{do_upload}
use postgre_data_migration_a.DynamicLoader.Atomic.{do_upload_foreign}
use postgre_data_migration_a.DynamicLoader.Flows.{is_ok}
use postgre_data_migration_a.DynamicLoader.Session.{transact, do_upload_on}
use postgre_data_migration_a.DynamicLoader.Session.Committed.{
  opened, do_upload_on-do_upload, do_upload_on_atomic,
}
use postgre_data_migration_a.DynamicLoader.Counts.{IsReported, do_upload-IsReported}

abbrev header : List Text
header = codes "Id" ∷ codes "Name" ∷ []

-- A row to insert, the same row again, one with a bad number and one that is too wide.
abbrev rows : List (List Text)
rows =
    (codes "1" ∷ codes "a" ∷ [])
    ∷ (codes "1" ∷ codes "a" ∷ [])
    ∷ (codes "x" ∷ codes "b" ∷ [])
    ∷ (codes "2" ∷ codes "b" ∷ codes "c" ∷ [])
    ∷ []

abbrev request : Request
request = record {
  file_name = codes "new.csv";
  file_hash = codes "0123456789abcdef0";
  types = some (codes "int8" ∷ codes "text" ∷ []);
  overwrite = false;
}

abbrev taken : Request
taken = record request { file_name = codes "old.csv" }

abbrev with_file : Db
with_file = record no_files { files = other_file ∷ [] }

abbrev columns : List Text
columns = codes "id" ∷ codes "name" ∷ []

abbrev result : Loaded
result = record {
  file_id = 1;
  table_name = codes "csv_0123456789abcdef";
  total_rows = 4;
  inserted_rows = 1;
  duplicate_rows_skipped = 1;
  failed_rows = 2;
  columns = columns;
  types = int8 ∷ text ∷ [];
  row_errors =
      record {
        row_number = 3;
        column = codes "id";
        value = codes "x";
        reason = codes "\"x\" is not a whole number";
      }
      ∷ [];
  replaced_file_name = none;
}

do_upload_ok : (do_upload ascii settings server nobody request header rows no_files).0 ≡ ok result
unfolding do_upload find_file sanitize_columns strip_by strip valid_identifier allowed_type
    find_table cast_rows cast_row extra_cells cast_cells cast_value int_re join_cells insert_chunks
    register report
do_upload_ok = refl

do_upload-IsReported_example :
    IsReported ascii settings server nobody request header rows no_files result
      (do_upload ascii settings server nobody request header rows no_files).1
do_upload-IsReported_example =
    do_upload-IsReported ascii settings server nobody request header rows no_files result
      (unfold find_table in refl) do_upload_ok

-- The name is taken.
do_upload_duplicate :
    (do_upload ascii settings server nobody taken header rows with_file).0
    ≡ duplicate_file name (codes "old.csv") (codes "csv_abc") 0
unfolding do_upload find_file
do_upload_duplicate = refl

-- An overwrite of a file of a fixed table.
abbrev fixed_file : CsvFile
fixed_file = record other_file { table_name = codes "personnel"; mode = te }

abbrev with_fixed : Db
with_fixed = record no_files {
  files = fixed_file ∷ [];
  tables = (codes "personnel", record { columns = []; types = []; rows = [] }) ∷ [];
}

abbrev overwriting : Request
overwriting = record taken { overwrite = true }

do_upload_foreign_example :
    find_table
      (codes "personnel")
      (do_upload ascii settings server nobody overwriting header rows with_fixed).1.tables
    ≡ find_table (codes "personnel") with_fixed.tables
do_upload_foreign_example =
    do_upload_foreign ascii settings server nobody overwriting header rows with_fixed
      (codes "personnel") refl

abbrev new_rows : List Row
new_rows =
    record { values = str (codes "a") ∷ []; row_hash = codes "a" }
    ∷ record { values = str (codes "b") ∷ []; row_hash = codes "b" }
    ∷ record { values = str (codes "a") ∷ []; row_hash = codes "a" }
    ∷ []

-- Every row fails behind an overwrite.
abbrev bad_rows : List (List Text)
bad_rows = (codes "x" ∷ codes "b" ∷ []) ∷ []

failed_run :
    is_ok
      (do_upload_on ascii settings server nobody overwriting header bad_rows (opened with_file)).0
    ≡ false
unfolding do_upload_on find_file remove_file sanitize_columns strip_by strip valid_identifier
    allowed_type find_table cast_rows cast_row extra_cells cast_cells cast_value int_re join_cells
    report
failed_run = refl

do_upload_on_atomic_example :
    ((do_upload_on ascii settings server nobody overwriting header bad_rows
        (opened with_file)).1.committed.tables
      ≡ with_file.tables)
    × (((do_upload_on ascii settings server nobody overwriting header bad_rows
            (opened with_file)).1.committed.files
          ≡ with_file.files)
        ⊎ ((do_upload_on ascii settings server nobody overwriting header bad_rows
              (opened with_file)).1.committed.files
            ≡ with_file.files ++ nobody.registered))
    × ((do_upload_on ascii settings server nobody overwriting header bad_rows
          (opened with_file)).1.working
        ≡ (do_upload_on ascii settings server nobody overwriting header bad_rows
            (opened with_file)).1.committed)
do_upload_on_atomic_example =
    do_upload_on_atomic ascii settings server nobody overwriting header bad_rows with_file
      failed_run

do_upload_on-do_upload_example :
    ((transact ascii settings server nobody overwriting header rows (opened with_file)).1.committed
      ≡ with_file)
    × (do_upload_on ascii settings server nobody overwriting header rows (opened with_file) ≡ (
      (do_upload ascii settings server nobody overwriting header rows with_file).0,
      opened (do_upload ascii settings server nobody overwriting header rows with_file).1,
    ))
do_upload_on-do_upload_example =
    do_upload_on-do_upload ascii settings server nobody overwriting header rows with_file
