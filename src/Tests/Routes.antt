-- ===== src/Tests/Routes.antt =====
-- Uploads, downloads and deletions.
use postgre_data_migration_a.Prelude.{true, false, none, some, [], ◌∷◌, ◌≡◌, refl, codes}
use postgre_data_migration_a.Tests.Samples.{ascii, settings, server, nobody, no_files, other_file}
use postgre_data_migration_a.Tests.Te.{fixed}
use postgre_data_migration_a.Tests.Review.{digest}
use postgre_data_migration_a.Python.{strip_by, strip}
use postgre_data_migration_a.CsvParse.Types.{text, allowed_type}
use postgre_data_migration_a.CsvParse.Columns.{sanitize_columns, valid_identifier}
use postgre_data_migration_a.CsvParse.Cast.{cast_value}
use postgre_data_migration_a.CsvParse.Ragged.{extra_cells, report}
use postgre_data_migration_a.CsvParse.Lexer.{parse_csv}
use postgre_data_migration_a.Registry.{find_file, find_table, register, insert_chunks}
use postgre_data_migration_a.Audit.{write_audit}
use postgre_data_migration_a.DynamicLoader.Rows.{cast_cells, cast_row, cast_rows, join_cells}
use postgre_data_migration_a.DynamicLoader.{upload_dynamic}
use postgre_data_migration_a.Auth.{ok}
use postgre_data_migration_a.Originals.{dynamic_report, utf8, outcome, record_upload}
use postgre_data_migration_a.Routes.{
  Env, World, Sender, UploadRequest, Response, load, upload, delete_file,
}
use postgre_data_migration_a.Routes.Deletes.{Deletes, delete_file-Deletes}
use postgre_data_migration_a.Routes.Retrieval.{IsRetrieved, upload_original-upload}

abbrev env : Env
env = record {
  rt = ascii;
  settings = settings;
  server = server;
  te_server = fixed;
  digest = digest;
  others = nobody;
  te_others = [];
  takes = λ o. true;
  audit_fails = false;
}

abbrev sender : Sender
sender = record {
  actor = some (codes "ann");
  tenant_schema = codes "tenant_one";
  now = 5;
  upload_id = 3;
  audit_id = 4;
}

abbrev request : UploadRequest
request = record {
  file_name = codes "a.csv";
  content = codes "n\nx\n";
  types = none;
  overwrite = false;
  mode = codes "dynamic";
  target_table = none;
}

abbrev before : World
before = record { loaded = record { stored = []; db = no_files }; originals = []; audit = [] }

abbrev response : Response
response = record {
  report = record {
    status = codes "ok";
    file_id = some 1;
    table_name = some (codes "csv_n\nx\n");
    total_rows = some 1;
    inserted_rows = some 1;
    failed_rows = some 0;
    row_errors = [];
    columns = some (codes "n" ∷ []);
    types = some (text ∷ []);
  };
  upload_id = some 3;
}

abbrev after : World
after = (upload env sender request before).1

upload_run : upload env sender request before ≡ (ok response, after)
unfolding upload load upload_dynamic dynamic_report utf8 record_upload outcome parse_csv find_file
    sanitize_columns strip_by strip valid_identifier allowed_type find_table cast_rows cast_row
    extra_cells cast_cells cast_value join_cells insert_chunks register report
upload_run = refl

upload_original-upload_example : IsRetrieved env request response.report 3 after
upload_original-upload_example =
    upload_original-upload env sender request before after response 3 upload_run refl

abbrev with_file : World
with_file = record before {
  loaded = record { stored = []; db = record no_files { files = other_file ∷ [] } };
}

delete_file_run : (delete_file env sender 1 with_file).0 ≡ ok 1
unfolding delete_file find_file write_audit
delete_file_run = refl

delete_file-Deletes_example : Deletes env sender 1 with_file (delete_file env sender 1 with_file)
delete_file-Deletes_example = delete_file-Deletes env sender 1 with_file (refl, tt)
