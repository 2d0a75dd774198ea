-- ===== src/Routes.antt =====
-- api/routers/csv_routes.py: the routes on the tables of one schema, behind `allow`.
pub mod Uploads
pub mod Removal
pub mod Deletes
pub mod Reading
pub mod Retrieval
use postgre_data_migration_a.Prelude.{
  ℕ, ◌+◌, Bool, true, false, ◌&&◌, ◌||◌, not, Option, none, some, List, [], ◌∷◌, ◌++◌, any, take,
  drop, length, min, max, Text, codes, same, starts_with, ltb, ◌==◌, if◌then◌else◌,
}
use postgre_data_migration_a.Python.{Runtime}
use postgre_data_migration_a.Config.{Settings}
use postgre_data_migration_a.CsvParse.Cast.{ℤ, pos, negsuc}
use postgre_data_migration_a.CsvParse.Preview.{Preview, build_preview}
use postgre_data_migration_a.CsvParse.Preview
use postgre_data_migration_a.Registry.{
  CsvFile, Mode, dynamic, te, Table, Db, Server, Others, find_file, delete_files, drop_table,
  find_table, by_id, is_dynamic, csv_prefix,
}
use postgre_data_migration_a.DynamicLoader.Rows
use postgre_data_migration_a.DynamicLoader.{upload_dynamic}
use postgre_data_migration_a.TeLoader.Insert.{TeServer}
use postgre_data_migration_a.TeLoader.{State, upload_te, match_te_table}
use postgre_data_migration_a.Audit.{Digest, Entry, write_audit, record_audit}
use postgre_data_migration_a.Audit
use postgre_data_migration_a.Auth.{Http, ok, http, crashed}
use postgre_data_migration_a.Originals.{
  Report, dynamic_report, te_report, utf8, Original, Sent, record_upload, find_original,
}

-- What the modelled code does not decide: the interpreter, the server, the other sessions.
pub record Env : Type 1 where
  pub rt : Runtime
  pub settings : Settings
  pub server : Server
  pub te_server : TeServer
  pub digest : Digest
  pub others : Others
  pub te_others : List CsvFile
  pub takes : Original → Bool
  pub audit_fails : Bool

-- The tables of the uploads schema, and the rows of a fixed table.
pub record World : Type 0 where
  pub loaded : State
  pub originals : List Original
  pub audit : List Audit.Row

-- Who sends a request and when, and the ids that the sequences give.
pub record Sender : Type 0 where
  pub actor : Option Text
  pub tenant_schema : Text
  pub now : ℕ
  pub upload_id : ℕ
  pub audit_id : ℕ

pub record UploadRequest : Type 0 where
  pub file_name : Text
  pub content : Text
  pub types : Option (List Text)
  pub overwrite : Bool
  pub mode : Text
  pub target_table : Option Text

-- A result with its `uploadId`.
pub record Response : Type 0 where
  pub report : Report
  pub upload_id : Option ℕ

abbrev pub te_mode : Text
te_mode = codes "te"

abbrev pub dynamic_mode : Text
dynamic_mode = codes "dynamic"

abbrev pub load_te : Env → UploadRequest → State → Option Text → Http (Option Report × State)
load_te env req s none = http 422
load_te env req s (some []) = http 422
load_te env req s (some (c ∷ target)) =
    let done =
      upload_te env.rt env.te_server env.settings env.te_others req.file_name req.content
        (c ∷ target) s in
    ok (te_report done.0, done.1)

abbrev pub load_dynamic : Env → UploadRequest → State → Http (Option Report × State)
load_dynamic env req s =
    let done =
      upload_dynamic env.rt env.settings env.server env.others req.file_name req.content req.types
        req.overwrite s.db in
    ok (dynamic_report done.0, record s { db = done.1 })

-- The loader that the mode names.
unfoldable pub load : Env → UploadRequest → State → Http (Option Report × State)
load env req s =
    if same req.mode te_mode
    then load_te env req s req.target_table
    else if same req.mode dynamic_mode
    then load_dynamic env req s
    else http 422

abbrev pub sent_of : Sender → UploadRequest → Sent
sent_of sender req = record {
  id = sender.upload_id;
  actor = sender.actor;
  file_name = req.file_name;
  content = req.content;
  mode = req.mode;
}

abbrev pub upload_entry : Sender → UploadRequest → Report → Entry
upload_entry sender req r = record {
  id = sender.audit_id;
  action = codes "upload";
  file_id = r.file_id;
  file_name = some req.file_name;
  table_name = r.table_name;
  mode = some req.mode;
  performed_at = sender.now;
  actor = sender.actor;
  tenant_schema = sender.tenant_schema;
  before_value = none;
  after_value = none;
}

-- Behind the loader: the original, then the audit row of a genuine load.
abbrev pub keep :
    Env → Sender → UploadRequest → List ℕ → World → Option Report × State → Http Response × World
keep env sender req bytes w (none, s) = (crashed, record w { loaded = s })
keep env sender req bytes w (some r, s) =
    let stored =
      record_upload env.rt env.takes env.settings.max_row_errors (sent_of sender req) r bytes
        w.originals in
    let audited = record_audit env.digest env.audit_fails (upload_entry sender req r) w.audit in
    (
      ok (record { report = r; upload_id = stored.0 }),
      record {
        loaded = s;
        originals = stored.1;
        audit = if same r.status (codes "ok") then audited.1 else w.audit;
      },
    )

abbrev pub kept :
    Env
    → Sender
    → UploadRequest
    → List ℕ
    → World
    → Http (Option Report × State)
    → Http Response × World
kept env sender req bytes w (ok done) = keep env sender req bytes w done
kept env sender req bytes w (http status) = (http status, w)
kept env sender req bytes w crashed = (crashed, w)

abbrev pub upload_bytes :
    Env → Sender → UploadRequest → World → Option (List ℕ) → Http Response × World
upload_bytes env sender req w none = (crashed, w)
upload_bytes env sender req w (some bytes) =
    if ltb env.settings.max_upload_bytes (length bytes)
    then (http 413, w)
    else kept env sender req bytes w (load env req w.loaded)

-- `upload`.
unfoldable pub upload : Env → Sender → UploadRequest → World → Http Response × World
unfolding load
upload env sender req w = upload_bytes env sender req w (utf8 req.content)

abbrev pub mode_text : Mode → Text
mode_text dynamic = dynamic_mode
mode_text te = te_mode

abbrev pub delete_entry : Sender → CsvFile → Entry
delete_entry sender f = record {
  id = sender.audit_id;
  action = codes "delete";
  file_id = some f.id;
  file_name = some f.file_name;
  table_name = some f.table_name;
  mode = some (mode_text f.mode);
  performed_at = sender.now;
  actor = sender.actor;
  tenant_schema = sender.tenant_schema;
  before_value = none;
  after_value = none;
}

-- DROP TABLE for a dynamic upload, and DELETE FROM csv_files.
unfoldable pub delete_row : CsvFile → Db → Db
delete_row f db = record db {
  files = delete_files (by_id f.id) db.files;
  tables = if is_dynamic f.mode then drop_table f.table_name db.tables else db.tables;
}

-- `write_audit` in the same transaction, then the commit.
abbrev pub delete_audited : CsvFile → World → Option (List Audit.Row) → Http ℕ × World
delete_audited f w none = (crashed, w)
delete_audited f w (some log) = (
  ok f.id,
  record w { loaded = record (w.loaded) { db = delete_row f w.loaded.db }; audit = log },
)

abbrev pub delete_found : Digest → Sender → World → Option CsvFile → Http ℕ × World
delete_found digest sender w none = (http 404, w)
delete_found digest sender w (some f) =
    delete_audited f w (write_audit digest (delete_entry sender f) w.audit)

-- `delete_file`.
unfoldable pub delete_file : Env → Sender → ℕ → World → Http ℕ × World
unfolding delete_row
delete_file env sender file_id w =
    if env.settings.allow_destructive
    then delete_found env.digest sender w (find_file (by_id file_id) w.loaded.db.files)
    else (http 403, w)
