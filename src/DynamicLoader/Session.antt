-- ===== src/DynamicLoader/Session.antt =====
-- `_do_upload` of api/services/dynamic_loader.py on a connection of api/db.py: each statement changes
-- what the open transaction sees, a commit makes it the database, a rollback forgets it, and the pool
-- rolls back what is open when the connection is returned. A result that is returned early leaves the
-- transaction as it is.
pub mod Committed
use postgre_data_migration_a.Prelude.{
  ℕ, zero, suc, ◌+◌, Option, none, some, List, [], ◌∷◌, ◌++◌, take, drop, length, Text, same,
  if◌then◌else◌,
}
use postgre_data_migration_a.Python.{Runtime}
use postgre_data_migration_a.Config.{Settings}
use postgre_data_migration_a.CsvParse.Columns.{sanitize_columns}
use postgre_data_migration_a.CsvParse.Types.{ColType}
use postgre_data_migration_a.Registry.{
  CsvFile, Table, Db, Server, Others, find_file, set_table, by_name, by_hash, clashes, remove_file,
  register, insert_rows,
}
use postgre_data_migration_a.DynamicLoader.Rows.{Row, Casting, casting, cast_rows}
use postgre_data_migration_a.DynamicLoader.Result.{
  DupReason, content, database_error, Upload, error, ok, crashed, Flow, go, stop, or_stop,
}
use postgre_data_migration_a.DynamicLoader.Checks.{
  Request, table_of, name_reason, existing, or_else, check_columns, check_types, create_table,
  check_some, chunk_size,
}
use postgre_data_migration_a.DynamicLoader.{Prepared, file_row, loaded, lost_race}

-- The database, and what the open transaction sees.
pub record Connection : Type 0 where
  pub committed : Db
  pub working : Db

abbrev pub Tx : Type 0 → Type 0
Tx A = Connection → Flow A × Connection

module _ {A B : Type 0} where
  abbrev pub then_do : (A → Tx B) → Flow A × Connection → Flow B × Connection
  then_do f (go a, s) = f a s
  then_do f (stop u, s) = (stop u, s)

infixl 5 ◌>>=◌
abbrev pub ◌>>=◌ : {A B : Type 0} → Tx A → (A → Tx B) → Tx B
◌>>=◌ m f s = then_do f (m s)

abbrev pub done : {A : Type 0} → Flow A → Tx A
done m s = (m, s)

abbrev pub fetch : Tx Db
fetch s = (go s.working, s)

abbrev pub execute : Db → Tx (Unit {0})
execute db s = (go tt, record s { working = db })

abbrev pub commit : Tx (Unit {0})
commit s = (go tt, record s { committed = s.working })

abbrev pub rolled_back : Connection → Connection
rolled_back s = record s { working = s.committed }

abbrev pub rollback : Tx (Unit {0})
rollback s = (go tt, rolled_back s)

-- An id is drawn from the sequence, which no rollback turns back.
abbrev pub draw_id : Tx (Unit {0})
draw_id s = (
  go tt,
  record {
    committed = record (s.committed) { next_id = s.committed.next_id + 1 };
    working = record (s.working) { next_id = s.working.next_id + 1 };
  },
)

-- What other sessions commit is seen by the next statement.
abbrev pub others_commit : List CsvFile → Tx (Unit {0})
others_commit files s = (
  go tt,
  record {
    committed = record (s.committed) { files = s.committed.files ++ files };
    working = record (s.working) { files = s.working.files ++ files };
  },
)

-- The end of `with Conn()`: `putconn` rolls back.
abbrev pub with_conn : Flow Upload × Connection → Upload × Connection
with_conn (go u, s) = (u, rolled_back s)
with_conn (stop u, s) = (u, rolled_back s)

abbrev pub overwrite_one :
    Request → (CsvFile → DupReason) → Option Text → CsvFile → Tx (Option Text)
overwrite_one req reason replaced f = do
  db ← fetch
  _ ← execute (remove_file f db)
  done (go (or_else replaced f.file_name))

abbrev pub match_one :
    Request → (CsvFile → DupReason) → Option Text → Option CsvFile → Tx (Option Text)
match_one req reason replaced none = done (go replaced)
match_one req reason replaced (some f) =
    if req.overwrite
    then overwrite_one req reason replaced f
    else done (stop (existing (reason f) f))

-- The duplicate checks: `replaced_file_name`.
unfoldable pub match_files : Request → Tx (Option Text)
match_files req = do
  db ← fetch
  replaced ← match_one req (name_reason req) none (find_file (by_name req.file_name) db.files)
  now ← fetch
  match_one req (λ f. content) replaced (find_file (by_hash req.file_hash) now.files)

-- #123: the rollback in front of the result that no row could be imported.
abbrev pub or_rollback : {A : Type 0} → Flow A → Tx A
or_rollback (go a) = done (go a)
or_rollback (stop u) = do _ ← rollback; done (stop u)

abbrev pub with_rows : Request → Table → List Row → Db → Db
with_rows req table rows db = record db {
  tables = set_table (table_of req) (record table { rows = rows }) db.tables;
}

-- The INSERTs chunk by chunk, into the table with `rows`: how many rows were inserted.
unfoldable pub execute_chunks : Server → Request → Table → ℕ → ℕ → List Row → List Row → ℕ → Tx ℕ
execute_chunks server req table size fuel rows [] inserted = done (go inserted)
execute_chunks server req table size zero rows (r ∷ new) inserted =
    done (stop (error database_error))
execute_chunks server req table size (suc fuel) rows (r ∷ new) inserted =
    elim (insert_rows server table.types rows (take size (r ∷ new))) [
      | none ↦ done (stop (error database_error))
      | some p ↦ do
        db ← fetch
        _ ← execute (with_rows req table p.0 db)
        execute_chunks server req table size fuel p.0 (drop size (r ∷ new)) (inserted + p.1)
    ]

-- Behind CREATE TABLE, up to the INSERT into the registry.
unfoldable pub fill_table :
    Runtime
    → Settings
    → Server
    → Request
    → List (List Text)
    → Option Text
    → List Text
    → List ColType
    → Table
    → Tx Prepared
unfolding execute_chunks check_some
fill_table rt settings server req rows replaced columns types table = do
  s ← done (or_stop crashed (cast_rows rt settings.max_row_errors columns types casting 1 rows))
  cast ← or_rollback (check_some (length rows) columns types s)
  inserted ←
      execute_chunks server req table chunk_size (length cast.to_insert) table.rows cast.to_insert 0
  db ← fetch
  done (
      go (record {
        db = db;
        replaced = replaced;
        columns = columns;
        types = types;
        cast = cast;
        inserted = inserted;
      }))

-- Up to the INSERT into the registry.
unfoldable pub transact :
    Runtime → Settings → Server → Others → Request → List Text → List (List Text) → Tx Prepared
unfolding match_files check_columns check_types create_table fill_table
transact rt settings server others req header rows = do
  replaced ← match_files req
  columns ← done (check_columns (sanitize_columns rt header))
  types ← done (check_types columns req.types)
  db ← fetch
  table ← done (create_table server others req columns types db)
  _ ← execute (with_rows req table table.rows db)
  fill_table rt settings server req rows replaced columns types table

-- Behind the INSERT into the registry: the commit, or the rollback and the row that is there.
abbrev pub registered : Request → ℕ → Prepared → Option (List CsvFile) → Tx Upload
registered req total p (some files) = do
  db ← fetch
  _ ← execute (record db { files = files })
  _ ← commit
  done (go (ok (loaded req total p)))
registered req total p none = do
  _ ← rollback
  db ← fetch
  done (go (lost_race req (find_file (clashes req.file_name req.file_hash) db.files)))

abbrev pub register_file : Others → Request → ℕ → Prepared → Tx Upload
register_file others req total p = do
  _ ← others_commit others.registered
  db ← fetch
  _ ← draw_id
  registered req total p (register db.files (file_row req total p))

-- `_do_upload` with its connection.
unfoldable pub do_upload_on :
    Runtime
    → Settings
    → Server
    → Others
    → Request
    → List Text
    → List (List Text)
    → Connection
    → Upload × Connection
unfolding transact
do_upload_on rt settings server others req header rows s = with_conn (
    then_do (register_file others req (length rows))
      (transact rt settings server others req header rows s))
