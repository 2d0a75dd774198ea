-- ===== src/DynamicLoader/Atomic.antt =====
-- api/services/dynamic_loader.py: what an upload does to the database.
use postgre_data_migration_a.Prelude.{
  false, Option, none, some, List, ◌++◌, ◌≡◌, refl, ◌⊎◌, inl, inr, length, Text, starts_with,
}
use postgre_data_migration_a.Python.{Runtime}
use postgre_data_migration_a.Config.{Settings}
use postgre_data_migration_a.CsvParse.Types.{ColType}
use postgre_data_migration_a.CsvParse.Columns.{sanitize_columns}
use postgre_data_migration_a.Registry.{
  CsvFile, Table, Db, Server, Others, find_table, csv_prefix, register, insert_chunks,
}
use postgre_data_migration_a.DynamicLoader.Rows.{casting, cast_rows}
use postgre_data_migration_a.DynamicLoader.Result.{
  Upload, error, crashed, database_error, Flow, go, stop,
}
use postgre_data_migration_a.DynamicLoader.Checks.{Request, Work, chunk_size}
use postgre_data_migration_a.DynamicLoader.{
  Prepared, fill, prepare, file_row, conclude, do_upload, commit_or_lose,
}
use postgre_data_migration_a.DynamicLoader.Flows.{
  is_ok, Goes, bind-Goes, IsTidy, check_duplicates-Goes, set_table-IsTidy, Any, or_stop-Goes,
  check_columns-Goes, check_types-Goes, create_table-Goes, check_some-Goes,
}

module _ (rt : Runtime) (settings : Settings) (server : Server) (others : Others) (req : Request)
    (header : List Text) (rows : List (List Text)) (db : Db) where
  fill-Goes :
      (w : Work) (columns : List Text) (types : List ColType) (table : Table)
      → IsTidy db w.db
      → Goes (λ p. IsTidy db p.db) (fill rt settings server req rows w columns types table)
  unfolding fill
  fill-Goes w columns types table tidy =
      let Q : Prepared → Type 0 = λ p. IsTidy db p.db in
      bind-Goes Any Q _ _
        (or_stop-Goes crashed (cast_rows rt settings.max_row_errors columns types casting 1 rows)
          refl)
        (λ s _. bind-Goes Any Q _ _ (check_some-Goes (length rows) _ _ s) (λ cast _.
          bind-Goes Any Q _ _
            (or_stop-Goes (error database_error)
              (insert_chunks server table.types chunk_size (length cast.to_insert) table.rows
                cast.to_insert 0)
              refl)
            (λ filled _. set_table-IsTidy req db w.db (record table { rows = filled.0 }) tidy)))

  prepare-Goes : Goes (λ p. IsTidy db p.db) (prepare rt settings server others req header rows db)
  unfolding prepare
  prepare-Goes =
      let Q : Prepared → Type 0 = λ p. IsTidy db p.db in
      bind-Goes (λ (w : Work). IsTidy db w.db) Q _ _
        (check_duplicates-Goes req db _ (record { unique = λ gs u. u; foreign = λ n e. refl }))
        (λ w tidy.
          bind-Goes Any Q _ _ (check_columns-Goes (sanitize_columns rt header)) (λ columns _.
            bind-Goes Any Q _ _ (check_types-Goes columns req.types) (λ types _.
              bind-Goes Any Q _ _ (create_table-Goes server others req columns types w.db)
                (λ table _. fill-Goes w columns types table tidy))))

  abbrev outcome : Upload × Db
  outcome = do_upload rt settings server others req header rows db

  conclude_atomic :
      (m : Flow Prepared)
      → Goes (λ p. IsTidy db p.db) m
      → is_ok (conclude others req (length rows) db m).0 ≡ false
      → ((conclude others req (length rows) db m).1.tables ≡ db.tables)
        × (((conclude others req (length rows) db m).1.files ≡ db.files)
            ⊎ ((conclude others req (length rows) db m).1.files ≡ db.files ++ others.registered))
  conclude_atomic (stop u) h e = (refl, inl refl)
  conclude_atomic (go p) h e =
      lost (register (p.db.files ++ others.registered) (file_row req (length rows) p)) e
    where
      lost :
          (o : Option (List CsvFile))
          → is_ok (commit_or_lose others req (length rows) db p o).0 ≡ false
          → ((commit_or_lose others req (length rows) db p o).1.tables ≡ db.tables)
            × (((commit_or_lose others req (length rows) db p o).1.files ≡ db.files)
                ⊎ ((commit_or_lose others req (length rows) db p o).1.files
                    ≡ db.files ++ others.registered))
      lost none k = (refl, inr refl)
      lost (some files) k = cc

  -- An upload that does not succeed leaves the tables and the registry as they were, but for what
  -- other sessions registered meanwhile.
  pub do_upload_atomic :
      is_ok outcome.0 ≡ false
      → (outcome.1.tables ≡ db.tables)
        × ((outcome.1.files ≡ db.files) ⊎ (outcome.1.files ≡ db.files ++ others.registered))
  unfolding do_upload
  do_upload_atomic e =
      conclude_atomic (prepare rt settings server others req header rows db) prepare-Goes e

  conclude_foreign :
      (m : Flow Prepared) (n : Text)
      → Goes (λ p. IsTidy db p.db) m
      → starts_with n csv_prefix ≡ false
      → find_table n (conclude others req (length rows) db m).1.tables ≡ find_table n db.tables
  conclude_foreign (stop u) n h e = refl
  conclude_foreign (go p) n h e =
      either (register (p.db.files ++ others.registered) (file_row req (length rows) p))
    where
      either :
          (o : Option (List CsvFile))
          → find_table n (commit_or_lose others req (length rows) db p o).1.tables
            ≡ find_table n db.tables
      either none = refl
      either (some files) = h.foreign n e

  -- No upload, whatever it ends with, drops, creates or fills a table whose name lacks the prefix
  -- csv_.
  pub do_upload_foreign :
      (n : Text)
      → starts_with n csv_prefix ≡ false
      → find_table n outcome.1.tables ≡ find_table n db.tables
  unfolding do_upload
  do_upload_foreign n e =
      conclude_foreign (prepare rt settings server others req header rows db) n prepare-Goes e
