-- ===== src/DynamicLoader/Counts.antt =====
-- api/services/dynamic_loader.py: what a successful upload reports, stores and registers.
use postgre_data_migration_a.Prelude.{
  ℕ, ◌+◌, true, false, Option, none, some, List, [], ◌++◌, ◌≡◌, refl, sym, ap, ◌∙◌, subst, arith,
  All, length, min, distinct, Text,
}
use postgre_data_migration_a.Python.{Runtime}
use postgre_data_migration_a.Config.{Settings}
use postgre_data_migration_a.CsvParse.Types.{ColType}
use postgre_data_migration_a.CsvParse.Columns.{sanitize_columns}
use postgre_data_migration_a.Registry.{
  CsvFile, Db, Server, Others, find_file, find_table, set_table, by_name, clashes, register,
  insert_chunks,
}
use postgre_data_migration_a.Registry.Unique.{find_file-register}
use postgre_data_migration_a.DynamicLoader.Rows.{Row, Casting, casting, cast_rows}
use postgre_data_migration_a.DynamicLoader.Rows.Accounting.{
  IsAccounted, Ends, cast_rows-IsAccounted,
}
use postgre_data_migration_a.DynamicLoader.Result.{
  Upload, invalid_structure, error, duplicate_file, ok, crashed, database_error, Flow, go, stop,
  or_stop, Loaded,
}
use postgre_data_migration_a.DynamicLoader.Checks.{Request, table_of, Work, chunk_size}
use postgre_data_migration_a.DynamicLoader.{
  Prepared, fill, prepare, file_row, conclude, do_upload, commit_or_lose, lost_race,
}
use postgre_data_migration_a.DynamicLoader.Flows.{Goes, bind-Goes, Any, check_columns-Goes, is_ok}
use postgre_data_migration_a.DynamicLoader.Stages.{
  IsAbsent, check_duplicates-IsAbsent, or_stop-Goes, check_types-length, IsNew, create_table-IsNew,
  inserted_lem, IsCounted, find_table-set_table_own, check_some-Goes,
}

module _ (rt : Runtime) (settings : Settings) (server : Server) (others : Others) (req : Request)
    (header : List Text) (rows : List (List Text)) (db : Db) where
  abbrev Counted : Prepared → Type 0
  Counted = IsCounted settings.max_row_errors (length rows) (table_of req)

  -- The INSERT, and the record that `prepare` ends with.
  filled-Counted :
      (w : Work) (columns : List Text) (types : List ColType) (cast : Casting)
      → length types ≡ length columns
      → IsAccounted settings.max_row_errors (length columns) (length rows) cast
      → (filled : List Row × ℕ)
      → insert_chunks server types chunk_size (length cast.to_insert) [] cast.to_insert 0
        ≡ some filled
      → Counted (record {
        db = record (w.db) {
          tables =
              set_table
                (table_of req)
                (record { columns = columns; types = types; rows = filled.0 })
                w.db.tables;
        };
        replaced = w.replaced;
        columns = columns;
        types = types;
        cast = cast;
        inserted = filled.1;
      })
  filled-Counted w columns types cast e h filled k =
      let all_in : filled ≡ (cast.to_insert, length cast.to_insert) =
        inserted_lem server types cast.to_insert
          (subst (λ l. distinct l ≡ true) (sym h.inserted) h.hashes) k in
      let same_count : filled.1 ≡ length cast.to_insert = ap (λ p. p.1) all_in in
      record {
        counts = omega (arith, same_count, h.rows);
        errors = h.errors;
        aligned = e;
        stored =
            find_table-set_table_own (table_of req) _ w.db.tables
            ∙ ap
                (λ (p : List Row × ℕ).
                  some (record { columns = columns; types = types; rows = p.0 }))
                all_in;
        inserted = sym same_count;
        widths = h.widths;
      }

  fill-Counted :
      (w : Work) (columns : List Text) (types : List ColType)
      → length types ≡ length columns
      → Goes Counted (
          fill rt settings server req rows w columns types
            (record { columns = columns; types = types; rows = [] }))
  unfolding fill
  fill-Counted w columns types e =
      let Q : Casting → Type 0 =
        IsAccounted settings.max_row_errors (length columns) (length rows) in
      bind-Goes Q Counted _ _
        (or_stop-Goes Q crashed (cast_rows rt settings.max_row_errors columns types casting 1 rows)
          refl
          (λ s k.
            subst (Ends Q) k
              (cast_rows-IsAccounted rt settings.max_row_errors columns types rows e)))
        (λ s h. bind-Goes Q Counted _ _ (check_some-Goes Q (length rows) _ _ s h) (λ cast g.
          let inserting : Option (List Row × ℕ) =
            insert_chunks server types chunk_size (length cast.to_insert) [] cast.to_insert 0 in
          let R : (List Row × ℕ) → Type 0 = λ filled. inserting ≡ some filled in
          bind-Goes R Counted (or_stop (error database_error) inserting) _
            (or_stop-Goes R (error database_error) inserting refl (λ filled k. k))
            (filled-Counted w columns types cast e g)))

  prepare-Counted :
      IsAbsent (table_of req) db
      → Goes Counted (prepare rt settings server others req header rows db)
  unfolding prepare
  prepare-Counted a =
      bind-Goes (λ (w : Work). IsAbsent (table_of req) w.db) Counted _ _
        (check_duplicates-IsAbsent req (table_of req) _ a)
        (λ w absent.
          bind-Goes Any Counted _ _ (check_columns-Goes (sanitize_columns rt header)) (λ columns _.
            bind-Goes (λ cs. length cs ≡ length columns) Counted _ _
              (check_types-length columns req.types)
              (λ types e.
                bind-Goes (IsNew columns types) Counted _ _
                  (create_table-IsNew server others req columns types w.db absent)
                  (λ table new.
                    subst (λ t. Goes Counted (fill rt settings server req rows w columns types t))
                      (sym new) (fill-Counted w columns types e)))))

  -- What holds of a success: the counters add up, the error list has its length, the new table has
  -- the inserted rows, and the registry finds the upload by its name.
  pub record IsReported (l : Loaded) (new : Db) : Type 0 where
    total : l.total_rows ≡ length rows
    counts : l.inserted_rows + l.duplicate_rows_skipped + l.failed_rows ≡ l.total_rows
    errors : length l.row_errors ≡ min l.failed_rows settings.max_row_errors
    aligned : length l.types ≡ length l.columns
    stored :
        (kept : List Row) × (find_table l.table_name new.tables
          ≡ some (record { columns = l.columns; types = l.types; rows = kept }))
        × (length kept ≡ l.inserted_rows)
        × All (λ r. length r.values ≡ length l.columns) kept
    registered :
        (f : CsvFile) × (find_file (by_name req.file_name) new.files ≡ some f)
        × (f.id ≡ l.file_id)
        × (f.table_name ≡ l.table_name)
        × (f.row_count ≡ l.inserted_rows)

  abbrev Reports : Upload → Db → Type 0
  Reports (ok l) new = IsReported l new
  Reports u new = Unit

  Reports-failure : (u : Upload) (new : Db) → is_ok u ≡ false → Reports u new
  Reports-failure (ok l) new e = cc
  Reports-failure (invalid_structure reason) new e = tt
  Reports-failure (error problem) new e = tt
  Reports-failure (duplicate_file reason name table_name count) new e = tt
  Reports-failure crashed new e = tt

  lost_race_fails : (o : Option CsvFile) → is_ok (lost_race req o) ≡ false
  lost_race_fails none = refl
  lost_race_fails (some f) = refl

  conclude-Reports :
      (m : Flow Prepared)
      → Goes Counted m
      → Reports
          (conclude others req (length rows) db m).0
          (conclude others req (length rows) db m).1
  conclude-Reports (stop u) h = Reports-failure u db h
  conclude-Reports (go p) h =
      finish (register (p.db.files ++ others.registered) (file_row req (length rows) p)) refl
    where
      finish :
          (o : Option (List CsvFile))
          → register (p.db.files ++ others.registered) (file_row req (length rows) p) ≡ o
          → Reports
              (commit_or_lose others req (length rows) db p o).0
              (commit_or_lose others req (length rows) db p o).1
      finish none e = Reports-failure _ _ (
          lost_race_fails
            (find_file (clashes req.file_name req.file_hash) (db.files ++ others.registered)))
      finish (some files) e = record {
        total = refl;
        counts = h.counts;
        errors = h.errors;
        aligned = h.aligned;
        stored = (p.cast.to_insert, h.stored, h.inserted, h.widths);
        registered = (file_row req (length rows) p, find_file-register _ _ e, refl, refl, refl);
      }

  -- Where no table has the name of the new one, a successful upload reports counters that add up to
  -- the number of data rows, an error list cut off at its limit, and a type for each column; the
  -- new table has as many rows as were inserted, with a value for each column; and the registry
  -- finds under the file's name a row with the reported id, table and count.
  pub do_upload-IsReported :
      (l : Loaded)
      → find_table (table_of req) db.tables ≡ none
      → (do_upload rt settings server others req header rows db).0 ≡ ok l
      → IsReported l (do_upload rt settings server others req header rows db).1
  unfolding do_upload
  do_upload-IsReported l a e =
      let m = prepare rt settings server others req header rows db in
      subst (λ u. Reports u (conclude others req (length rows) db m).1) e
        (conclude-Reports m (prepare-Counted a))
