-- ===== src/DynamicLoader/Session/Committed.antt =====
-- `_do_upload` on a connection: what it commits, and when.
use postgre_data_migration_a.Prelude.{
  ℕ, zero, suc, ◌+◌, false, Option, none, some, List, [], ◌∷◌, ◌++◌, ◌≡◌, refl, sym, ap, ◌∙◌, subst,
  ◌⊎◌, inl, inr, take, drop, length, Text, same, same_refl, Bool-cases,
}
use postgre_data_migration_a.Python.{Runtime}
use postgre_data_migration_a.Config.{Settings}
use postgre_data_migration_a.CsvParse.Columns.{sanitize_columns}
use postgre_data_migration_a.CsvParse.Types.{ColType}
use postgre_data_migration_a.Registry.{
  CsvFile, Table, Db, Server, Others, find_file, set_table, by_name, by_hash, remove_file, register,
  insert_rows, insert_chunks,
}
use postgre_data_migration_a.DynamicLoader.Rows.{Row, casting, cast_rows}
use postgre_data_migration_a.DynamicLoader.Result.{
  DupReason, content, database_error, Upload, error, crashed, Flow, go, stop, ◌>>=◌, or_stop,
}
use postgre_data_migration_a.DynamicLoader.Checks.{
  Request, table_of, name_reason, Work, on_match, check_duplicates, check_columns, check_types,
  create_table, check_some, chunk_size,
}
use postgre_data_migration_a.DynamicLoader.{Prepared, fill, prepare, file_row, conclude, do_upload}
use postgre_data_migration_a.DynamicLoader.Flows.{is_ok}
use postgre_data_migration_a.DynamicLoader.Atomic.{do_upload_atomic}
use postgre_data_migration_a.DynamicLoader.Session.{
  Connection, Tx, then_do, done, or_rollback, match_one, match_files, with_rows, execute_chunks,
  fill_table, transact, register_file, with_conn, do_upload_on,
}

-- A transaction that sees `new`, where `old` is committed.
abbrev at : Db → Db → Connection
at old new = record { committed = old; working = new }

-- A connection with no open transaction.
abbrev pub opened : Db → Connection
opened db = at db db

module _ (db : Db) where
  -- What a stage of the transaction ends with: the result of the flow, the database that the flow
  -- has made is seen, and `db` is still what is committed.
  abbrev Follows : {A B : Type 0} → (A → B) → (A → Db) → Flow A → Flow B × Connection → Type 0
  Follows V W (go a) (go b, s) = (b ≡ V a) × (s ≡ at db (W a)) × ((W a).next_id ≡ db.next_id)
  Follows V W (stop u) (stop v, s) = (v ≡ u) × (s.committed ≡ db)
  Follows V W _ _ = ⊥

  bind-Follows :
      {A B C D : Type 0} (V : A → B) (W : A → Db) (X : C → D) (Y : C → Db) (m : Flow A)
      (r : Flow B × Connection) (f : A → Flow C) (g : B → Tx D)
      → Follows V W m r
      → ((a : A) → (W a).next_id ≡ db.next_id → Follows X Y (f a) (g (V a) (at db (W a))))
      → Follows X Y (m >>= f) (then_do g r)
  bind-Follows V W X Y (go a) (go b, s) f g (is_b, is_s, id) k =
      subst (λ x. Follows X Y (f a) (g x s)) (sym is_b)
        (subst (λ x. Follows X Y (f a) (g (V a) x)) (sym is_s) (k a id))
  bind-Follows V W X Y (go a) (stop v, s) f g h k = absurd h
  bind-Follows V W X Y (stop u) (go b, s) f g h k = absurd h
  bind-Follows V W X Y (stop u) (stop v, s) f g h k = h

  done-Follows :
      {A : Type 0} (now : Db) (m : Flow A)
      → now.next_id ≡ db.next_id
      → Follows (λ a. a) (λ a. now) m (done m (at db now))
  done-Follows now (go a) id = (refl, refl, id)
  done-Follows now (stop u) id = (refl, refl)

  or_rollback-Follows :
      {A : Type 0} (now : Db) (m : Flow A)
      → now.next_id ≡ db.next_id
      → Follows (λ a. a) (λ a. now) m (or_rollback m (at db now))
  or_rollback-Follows now (go a) id = (refl, refl, id)
  or_rollback-Follows now (stop u) id = (refl, refl)

  match_one-Follows :
      (req : Request) (reason : CsvFile → DupReason) (w : Work) (o : Option CsvFile)
      → w.db.next_id ≡ db.next_id
      → Follows
          (λ (x : Work). x.replaced)
          (λ x. x.db)
          (on_match req reason w o)
          (match_one req reason w.replaced o (at db w.db))
  unfolding remove_file
  match_one-Follows req reason w none id = (refl, refl, id)
  match_one-Follows req reason w (some f) id = elim (Bool-cases req.overwrite) [
    | inl e ↦ rw e (refl, refl, id)
    | inr e ↦ rw e (refl, refl)
  ]

  match_files-Follows :
      (req : Request)
      → Follows
          (λ (w : Work). w.replaced)
          (λ w. w.db)
          (check_duplicates req (record { db = db; replaced = none }))
          (match_files req (at db db))
  unfolding check_duplicates match_files
  match_files-Follows req =
      bind-Follows (λ (w : Work). w.replaced) (λ w. w.db) (λ (w : Work). w.replaced) (λ w. w.db)
        (on_match req (name_reason req) (record { db = db; replaced = none })
          (find_file (by_name req.file_name) db.files))
        (match_one req (name_reason req) none (find_file (by_name req.file_name) db.files)
          (at db db))
        (λ w. on_match req (λ f. content) w (find_file (by_hash req.file_hash) w.db.files))
        (λ replaced s.
          match_one req (λ f. content) replaced (find_file (by_hash req.file_hash) s.working.files)
            s)
        (match_one-Follows req (name_reason req) (record { db = db; replaced = none })
          (find_file (by_name req.file_name) db.files) refl)
        (λ w id.
          match_one-Follows req (λ f. content) w (find_file (by_hash req.file_hash) w.db.files) id)

set_table-set_table :
    (n : Text) (t u : Table) (l : List (Text × Table))
    → set_table n u (set_table n t l) ≡ set_table n u l
unfolding set_table
set_table-set_table n t u [] = rw (same_refl n) refl
set_table-set_table n t u ((k, v) ∷ l) = elim (Bool-cases (same n k)) [
  | inl here ↦ rw (here, here) refl
  | inr other ↦ rw (other, other) (ap (λ x. (k, v) ∷ x) (set_table-set_table n t u l))
]

with_rows-with_rows :
    (req : Request) (table : Table) (before behind : List Row) (db : Db)
    → with_rows req table behind (with_rows req table before db) ≡ with_rows req table behind db
with_rows-with_rows req table before behind db =
    ap (λ l. record db { tables = l }) (set_table-set_table (table_of req) _ _ db.tables)

module _ (db : Db) (server : Server) (req : Request) (table : Table) (now : Db)
    (id : now.next_id ≡ db.next_id) where
  execute_chunks-Follows :
      (size fuel : ℕ) (rows new : List Row) (inserted : ℕ)
      → Follows db
          (λ (p : List Row × ℕ). p.1)
          (λ p. with_rows req table p.0 now)
          (or_stop
            (error database_error)
            (insert_chunks server table.types size fuel rows new inserted))
          (execute_chunks server req table size fuel rows new inserted
            (at db (with_rows req table rows now)))
  unfolding insert_chunks execute_chunks
  execute_chunks-Follows size fuel rows [] inserted = (refl, refl, id)
  execute_chunks-Follows size zero rows (r ∷ new) inserted = (refl, refl)
  execute_chunks-Follows size (suc fuel) rows (r ∷ new) inserted =
      next (insert_rows server table.types rows (take size (r ∷ new))) refl
        (λ p. execute_chunks-Follows size fuel p.0 (drop size (r ∷ new)) (inserted + p.1))
    where
      next :
          (o : Option (List Row × ℕ))
          → insert_rows server table.types rows (take size (r ∷ new)) ≡ o
          → ((p : List Row × ℕ)
              → Follows db
                  (λ (q : List Row × ℕ). q.1)
                  (λ q. with_rows req table q.0 now)
                  (or_stop (error database_error) (
                    insert_chunks server table.types size fuel p.0
                      (drop size (r ∷ new))
                      (inserted + p.1)))
                  (execute_chunks server req table size fuel p.0
                    (drop size (r ∷ new))
                    (inserted + p.1)
                    (at db (with_rows req table p.0 now))))
          → Follows db
              (λ (q : List Row × ℕ). q.1)
              (λ q. with_rows req table q.0 now)
              (or_stop
                (error database_error)
                (insert_chunks server table.types size (suc fuel) rows (r ∷ new) inserted))
              (execute_chunks server req table size
                (suc fuel)
                rows
                (r ∷ new)
                inserted
                (at db (with_rows req table rows now)))
      next none e later = rw (e, Follows, insert_chunks, execute_chunks) (refl, refl)
      next (some p) e later =
          rw (e, Follows, insert_chunks, execute_chunks, with_rows-with_rows req table rows p.0 now)
            (later p)

module _ (rt : Runtime) (settings : Settings) (server : Server) (others : Others) (req : Request)
    (header : List Text) (rows : List (List Text)) (db : Db) where
  abbrev self : {A : Type 0} → A → A
  self a = a

  abbrev db_of : Prepared → Db
  db_of p = p.db

  fill_table-Follows :
      (w : Work) (columns : List Text) (types : List ColType) (table : Table)
      → w.db.next_id ≡ db.next_id
      → Follows db self db_of (fill rt settings server req rows w columns types table) (
          fill_table rt settings server req rows w.replaced columns types table
            (at db (with_rows req table table.rows w.db)))
  unfolding fill fill_table
  fill_table-Follows w columns types table id =
      let now = with_rows req table table.rows w.db in
      let casts =
        or_stop crashed (cast_rows rt settings.max_row_errors columns types casting 1 rows) in
      bind-Follows db self (λ s. now) self db_of casts (done casts (at db now)) _ _
        (done-Follows db now casts id)
        (λ s _.
          bind-Follows db self (λ s. now) self db_of (check_some (length rows) columns types s)
            (or_rollback (check_some (length rows) columns types s) (at db now)) _ _
            (or_rollback-Follows db now (check_some (length rows) columns types s) id)
            (λ cast _.
              bind-Follows db (λ (p : List Row × ℕ). p.1) (λ p. with_rows req table p.0 w.db) self
                db_of
                (or_stop (error database_error) (
                  insert_chunks server table.types chunk_size (length cast.to_insert) table.rows
                    cast.to_insert 0))
                (execute_chunks server req table chunk_size (length cast.to_insert) table.rows
                  cast.to_insert 0 (at db now))
                _ _
                (execute_chunks-Follows db server req table w.db id chunk_size
                  (length cast.to_insert) table.rows cast.to_insert 0)
                (λ p id'. (refl, refl, id'))))

  transact-Follows :
      Follows db self db_of
        (prepare rt settings server others req header rows db)
        (transact rt settings server others req header rows (at db db))
  unfolding prepare transact
  transact-Follows =
      bind-Follows db (λ (w : Work). w.replaced) (λ w. w.db) self db_of
        (check_duplicates req (record { db = db; replaced = none })) (match_files req (at db db)) _
        _ (match_files-Follows db req)
        (λ w id.
          bind-Follows db self (λ c. w.db) self db_of (check_columns (sanitize_columns rt header))
            (done (check_columns (sanitize_columns rt header)) (at db w.db)) _ _
            (done-Follows db w.db (check_columns (sanitize_columns rt header)) id)
            (λ columns _.
              bind-Follows db self (λ c. w.db) self db_of (check_types columns req.types)
                (done (check_types columns req.types) (at db w.db)) _ _
                (done-Follows db w.db (check_types columns req.types) id)
                (λ types _.
                  bind-Follows db self (λ c. w.db) self db_of
                    (create_table server others req columns types w.db)
                    (done (create_table server others req columns types w.db) (at db w.db)) _ _
                    (done-Follows db w.db (create_table server others req columns types w.db) id)
                    (λ table _. fill_table-Follows w columns types table id))))

  -- No stage in front of the INSERT into the registry commits.
  Follows-committed :
      (m : Flow Prepared) (r : Flow Prepared × Connection)
      → Follows db self db_of m r
      → r.1.committed ≡ db
  Follows-committed (go a) (go b, s) (_, is_s, _) = ap (λ x. x.committed) is_s
  Follows-committed (go a) (stop v, s) h = absurd h
  Follows-committed (stop u) (go b, s) h = absurd h
  Follows-committed (stop u) (stop v, s) (_, kept) = kept

  abbrev concluding : Flow Prepared → Upload × Db
  concluding m = conclude others req (length rows) db m

  abbrev returned : Flow Prepared × Connection → Upload × Connection
  returned r = with_conn (then_do (register_file others req (length rows)) r)

  -- The commit, or the rollback, of a transaction that sees the database of `p`.
  registered-conclude :
      (p : Prepared) (o : Option (List CsvFile))
      → p.db.next_id ≡ db.next_id
      → register (p.db.files ++ others.registered) (file_row req (length rows) p) ≡ o
      → returned (go p, at db p.db) ≡ ((concluding (go p)).0, opened (concluding (go p)).1)
  registered-conclude p none id e = rw (e, id) refl
  registered-conclude p (some files) id e = rw e refl

  returned-conclude :
      (m : Flow Prepared) (r : Flow Prepared × Connection)
      → Follows db self db_of m r
      → returned r ≡ ((concluding m).0, opened (concluding m).1)
  returned-conclude (go a) (go b, s) (is_b, is_s, id) =
      ap (λ x. returned (go x, s)) is_b
      ∙ ap (λ x. returned (go a, x)) is_s
      ∙ registered-conclude a _ id refl
  returned-conclude (go a) (stop v, s) h = absurd h
  returned-conclude (stop u) (go b, s) h = absurd h
  returned-conclude (stop u) (stop v, s) (is_u, kept) =
      ap (λ x. (x, opened s.committed)) is_u ∙ ap (λ x. (u, opened x)) kept

  abbrev outcome : Upload × Connection
  outcome = do_upload_on rt settings server others req header rows (opened db)

  -- On a connection with no open transaction, no statement of an upload up to the INSERT into the
  -- registry changes what is committed, however it ends; and the whole upload returns the result of
  -- `do_upload`, leaves its database committed, and leaves no transaction open.
  pub do_upload_on-do_upload :
      ((transact rt settings server others req header rows (opened db)).1.committed ≡ db)
      × (outcome ≡ (
        (do_upload rt settings server others req header rows db).0,
        opened (do_upload rt settings server others req header rows db).1,
      ))
  unfolding do_upload_on do_upload
  do_upload_on-do_upload =
      (Follows-committed _ _ transact-Follows, returned-conclude _ _ transact-Follows)

  -- On a connection with no open transaction, an upload that does not succeed leaves the committed
  -- tables as they were, and the registry too but for what other sessions registered meanwhile, and
  -- leaves no transaction open.
  pub do_upload_on_atomic :
      is_ok outcome.0 ≡ false
      → (outcome.1.committed.tables ≡ db.tables)
        × ((outcome.1.committed.files ≡ db.files)
            ⊎ (outcome.1.committed.files ≡ db.files ++ others.registered))
        × (outcome.1.working ≡ outcome.1.committed)
  do_upload_on_atomic failed =
      let same_end = do_upload_on-do_upload.1 in
      let kept =
        do_upload_atomic rt settings server others req header rows db
          (ap (λ r. is_ok r.0) (sym same_end) ∙ failed) in
      (
        ap (λ r. r.1.committed.tables) same_end ∙ kept.0,
        elim kept.1 [
          | inl alone ↦ inl (ap (λ r. r.1.committed.files) same_end ∙ alone)
          | inr more ↦ inr (ap (λ r. r.1.committed.files) same_end ∙ more)
        ],
        ap (λ r. r.1.working) same_end ∙ sym (ap (λ r. r.1.committed) same_end),
      )
