-- ===== src/Routes/Deletes.antt =====
-- `delete_file` of api/routers/csv_routes.py: what a deletion removes, and what it leaves.
use postgre_data_migration_a.Prelude.{
  ℕ, Bool, true, false, Option, none, some, List, ◌≡◌, refl, sym, ap, ◌∙◌, inl, inr, ◌⊎◌, any,
  subst, ==_iff, if◌then◌else◌,
}
use postgre_data_migration_a.Registry.{CsvFile, find_file, delete_files, clashes, by_id, is_dynamic}
use postgre_data_migration_a.Registry.Unique.{IsUnique}
use postgre_data_migration_a.Audit.{Row, write_audit}
use postgre_data_migration_a.Audit.Chain.{first_bad-write_audit}
use postgre_data_migration_a.Auth.{Http, ok, http, crashed}
use postgre_data_migration_a.Routes.{
  Env, World, Sender, delete_entry, delete_row, delete_audited, delete_found, delete_file,
}
use postgre_data_migration_a.Routes.Removal.{
  find_file-holds, find_file-delete_files, find_file-delete_other, any-delete_found, IsDeleted,
  IsUnique-delete, written_delete, by_id_apart, tables_apart, tables_shared,
}

module _ (env : Env) (sender : Sender) (id : ℕ) (w : World) where
  -- What `delete_file` may answer and leave.
  abbrev pub Deletes : Http ℕ × World → Type 0
  Deletes (ok n, new) = (n ≡ id) × ((f : CsvFile) × IsDeleted env.digest id f w new)
  Deletes (http status, new) =
      (new ≡ w)
      × (((status ≡ 403) × (env.settings.allow_destructive ≡ false))
          ⊎ ((status ≡ 404) × (find_file (by_id id) w.loaded.db.files ≡ none)))
  Deletes (crashed, new) = ⊥

  delete_audited-Deletes :
      (f : CsvFile) (o : Option (List Row))
      → IsUnique w.loaded.db.files
      → find_file (by_id id) w.loaded.db.files ≡ some f
      → write_audit env.digest (delete_entry sender f) w.audit ≡ o
      → Deletes (delete_audited f w o)
  unfolding delete_row
  delete_audited-Deletes f none unique e written =
      absurd (written_delete env.digest sender f w.audit written)
  delete_audited-Deletes f (some log) unique e written =
      let fs = w.loaded.db.files in
      let own : f.id ≡ id = (==_iff f.id id).0 (find_file-holds (by_id id) fs e) in
      let left : delete_files (by_id id) fs ≡ delete_files (by_id f.id) fs =
        ap (λ i. delete_files (by_id i) fs) (sym own) in
      let grown = first_bad-write_audit env.digest (delete_entry sender f) w.audit log written in
      (
        own,
        (
          f,
          record {
            found = e;
            gone =
                subst (λ l. find_file (by_id id) l ≡ none) left
                  (find_file-delete_files (by_id id) fs);
            free =
                subst (λ l. any (clashes f.file_name f.file_hash) l ≡ false) left
                  (any-delete_found id fs unique e);
            unique = IsUnique-delete f.id fs unique;
            others = λ j apart.
                ap (find_file (by_id j)) (sym left)
                ∙ find_file-delete_other (by_id id) (by_id j) (by_id_apart id j apart) fs;
            tables =
                λ n apart. tables_apart (is_dynamic f.mode) n f.table_name w.loaded.db.tables apart;
            shared = tables_shared (is_dynamic f.mode) f.table_name w.loaded.db.tables;
            stored = refl;
            originals = refl;
            rows = grown.1;
            intact = grown.0;
          },
        ),
      )

  delete_found-Deletes :
      (o : Option CsvFile)
      → IsUnique w.loaded.db.files
      → find_file (by_id id) w.loaded.db.files ≡ o
      → Deletes (delete_found env.digest sender w o)
  delete_found-Deletes none unique e = (refl, inr (refl, e))
  delete_found-Deletes (some f) unique e =
      delete_audited-Deletes f (write_audit env.digest (delete_entry sender f) w.audit) unique e
        refl

  allowed-Deletes :
      (b : Bool)
      → IsUnique w.loaded.db.files
      → env.settings.allow_destructive ≡ b
      → Deletes (
          if b
          then delete_found env.digest sender w (find_file (by_id id) w.loaded.db.files)
          else (http 403, w))
  allowed-Deletes true unique e =
      delete_found-Deletes (find_file (by_id id) w.loaded.db.files) unique refl
  allowed-Deletes false unique e = (refl, inl (refl, e))

  -- In a registry with its UNIQUE indexes a deletion removes the row of the id, after which no row
  -- has the name or the hash of the deleted file, so that it can be loaded again; the rows of other
  -- ids stay, and the tables but that of a dynamic upload, and the rows of the fixed tables and the
  -- originals; the audit log has one row more, and its verification the same verdict. The other
  -- answers change nothing: a 403 where destructive operations are disabled, and a 404 where no row
  -- has the id.
  pub delete_file-Deletes : IsUnique w.loaded.db.files → Deletes (delete_file env sender id w)
  unfolding delete_file
  delete_file-Deletes unique = allowed-Deletes env.settings.allow_destructive unique refl
