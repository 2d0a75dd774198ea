-- ===== src/Routes/Removal.antt =====
-- api/routers/csv_routes.py: the registry and the tables behind the removal of a file.
use postgre_data_migration_a.Prelude.{
  ℕ, suc, Bool, true, false, ◌||◌, none, some, List, [], ◌∷◌, append-nil, ◌≡◌, ◌≢◌, refl, sym, ap,
  ◌∙◌, inl, inr, ◌⊎◌, arith, any, length, subst, Text, same, same_sym, ◌==◌, ==_iff, Bool-cases,
  if◌then◌else◌,
}
use postgre_data_migration_a.Registry.{
  CsvFile, Table, find_file, delete_files, find_table, drop_table, clashes, by_id, is_dynamic,
}
use postgre_data_migration_a.Registry.Unique.{IsUnique, any-delete_files, IsUnique-delete_files}
use postgre_data_migration_a.DynamicLoader.Flows.{find_table-drop_table}
use postgre_data_migration_a.Audit.{Digest, Row, write_audit, first_bad}
use postgre_data_migration_a.Routes.{World, Sender, delete_entry}

or_left : (a b : Bool) → (a || b) ≡ false → a ≡ false
or_left a b e = ground (arith, e)

or_right : (a b : Bool) → (a || b) ≡ false → b ≡ false
or_right a b e = ground (arith, e)

pub find_file-holds :
    (p : CsvFile → Bool) (fs : List CsvFile) {f : CsvFile} → find_file p fs ≡ some f → p f ≡ true
unfolding find_file
find_file-holds p [] e = cc
find_file-holds p (g ∷ fs) {f} e = elim (Bool-cases (p g)) [
  | inr passed ↦ find_file-holds p fs (rw passed at e)
  | inl here ↦
      let same_some : some g ≡ some f = rw here at e in
      let same_f : g ≡ f = cc same_some in subst (λ h. p h ≡ true) same_f here
]

-- A row that is found has no property that no row has.
any-find_file :
    (q p : CsvFile → Bool) (fs : List CsvFile) {f : CsvFile}
    → any q fs ≡ false
    → find_file p fs ≡ some f
    → q f ≡ false
unfolding find_file
any-find_file q p [] none_of e = cc
any-find_file q p (g ∷ fs) {f} none_of e = elim (Bool-cases (p g)) [
  | inr passed ↦ any-find_file q p fs (or_right (q g) _ none_of) (rw passed at e)
  | inl here ↦
      let same_some : some g ≡ some f = rw here at e in
      let same_f : g ≡ f = cc same_some in subst (λ h. q h ≡ false) same_f (or_left (q g) _ none_of)
]

pub find_file-delete_files :
    (p : CsvFile → Bool) (fs : List CsvFile) → find_file p (delete_files p fs) ≡ none
unfolding find_file delete_files
find_file-delete_files p [] = refl
find_file-delete_files p (f ∷ fs) = elim (Bool-cases (p f)) [
  | inl gone ↦ rw gone (find_file-delete_files p fs)
  | inr stays ↦ rw (stays, stays) (find_file-delete_files p fs)
]

pub find_file-delete_other :
    (p q : CsvFile → Bool)
    → ((f : CsvFile) → q f ≡ true → p f ≡ false)
    → (fs : List CsvFile) → find_file q (delete_files p fs) ≡ find_file q fs
unfolding find_file delete_files
find_file-delete_other p q apart [] = refl
find_file-delete_other p q apart (f ∷ fs) = elim (Bool-cases (q f)) [
  | inl found ↦ rw (apart f found, found) refl
  | inr passed ↦ elim (Bool-cases (p f)) [
    | inl gone ↦ rw (gone, passed) (find_file-delete_other p q apart fs)
    | inr stays ↦ rw (stays, passed) (find_file-delete_other p q apart fs)
  ]
]

clashes_sym :
    (f g : CsvFile) → clashes f.file_name f.file_hash g ≡ clashes g.file_name g.file_hash f
clashes_sym f g = rw (same_sym g.file_name f.file_name, same_sym g.file_hash f.file_hash) refl

clashes_later :
    (f g : CsvFile) (i : ℕ) (fs : List CsvFile)
    → any (clashes g.file_name g.file_hash) fs ≡ false
    → find_file (by_id i) fs ≡ some f
    → clashes f.file_name f.file_hash g ≡ false
clashes_later f g i fs apart e =
    clashes_sym f g ∙ any-find_file (clashes g.file_name g.file_hash) (by_id i) fs apart e

any-delete :
    (g : CsvFile) (i : ℕ) (fs : List CsvFile)
    → any (clashes g.file_name g.file_hash) fs ≡ false
    → any (clashes g.file_name g.file_hash) (delete_files (by_id i) fs) ≡ false
any-delete g i fs h =
    let q = clashes g.file_name g.file_hash in
    ap (any q) (sym (append-nil (delete_files (by_id i) fs)))
    ∙ any-delete_files q (by_id i) fs [] (ap (any q) (append-nil fs) ∙ h)

-- In a registry with the UNIQUE indexes, no row that stays has the name or the hash of the deleted.
pub any-delete_found :
    (i : ℕ) (fs : List CsvFile) {f : CsvFile}
    → IsUnique fs
    → find_file (by_id i) fs ≡ some f
    → any (clashes f.file_name f.file_hash) (delete_files (by_id i) fs) ≡ false
unfolding find_file delete_files
any-delete_found i [] unique e = cc
any-delete_found i (g ∷ fs) {f} unique e = elim (Bool-cases (g.id == i)) [
  | inl here ↦
      let same_some : some g ≡ some f = rw here at e in
      let same_f : g ≡ f = cc same_some in
      rw here (
        subst (λ h. any (clashes h.file_name h.file_hash) (delete_files (by_id i) fs) ≡ false)
          same_f (any-delete g i fs unique.0))
  | inr passed ↦
      let later : find_file (by_id i) fs ≡ some f = rw passed at e in
      rw (passed, clashes_later f g i fs unique.0 later) (any-delete_found i fs unique.1 later)
]

-- What a deletion does.
pub record IsDeleted (digest : Digest) (id : ℕ) (f : CsvFile) (old new : World) : Type 0 where
  pub found : find_file (by_id id) old.loaded.db.files ≡ some f
  pub gone : find_file (by_id id) new.loaded.db.files ≡ none
  pub free : any (clashes f.file_name f.file_hash) new.loaded.db.files ≡ false
  pub unique : IsUnique new.loaded.db.files
  pub others :
      (j : ℕ)
      → (j == id) ≡ false
      → find_file (by_id j) new.loaded.db.files ≡ find_file (by_id j) old.loaded.db.files
  pub tables :
      (n : Text)
      → same n f.table_name ≡ false
      → find_table n new.loaded.db.tables ≡ find_table n old.loaded.db.tables
  pub shared : (is_dynamic f.mode ≡ true) ⊎ (new.loaded.db.tables ≡ old.loaded.db.tables)
  pub stored : new.loaded.stored ≡ old.loaded.stored
  pub originals : new.originals ≡ old.originals
  pub rows : length new.audit ≡ suc (length old.audit)
  pub intact : first_bad digest new.audit ≡ first_bad digest old.audit

pub IsUnique-delete :
    (i : ℕ) (fs : List CsvFile) → IsUnique fs → IsUnique (delete_files (by_id i) fs)
IsUnique-delete i fs unique =
    subst IsUnique (append-nil (delete_files (by_id i) fs))
      (IsUnique-delete_files (by_id i) fs [] (subst IsUnique (sym (append-nil fs)) unique))

-- The action is one of the log's.
pub written_delete :
    (digest : Digest) (sender : Sender) (f : CsvFile) (log : List Row)
    → write_audit digest (delete_entry sender f) log ≢ none
unfolding write_audit
written_delete digest sender f log e = cc e

pub by_id_apart :
    (i j : ℕ) → (j == i) ≡ false → (f : CsvFile) → by_id j f ≡ true → by_id i f ≡ false
by_id_apart i j apart f found = ap (λ k. k == i) ((==_iff f.id j).0 found) ∙ apart

pub tables_apart :
    (b : Bool) (n m : Text) (l : List (Text × Table))
    → same n m ≡ false
    → find_table n (if b then drop_table m l else l) ≡ find_table n l
tables_apart true n m l h = find_table-drop_table n m l h
tables_apart false n m l h = refl

pub tables_shared :
    (b : Bool) (m : Text) (l : List (Text × Table))
    → (b ≡ true) ⊎ ((if b then drop_table m l else l) ≡ l)
tables_shared true m l = inl refl
tables_shared false m l = inr refl
