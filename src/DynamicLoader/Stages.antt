-- ===== src/DynamicLoader/Stages.antt =====
-- api/services/dynamic_loader.py: the stages of an upload that succeeds, each by itself.
use postgre_data_migration_a.Prelude.{
  ℕ, suc, ◌+◌, true, false, not, ◌&&◌, Option, none, some, List, [], ◌∷◌, ◌≡◌, refl, sym, ap, ◌∙◌,
  subst, inl, inr, arith, All, length, min, length-replicate, distinct, Text, same_iff, same_refl,
  ◌==◌, Bool-cases, Option-cases, reverse, map,
}
use postgre_data_migration_a.CsvParse.Types.{ColType, text, allowed_type}
use postgre_data_migration_a.Registry.{
  CsvFile, Table, Db, Server, Others, find_file, find_table, drop_table, set_table, by_name,
  by_hash, remove_file, is_owned, insert_rows, insert_chunks,
}
use postgre_data_migration_a.Registry.Batches.{
  behind, insert_chunks-insert_rows, IsFresh-reverse, insert_rows-IsFresh,
}
use postgre_data_migration_a.DynamicLoader.Rows.{Row, Casting}
use postgre_data_migration_a.DynamicLoader.Result.{Upload, or_stop}
use postgre_data_migration_a.DynamicLoader.Checks.{
  Request, table_of, Work, on_match, check_duplicates, check_types, open_table, create_table,
  check_some, all_types, chunk_size,
}
use postgre_data_migration_a.DynamicLoader.{Prepared}
use postgre_data_migration_a.DynamicLoader.Flows.{Goes, bind-Goes, if-Goes, is_ok}

-- There is no table of the name.
abbrev pub IsAbsent : Text → Db → Type 0
IsAbsent n db = find_table n db.tables ≡ none

find_table-dropped :
    (n m : Text) (l : List (Text × Table))
    → find_table n l ≡ none
    → find_table n (drop_table m l) ≡ none
unfolding find_table drop_table
find_table-dropped n m [] e = refl
find_table-dropped n m ((k, t) ∷ l) e = ground (arith, find_table-dropped n m l, e)

remove_file-IsAbsent :
    (n : Text) (f : CsvFile) (db : Db) → IsAbsent n db → IsAbsent n (remove_file f db)
unfolding remove_file
remove_file-IsAbsent n f db a = elim (Bool-cases (is_owned f)) [
  | inl owned ↦ rw owned (find_table-dropped n f.table_name db.tables a)
  | inr kept ↦ rw kept a
]

module _ (req : Request) (n : Text) where
  on_match-IsAbsent :
      (reason : CsvFile → _) (w : Work) (o : Option CsvFile)
      → IsAbsent n w.db
      → Goes (λ w'. IsAbsent n w'.db) (on_match req reason w o)
  on_match-IsAbsent reason w none h = h
  on_match-IsAbsent reason w (some f) h = elim (Bool-cases req.overwrite) [
    | inl e ↦ rw e (remove_file-IsAbsent n f w.db h)
    | inr e ↦ rw e
  ]

  pub check_duplicates-IsAbsent :
      (w : Work) → IsAbsent n w.db → Goes (λ w'. IsAbsent n w'.db) (check_duplicates req w)
  unfolding check_duplicates
  check_duplicates-IsAbsent w h =
      bind-Goes (λ w'. IsAbsent n w'.db) _ _ _
        (on_match-IsAbsent _ w (find_file (by_name req.file_name) w.db.files) h)
        (λ w' h'. on_match-IsAbsent _ w' (find_file (by_hash req.file_hash) w'.db.files) h')

length-all_types :
    (types : List Text) {cs : List ColType} → all_types types ≡ some cs → length cs ≡ length types
unfolding all_types
length-all_types [] {cs} e = let same_cs : [] ≡ cs = cc e in ap length (sym same_cs)
length-all_types (t ∷ types) {cs} e = elim (Option-cases (allowed_type t)) [
  | inl unknown ↦ cc (rw (all_types, unknown) at e)
  | inr (c, known) ↦ elim (Option-cases (all_types types)) [
    | inl bad ↦ cc (rw (all_types, known, bad) at e)
    | inr (ds, good) ↦
        let same_cs : some (c ∷ ds) ≡ some cs = rw (all_types, known, good) at e in
        let same_list : c ∷ ds ≡ cs = cc same_cs in
        ap length (sym same_list) ∙ ap suc (length-all_types types good)
  ]
]

pub or_stop-Goes {ℓ} :
    {A : Type ℓ} (P : A → Type 0) (u : Upload) (o : Option A)
    → is_ok u ≡ false
    → ((a : A) → o ≡ some a → P a)
    → Goes P (or_stop u o)
or_stop-Goes P u none h k = h
or_stop-Goes P u (some a) h k = k a refl

pub check_types-length :
    (columns : List Text) (types : Option (List Text))
    → Goes (λ cs. length cs ≡ length columns) (check_types columns types)
unfolding check_types
check_types-length columns none = length-replicate (length columns) text
check_types-length columns (some types) = elim (Bool-cases (length types == length columns)) [
  | inl e ↦ rw e (
      or_stop-Goes (λ cs. length cs ≡ length columns) _ (all_types types) refl
        (λ cs k. length-all_types types k ∙ ground (arith, e)))
  | inr e ↦ rw e
]

-- The new table: no rows yet, and its columns and types are the ones of the upload.
abbrev pub IsNew : List Text → List ColType → Table → Type 0
IsNew columns types t = t ≡ record { columns = columns; types = types; rows = [] }

pub create_table-IsNew :
    (server : Server) (others : Others) (req : Request) (columns : List Text) (types : List ColType)
    (db : Db)
    → IsAbsent (table_of req) db
    → Goes (IsNew columns types) (create_table server others req columns types db)
unfolding create_table
create_table-IsNew server others req columns types db a =
    if-Goes (IsNew columns types) others.creates_table _ _ refl (
      subst (λ t. Goes (IsNew columns types) (open_table server columns types t)) (sym a)
        (if-Goes (IsNew columns types) (server.can_create columns types) _ _ refl refl))

pub inserted_lem :
    (server : Server) (types : List ColType) (new : List Row) {p : List Row × ℕ}
    → distinct (reverse (map (λ r. r.row_hash) new)) ≡ true
    → insert_chunks server types chunk_size (length new) [] new 0 ≡ some p
    → p ≡ (new, length new)
inserted_lem server types new {p} d e =
    let one : insert_chunks server types chunk_size (length new) [] new 0
        ≡ behind 0 (insert_rows server types [] new) =
      insert_chunks-insert_rows server types chunk_size (length new) [] new 0 (omega arith)
        (omega arith) in
    elim (Option-cases (insert_rows server types [] new)) [
      | inl bad ↦ cc (rw bad at one, e)
      | inr (q, good) ↦
          let same_q : some (q.0, 0 + q.1) ≡ some p = sym (rw good at one) ∙ e in
          let same_p : (q.0, 0 + q.1) ≡ p = cc same_q in
          sym same_p
          ∙ ap (λ (q : List Row × ℕ). (q.0, 0 + q.1))
              (insert_rows-IsFresh server types [] new (IsFresh-reverse new d) good)
          ∙ ap (λ n. (new, n)) (omega arith)
    ]

-- The database and the counters in front of the INSERT into the registry.
pub record IsCounted (most total : ℕ) (table : Text) (p : Prepared) : Type 0 where
  pub counts : p.inserted + p.cast.duplicates + p.cast.failed_row_count ≡ total
  pub errors : length p.cast.row_errors ≡ min p.cast.failed_row_count most
  pub aligned : length p.types ≡ length p.columns
  pub stored :
      find_table table p.db.tables
      ≡ some (record { columns = p.columns; types = p.types; rows = p.cast.to_insert })
  pub inserted : length p.cast.to_insert ≡ p.inserted
  pub widths : All (λ r. length r.values ≡ length p.columns) p.cast.to_insert

pub find_table-set_table_own :
    (n : Text) (t : Table) (l : List (Text × Table)) → find_table n (set_table n t l) ≡ some t
unfolding find_table set_table
find_table-set_table_own n t [] = rw same_refl
find_table-set_table_own n t ((k, u) ∷ l) =
    ground (arith, find_table-set_table_own n t l, same_refl n, same_iff n k)

pub check_some-Goes :
    (P : Casting → Type 0) (total : ℕ) (columns : List Text) (types : List ColType) (s : Casting)
    → P s
    → Goes P (check_some total columns types s)
unfolding check_some
check_some-Goes P total columns types s h =
    if-Goes P (s.failed_row_count == total && not (total == 0)) _ _ refl h
