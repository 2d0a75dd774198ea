-- ===== src/DynamicLoader/Flows.antt =====
-- api/services/dynamic_loader.py: what the stages of an upload leave of the database, however they end.
use postgre_data_migration_a.Prelude.{
  ℕ, Bool, true, false, ◌&&◌, Option, none, some, List, [], ◌∷◌, ◌++◌, ◌≡◌, refl, ◌∙◌, subst, inl,
  inr, arith, any, length, not, Text, same, same_iff, same_texts, starts_with, distinct, ◌==◌,
  if◌then◌else◌, Bool-cases,
}
use postgre_data_migration_a.CsvParse.Types.{ColType}
use postgre_data_migration_a.CsvParse.Columns.{valid_identifier}
use postgre_data_migration_a.Registry.{
  CsvFile, Table, Db, Server, Others, find_file, drop_table, find_table, set_table, by_name,
  by_hash, by_id, csv_prefix, is_owned, remove_file,
}
use postgre_data_migration_a.Registry.Unique.{IsUnique, IsUnique-delete_files}
use postgre_data_migration_a.DynamicLoader.Rows.{Casting}
use postgre_data_migration_a.DynamicLoader.Result.{Upload, ok, Flow, go, stop, ◌>>=◌, or_stop}
use postgre_data_migration_a.DynamicLoader.Checks.{
  Request, table_of, Work, on_match, check_duplicates, check_columns, check_types, open_table,
  create_table, check_some, all_types,
}

abbrev pub is_ok : Upload → Bool
is_ok (ok l) = true
is_ok u = false

-- The flow stops with a failure, or goes on with `P`.
abbrev pub Goes {ℓ} : {A : Type ℓ} → (A → Type 0) → Flow A → Type 0
Goes P (go a) = P a
Goes P (stop u) = is_ok u ≡ false

pub bind-Goes {ℓ κ} :
    {A : Type ℓ} {B : Type κ} (P : A → Type 0) (Q : B → Type 0) (m : Flow A) (f : A → Flow B)
    → Goes P m
    → ((a : A) → P a → Goes Q (f a))
    → Goes Q (m >>= f)
bind-Goes P Q (go a) f h k = k a h
bind-Goes P Q (stop u) f h k = h

-- From `old` to `new` registry rows were only deleted, and only tables of uploads have changed.
pub record IsTidy (old new : Db) : Type 0 where
  pub unique : (gs : List CsvFile) → IsUnique (old.files ++ gs) → IsUnique (new.files ++ gs)
  pub foreign :
      (n : Text)
      → starts_with n csv_prefix ≡ false
      → find_table n new.tables ≡ find_table n old.tables

pub find_table-drop_table :
    (n m : Text) (l : List (Text × Table))
    → same n m ≡ false
    → find_table n (drop_table m l) ≡ find_table n l
unfolding find_table drop_table
find_table-drop_table n m [] h = refl
find_table-drop_table n m ((k, t) ∷ l) h =
    ground (arith, find_table-drop_table n m l h, same_iff n k, same_iff m k, same_iff n m)

find_table-set_table :
    (n m : Text) (t : Table) (l : List (Text × Table))
    → same n m ≡ false
    → find_table n (set_table m t l) ≡ find_table n l
unfolding find_table set_table
find_table-set_table n m t [] h = ground arith
find_table-set_table n m t ((k, u) ∷ l) h =
    ground (arith, find_table-set_table n m t l h, same_iff n k, same_iff m k, same_iff n m)

-- A name with the prefix is not one without it.
prefix_ne :
    (n m : Text)
    → starts_with n csv_prefix ≡ false
    → starts_with m csv_prefix ≡ true
    → same n m ≡ false
prefix_ne n m h k = elim (Bool-cases (same n m)) [
  | inl e ↦ cc (subst (λ t. starts_with t csv_prefix ≡ false) ((same_iff n m).0 e) h)
  | inr ne ↦ ne
]

remove_file-IsTidy : (f : CsvFile) (db : Db) → IsTidy db (remove_file f db)
unfolding remove_file
remove_file-IsTidy f db = record {
  unique = IsUnique-delete_files (by_id f.id) db.files;
  foreign = λ n h. elim (Bool-cases (is_owned f)) [
    | inl owned ↦
        rw owned (
          find_table-drop_table n f.table_name db.tables
            (prefix_ne n f.table_name h (ground arith)))
    | inr kept ↦ rw kept
  ];
}

IsTidy-trans : (a b c : Db) → IsTidy a b → IsTidy b c → IsTidy a c
IsTidy-trans a b c h k = record {
  unique = λ gs u. k.unique gs (h.unique gs u);
  foreign = λ n e. k.foreign n e ∙ h.foreign n e;
}

module _ (req : Request) where
  on_match-Goes :
      (old : Db) (reason : CsvFile → _) (w : Work) (o : Option CsvFile)
      → IsTidy old w.db
      → Goes (λ w'. IsTidy old w'.db) (on_match req reason w o)
  on_match-Goes old reason w none h = h
  on_match-Goes old reason w (some f) h = elim (Bool-cases req.overwrite) [
    | inl e ↦ rw e (IsTidy-trans old w.db _ h (remove_file-IsTidy f w.db))
    | inr e ↦ rw e
  ]

  pub check_duplicates-Goes :
      (old : Db) (w : Work)
      → IsTidy old w.db
      → Goes (λ w'. IsTidy old w'.db) (check_duplicates req w)
  unfolding check_duplicates
  check_duplicates-Goes old w h =
      bind-Goes (λ w'. IsTidy old w'.db) _ _ _
        (on_match-Goes old _ w (find_file (by_name req.file_name) w.db.files) h)
        (λ w' h'. on_match-Goes old _ w' (find_file (by_hash req.file_hash) w'.db.files) h')

  starts_with-table_of : starts_with (table_of req) csv_prefix ≡ true
  starts_with-table_of = refl

  pub set_table-IsTidy :
      (old new : Db) (t : Table)
      → IsTidy old new
      → IsTidy old (record new { tables = set_table (table_of req) t new.tables })
  set_table-IsTidy old new t h = record {
    unique = h.unique;
    foreign = λ n e.
        find_table-set_table n (table_of req) t new.tables
          (prefix_ne n (table_of req) e starts_with-table_of)
        ∙ h.foreign n e;
  }

pub if-Goes {ℓ} :
    {A : Type ℓ} (P : A → Type 0) (b : Bool) (m n : Flow A)
    → Goes P m
    → Goes P n
    → Goes P (if b then m else n)
if-Goes P true m n h k = h
if-Goes P false m n h k = k

abbrev pub Any {ℓ} : {A : Type ℓ} → A → Type 0
Any a = Unit

pub or_stop-Goes {ℓ} :
    {A : Type ℓ} (u : Upload) (o : Option A) → is_ok u ≡ false → Goes Any (or_stop u o)
or_stop-Goes u none h = h
or_stop-Goes u (some a) h = tt

pub check_columns-Goes : (columns : List Text) → Goes Any (check_columns columns)
unfolding check_columns
check_columns-Goes [] = refl
check_columns-Goes (c ∷ columns) =
    if-Goes Any (not (distinct (c ∷ columns))) _ _ refl
      (if-Goes Any (any (λ d. not (valid_identifier d)) (c ∷ columns)) _ _ refl tt)

pub check_types-Goes :
    (columns : List Text) (types : Option (List Text)) → Goes Any (check_types columns types)
unfolding check_types
check_types-Goes columns none = tt
check_types-Goes columns (some types) =
    if-Goes Any (length types == length columns) _ _ (or_stop-Goes _ (all_types types) refl) refl

open_table-Goes :
    (server : Server) (columns : List Text) (types : List ColType) (t : Option Table)
    → Goes Any (open_table server columns types t)
open_table-Goes server columns types none =
    if-Goes Any (server.can_create columns types) _ _ tt refl
open_table-Goes server columns types (some t) =
    if-Goes Any (same_texts t.columns columns) _ _ tt refl

pub create_table-Goes :
    (server : Server) (others : Others) (req : Request) (columns : List Text) (types : List ColType)
    (db : Db)
    → Goes Any (create_table server others req columns types db)
unfolding create_table
create_table-Goes server others req columns types db =
    if-Goes Any others.creates_table _ _ refl
      (open_table-Goes server columns types (find_table (table_of req) db.tables))

pub check_some-Goes :
    (total : ℕ) (columns : List Text) (types : List ColType) (s : Casting)
    → Goes Any (check_some total columns types s)
unfolding check_some
check_some-Goes total columns types s =
    if-Goes Any (s.failed_row_count == total && not (total == 0)) _ _ refl tt
