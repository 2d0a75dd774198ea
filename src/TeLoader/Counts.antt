-- ===== src/TeLoader/Counts.antt =====
-- api/services/te_loader.py: what `upload_te` reports and stores.
use postgre_data_migration_a.Prelude.{
  ℕ, suc, ◌+◌, ◌-◌, Bool, true, false, Option, none, some, List, [], ◌∷◌, ◌++◌, ◌≡◌, refl, sym,
  subst, ◌⊎◌, inl, inr, arith, length, min, Text, member, ltb, append-nil, if◌then◌else◌,
}
use postgre_data_migration_a.Python.{Runtime}
use postgre_data_migration_a.Config.{Settings, te_tables}
use postgre_data_migration_a.CsvParse.Lexer.{parse_csv}
use postgre_data_migration_a.CsvParse.Columns.{sanitize_columns}
use postgre_data_migration_a.Registry.{CsvFile, Db}
use postgre_data_migration_a.TeLoader.Rows.{Casting, casting, cast_rows}
use postgre_data_migration_a.TeLoader.Insert.{TeRow, TeServer, Loading, insert_chunks}
use postgre_data_migration_a.TeLoader.{
  Upload, ok, Loaded, State, load, load_rows, upload_rows, upload_te, finish, commit_or_lose,
  cleanup, chunk_size, column_types, qualified, is_none, unknown_of,
}
use postgre_data_migration_a.TeLoader.Loads.{
  IsCast, Ends, cast_rows-IsCast, IsLoaded, insert_chunks-IsLoaded,
}

-- What holds of a result with the rows of the table before and after: a success has counters that
-- add up to `total` and adds the reported number of rows; any other result adds none.
pub record IsReported (most total : ℕ) (old new : State) (l : Loaded) : Type 0 where
  total_rows : l.total_rows ≡ total
  counts : l.inserted_rows + l.failed_rows ≡ total
  errors : length l.row_errors ≡ min l.failed_rows most
  added : (rows : List TeRow) × (new.stored ≡ old.stored ++ rows) × (length rows ≡ l.inserted_rows)

pub record IsUnchanged (others : List CsvFile) (old new : State) : Type 0 where
  stored : new.stored ≡ old.stored
  tables : new.db.tables ≡ old.db.tables
  files : (new.db.files ≡ old.db.files) ⊎ (new.db.files ≡ old.db.files ++ others)

abbrev pub Tells : ℕ → ℕ → List CsvFile → State → Upload → State → Type 0
Tells most total others old (ok l) new = IsReported most total old new l
Tells most total others old u new = IsUnchanged others old new

-- `Tells` of the result of a call.
abbrev pub Says : ℕ → ℕ → List CsvFile → State → Upload × State → Type 0
Says most total others old p = Tells most total others old p.0 p.1

if-Says :
    (P : Upload × State → Type 0) (b : Bool) (m n : Upload × State)
    → P m
    → P n
    → P (if b then m else n)
if-Says P true m n h k = h
if-Says P false m n h k = k

IsUnchanged-refl : (others : List CsvFile) (s : State) → IsUnchanged others s s
IsUnchanged-refl others s = record { stored = refl; tables = refl; files = inl refl }

module _ (rt : Runtime) (server : TeServer) (settings : Settings) (others : List CsvFile)
    (name hash : Text) where
  commit-Tells :
      (table : Text) (columns : List Text) (total : ℕ) (old : State) (cleaned : Db) (l : Loading)
      (o : Option (List CsvFile))
      → IsLoaded settings.max_row_errors total old.stored l
      → Tells settings.max_row_errors total others old
          (commit_or_lose others table columns total old cleaned l o).0
          (commit_or_lose others table columns total old cleaned l o).1
  commit-Tells table columns total old cleaned l none h = record {
    stored = refl;
    tables = refl;
    files = inr refl;
  }
  commit-Tells table columns total old cleaned l (some files) h = record {
    total_rows = refl;
    counts = h.rows;
    errors = h.errors;
    added = h.added;
  }

  load-Tells :
      (table : Text) (columns : List Text) (total : ℕ) (old : State) (o : Option Casting)
      → Ends (IsCast settings.max_row_errors total) o
      → Tells settings.max_row_errors total others old
          (load server settings others name hash table columns total old o).0
          (load server settings others name hash table columns total old o).1
  unfolding finish
  load-Tells table columns total old none h = IsUnchanged-refl others old
  load-Tells table columns total old (some c) h =
      let l =
        insert_chunks server settings.max_row_errors chunk_size (length c.to_insert)
          (record {
            stored = old.stored;
            inserted = 0;
            failed_row_count = c.failed_row_count;
            row_errors = c.row_errors;
          })
          0 c.to_insert in
      commit-Tells table columns total old (cleanup name hash old.db) l _ (
        subst (λ k. IsLoaded settings.max_row_errors k old.stored l) (omega (arith, h.rows))
          (insert_chunks-IsLoaded server settings.max_row_errors old.stored chunk_size
            (length c.to_insert) c.failed_row_count 0 _ c.to_insert (omega arith) (omega arith)
            (record {
              added = ([], sym (append-nil old.stored), refl);
              rows = omega arith;
              errors = h.errors;
            })))

  load_rows-Tells :
      (target : Text) (columns : List Text) (rows : List (List Text)) (s : State)
      → Says settings.max_row_errors
          (length rows)
          others
          s
          (load_rows rt server settings others name hash target columns rows s)
  unfolding load_rows
  load_rows-Tells target columns rows s =
      let P = Says settings.max_row_errors (length rows) others s in
      if-Says P (is_none (server.table_columns target)) _ _ (IsUnchanged-refl others s) (
        if-Says P (is_none (unknown_of (server.table_columns target) columns)) _ _
          (load-Tells (qualified settings target) columns (length rows) s
            (cast_rows rt settings.max_row_errors columns (column_types rt server target columns)
              casting 1 rows)
            (subst
              (λ k. Ends (IsCast settings.max_row_errors (length rows)) (
                cast_rows rt settings.max_row_errors columns (column_types rt server target columns)
                  casting k rows))
              (omega arith)
              (subst
                (λ k. Ends (IsCast settings.max_row_errors k) (
                  cast_rows rt settings.max_row_errors columns
                    (column_types rt server target columns) casting (0 + 1) rows))
                (omega arith)
                (cast_rows-IsCast rt settings.max_row_errors 0 casting columns
                  (column_types rt server target columns) rows
                  (record { rows = refl; errors = omega arith })))))
          (IsUnchanged-refl others s))

  upload_rows-Tells :
      (target : Text) (rows : List (List Text)) (s : State)
      → Says settings.max_row_errors
          (length rows - 1)
          others
          s
          (upload_rows rt server settings others name hash target rows s)
  unfolding upload_rows
  upload_rows-Tells target [] s = IsUnchanged-refl others s
  upload_rows-Tells target (header ∷ []) s = IsUnchanged-refl others s
  upload_rows-Tells target (header ∷ r ∷ rows) s =
      let P = Says settings.max_row_errors (suc (length rows)) others s in
      subst
        (λ n.
          Says settings.max_row_errors n others s
            (upload_rows rt server settings others name hash target (header ∷ r ∷ rows) s))
        (omega arith)
        (if-Says P (ltb settings.max_rows (length (r ∷ rows))) _ _ (IsUnchanged-refl others s)
          (load_rows-Tells target (sanitize_columns rt header) (r ∷ rows) s))

-- A load into a fixed table that succeeds reports counters that add up to the number of data rows
-- and an error list cut off at its limit, and adds to the table as many rows as it reports; a load
-- that does not succeed adds no row and leaves the uploads schema as it was, but for what other
-- sessions registered meanwhile.
pub upload_te_atomic :
    (rt : Runtime) (server : TeServer) (settings : Settings) (others : List CsvFile)
    (name content target : Text) (s : State)
    → Says settings.max_row_errors
        (length (parse_csv content) - 1)
        others
        s
        (upload_te rt server settings others name content target s)
unfolding upload_te
upload_te_atomic rt server settings others name content target s =
    if-Says (Says settings.max_row_errors (length (parse_csv content) - 1) others s)
      (member target te_tables) _ _
      (upload_rows-Tells rt server settings others name (rt.sha256 content) target
        (parse_csv content) s)
      (IsUnchanged-refl others s)
