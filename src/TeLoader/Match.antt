-- ===== src/TeLoader/Match.antt =====
-- `match_te_table` against the checks of `upload_te`, and the cleanup of the registry.
use postgre_data_migration_a.Prelude.{
  ℕ, Bool, true, false, some, List, [], ◌∷◌, ◌≡◌, ◌≢◌, refl, subst, inl, inr, arith, all, any, Text,
  same_refl, member, Bool-cases, append-nil,
}
use postgre_data_migration_a.Config.{te_tables}
use postgre_data_migration_a.Registry.{CsvFile, delete_files, clashes, register}
use postgre_data_migration_a.TeLoader.Insert.{TeServer, Loading}
use postgre_data_migration_a.TeLoader.{
  Upload, ok, State, matches, first_match, match_te_table, unknown_of, cleanup, finish,
}

unknown_of-all :
    (table_cols columns : List Text)
    → all (λ d. member d table_cols) columns ≡ true
    → unknown_of table_cols columns ≡ []
unfolding unknown_of
unknown_of-all table_cols [] h = refl
unknown_of-all table_cols (c ∷ columns) h = ground (arith, unknown_of-all table_cols columns)

unknown_of-matches :
    (columns table_cols : List Text)
    → matches columns table_cols ≡ true
    → (table_cols ≢ []) × (unknown_of table_cols columns ≡ [])
unknown_of-matches columns [] h = cc
unknown_of-matches columns (c ∷ cs) h = ((λ e. cc), unknown_of-all (c ∷ cs) columns h)

first_match-unknown_of :
    (server : TeServer) (columns tables : List Text) (t : Text)
    → first_match server columns tables ≡ some t
    → (member t tables ≡ true)
      × (server.table_columns t ≢ [])
      × (unknown_of (server.table_columns t) columns ≡ [])
unfolding first_match
first_match-unknown_of server columns [] t e = cc
first_match-unknown_of server columns (u ∷ tables) t e =
    elim (Bool-cases (matches columns (server.table_columns u))) [
      | inl found ↦
          let same_u : some u ≡ some t = rw found at e in
          let here : u ≡ t = cc same_u in
          let checks = unknown_of-matches columns (server.table_columns u) found in
          subst
            (λ v.
              (member v (u ∷ tables) ≡ true)
              × (server.table_columns v ≢ [])
              × (unknown_of (server.table_columns v) columns ≡ []))
            here (rw (same_refl u), checks.0, checks.1)
      | inr passed ↦
          let later = first_match-unknown_of server columns tables t (rw passed at e) in
          (ground (arith, later.0), later.1, later.2)
    ]

-- The table that `match_te_table` finds for the columns of a file passes the checks of `upload_te`:
-- it is one of the fixed tables, the schema has it, and no column is unknown to it.
pub match_te_table-unknown_of :
    (server : TeServer) (columns : List Text) (t : Text)
    → match_te_table server columns ≡ some t
    → (member t te_tables ≡ true)
      × (server.table_columns t ≢ [])
      × (unknown_of (server.table_columns t) columns ≡ [])
unfolding match_te_table
match_te_table-unknown_of server columns t e = first_match-unknown_of server columns te_tables t e

any-delete_files : (p : CsvFile → Bool) (fs : List CsvFile) → any p (delete_files p fs) ≡ false
unfolding delete_files
any-delete_files p [] = refl
any-delete_files p (f ∷ fs) = ground (arith, any-delete_files p fs)

abbrev pub is_ok : Upload → Bool
is_ok (ok l) = true
is_ok u = false

-- With no other session at work, a load that reached the registry is registered, whether or not the
-- same name or content was loaded before: the cleanup leaves nothing that clashes.
pub finish_ok :
    (name hash table : Text) (columns : List Text) (total : ℕ) (old : State) (l : Loading)
    → is_ok (finish [] name hash table columns total old l).0 ≡ true
unfolding finish cleanup register
finish_ok name hash table columns total old l =
    let clear = any-delete_files (clashes name hash) old.db.files in
    rw (append-nil (delete_files (clashes name hash) old.db.files), clear)
