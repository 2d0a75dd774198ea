-- ===== src/Startup/Grants.antt =====
-- `grant_runtime` of api/db.py: what the runtime role may do with the tables of a schema.
use postgre_data_migration_a.Prelude.{
  Bool, true, false, ◌&&◌, Option, none, some, List, ◌≡◌, ◌⊎◌, Text, member,
}
use postgre_data_migration_a.Registry.{CsvFile}
use postgre_data_migration_a.Startup.{append_only, Relation, Schema, is_file_table, granted}

-- The role may read and insert; it may change the rows of a table exactly if the table is not
-- append-only.
pub record IsGuarded (r : Relation) : Type 0 where
  select : r.privileges.select ≡ true
  insert : r.privileges.insert ≡ true
  update : (member r.name append_only && r.privileges.update) ≡ false
  delete : (member r.name append_only && r.privileges.delete) ≡ false
  truncate : (member r.name append_only && r.privileges.truncate) ≡ false
  changes :
      (member r.name append_only ≡ true) ⊎ ((r.privileges.update && r.privileges.delete) ≡ true)

-- A dynamic upload is registered under the name.
abbrev pub IsFileTable : Option (List CsvFile) → Text → Type 0
IsFileTable none name = ⊥
IsFileTable (some files) name = is_file_table files name ≡ true

-- An append-only relation has the owner it had, or a dynamic upload is registered under its name.
abbrev pub KeepsOwner : Text → Bool → Schema → Relation → Type 0
KeepsOwner role create s r =
    (member r.name append_only ≡ false)
    ⊎ (((granted role create s r).owner ≡ r.owner) ⊎ IsFileTable s.files r.name)
