-- ===== src/Tenancy/Provision.antt =====
-- `provision_te_tables` of api/tenancy.py: the T&E tables of a tenant, cloned from those of the
-- deployment. The server takes every statement; one that it refuses ends the transaction, of which
-- nothing is committed.
pub mod Idempotent
use postgre_data_migration_a.Prelude.{
  ℕ, Bool, true, false, ◌&&◌, not, Option, none, some, List, [], ◌∷◌, ◌++◌, map, all, length, Text,
  codes, same, member, if◌then◌else◌,
}
use postgre_data_migration_a.Python.Replace.{replace, replace_once}
use postgre_data_migration_a.Config.{te_tables}

-- A table: what LIKE … INCLUDING ALL copies of it, the definitions of its foreign keys by name, and
-- the definitions of its triggers.
pub record Table : Type 0 where
  pub name : Text
  pub shape : Text
  pub foreign_keys : List (Text × Text)
  pub triggers : List Text

-- A schema: its tables, and the definition of `set_updated_at`, if it has one.
pub record Namespace : Type 0 where
  pub tables : List Table
  pub updated_at : Option Text

abbrev pub names : List Table → List Text
names ts = map (λ t. t.name) ts

-- The names that `quote_ident` makes of the template and of the schema.
pub record Quoted : Type 0 where
  pub qt : Text
  pub qs : Text

abbrev pub repoint_reference : Quoted → Text → Text
repoint_reference q ddl =
    replace (codes "REFERENCES " ++ (q.qt ++ codes "."))
      (codes "REFERENCES " ++ (q.qs ++ codes ".")) ddl

abbrev pub repoint_function : Quoted → Text → Text
repoint_function q ddl =
    replace (codes "FUNCTION " ++ (q.qt ++ codes ".")) (codes "FUNCTION " ++ (q.qs ++ codes "."))
      ddl

abbrev pub repoint_trigger : Quoted → Text → Text
repoint_trigger q ddl =
    repoint_function q
      (replace (codes " ON " ++ (q.qt ++ codes ".")) (codes " ON " ++ (q.qs ++ codes ".")) ddl)

-- CREATE TABLE (LIKE …), ADD CONSTRAINT for each foreign key, and the triggers.
abbrev pub clone : Quoted → Table → Table
clone q t = record {
  name = t.name;
  shape = t.shape;
  foreign_keys = map (λ k. (k.0, repoint_reference q k.1)) t.foreign_keys;
  triggers = map (repoint_trigger q) t.triggers;
}

-- The clones of the missing tables.
abbrev pub clone_named : Quoted → Text → List Table → List Table
clone_named q name [] = []
clone_named q name (t ∷ template) =
    let rest = clone_named q name template in if same name t.name then clone q t ∷ [] else rest

unfoldable pub clone_all : Quoted → List Text → List Table → List Table
unfolding replace
clone_all q [] template = []
clone_all q (name ∷ missing) template = clone_named q name template ++ clone_all q missing template

-- `[t for t in TE_TABLES if t not in present]`.
unfoldable pub missing_of : List Text → List Text → List Text
missing_of present [] = []
missing_of present (t ∷ wanted) =
    let rest = missing_of present wanted in if member t present then rest else t ∷ rest

-- CREATE OR REPLACE FUNCTION.
abbrev pub clone_function : Quoted → Option Text → Option Text → Option Text
clone_function q none own = own
clone_function q (some ddl) own = some (
    replace_once (codes "FUNCTION " ++ (q.qt ++ codes "."))
      (codes "FUNCTION " ++ (q.qs ++ codes ".")) ddl)

-- Of the tables that are missing; there is nothing to do if none is.
abbrev pub create_missing : Quoted → Namespace → Namespace → List Text → ℕ × Namespace
create_missing q template schema [] = (0, schema)
create_missing q template schema (t ∷ missing) = (
  length (t ∷ missing),
  record {
    tables = schema.tables ++ clone_all q (t ∷ missing) template.tables;
    updated_at = clone_function q template.updated_at schema.updated_at;
  },
)

-- `provision_te_tables`: how many tables were created, and the schema; `none` is the RuntimeError.
unfoldable pub provision_te_tables : Quoted → Namespace → Namespace → Option (ℕ × Namespace)
unfolding clone_all missing_of replace_once
provision_te_tables q template schema =
    if all (λ t. member t (names template.tables)) te_tables
    then some (create_missing q template schema (missing_of (names schema.tables) te_tables))
    else none
