-- ===== src/Tests/Tenancy.antt =====
-- The T&E tables of a tenant, cloned from a template in the schema te, and the pool of connections.
use postgre_data_migration_a.Prelude.{
  ℕ, ◌+◌, ◌≤◌, true, false, ◌≡◌, ◌⊎◌, refl, arith, none, some, [], ◌∷◌, map, all, member, Text,
  codes,
}
use postgre_data_migration_a.Python.Replace.{replace, replace_from, replace_once}
use postgre_data_migration_a.Config.{te_tables}
use postgre_data_migration_a.Tenancy.Provision.{
  Table, Namespace, names, Quoted, clone, clone_function, provision_te_tables,
}
use postgre_data_migration_a.Tenancy.Provision.Idempotent.{
  Provisioned, provision_te_tables-Provisioned,
}
use postgre_data_migration_a.Startup.Borrow.{
  max_conn, Traffic, idle, enter, obtain, leave, enters, obtains, leaves, Steps, done, more,
  failed_rollbacks,
}
use postgre_data_migration_a.Startup.Borrow.Counted.{Steps-failed_rollbacks}

abbrev quoted : Quoted
quoted = record { qt = codes "te"; qs = codes "tenant_a" }

abbrev table : Text → Table
table name = record {
  name = name;
  shape = name;
  foreign_keys = (codes "fk", codes "FOREIGN KEY (org) REFERENCES te.organisations(id)") ∷ [];
  triggers = [];
}

abbrev template : Namespace
template = record {
  tables = map table te_tables;
  updated_at = some (codes "CREATE OR REPLACE FUNCTION te.set_updated_at()");
}

abbrev tenant : Namespace
tenant = record { tables = table (codes "organisations") ∷ []; updated_at = none }

clone_run :
    (clone quoted (table (codes "personnel"))).foreign_keys
    ≡ (codes "fk", codes "FOREIGN KEY (org) REFERENCES tenant_a.organisations(id)") ∷ []
unfolding replace replace_from
clone_run = refl

clone_function_run :
    clone_function quoted template.updated_at none
    ≡ some (codes "CREATE OR REPLACE FUNCTION tenant_a.set_updated_at()")
unfolding replace_once
clone_function_run = refl

provision_te_tables_run : provision_te_tables quoted tenant tenant ≡ none
unfolding provision_te_tables
provision_te_tables_run = refl

provision_te_tables-Provisioned_example :
    ((provision_te_tables quoted template tenant ≡ none)
      × (all (λ t. member t (names template.tables)) te_tables ≡ false))
    ⊎ ((n : ℕ) × (new : Namespace) × (provision_te_tables quoted template tenant ≡ some (n, new))
        × Provisioned quoted template tenant n new
        × (provision_te_tables quoted template new ≡ some (0, new)))
provision_te_tables-Provisioned_example = provision_te_tables-Provisioned quoted template tenant

-- A request that borrows a connection, raises, and cannot roll back.
abbrev broken : Traffic
broken = leave true false (obtain (enter idle))

steps : Steps idle broken
steps =
    more (more (more done enters) (obtains (omega arith) (omega arith)))
      (leaves true false (omega arith))

Steps-failed_rollbacks_example :
    (broken.out ≡ broken.held + (broken.returning + failed_rollbacks steps))
    × (broken.out ≤ max_conn)
    × (max_conn ≤ failed_rollbacks steps → broken.held ≡ 0)
Steps-failed_rollbacks_example = Steps-failed_rollbacks steps
