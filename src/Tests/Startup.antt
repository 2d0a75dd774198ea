-- ===== src/Tests/Startup.antt =====
-- The start of the service, the grants and the order of the middlewares.
use postgre_data_migration_a.Prelude.{true, false, some, [], ◌∷◌, ◌≡◌, ◌⊎◌, refl, arith, codes, leb}
use postgre_data_migration_a.Config.{Settings}
use postgre_data_migration_a.Tests.Samples.{ascii, settings}
use postgre_data_migration_a.Tests.Accounts.{plain, store}
use postgre_data_migration_a.Auth.{ok, key_scope, compare_digest, require_api_key, tenant_scope}
use postgre_data_migration_a.Auth.Scopes.{IsOfSession}
use postgre_data_migration_a.Startup.{
  is_empty, assert_auth_configured, init_pool, connect_from, connected, Relation, Schema,
}
use postgre_data_migration_a.Startup.Pool.{Ends, init_pool-Ends}
use postgre_data_migration_a.Startup.Closed.{tenant_scope-assert_auth_configured}

abbrev keyed : Settings
keyed = record settings { api_key = codes "secret" }

started : assert_auth_configured (codes "prod") (codes "secret") ≡ true
unfolding assert_auth_configured
started = refl

scope_run : tenant_scope ascii plain keyed 5 [] (codes "secret") store ≡ ok key_scope
unfolding tenant_scope require_api_key compare_digest
scope_run = refl

tenant_scope-assert_auth_configured_example :
    ((codes "secret" ≡ keyed.api_key) × (is_empty keyed.api_key ≡ false) × (key_scope ≡ key_scope))
    ⊎ IsOfSession ascii plain 5 [] store key_scope
tenant_scope-assert_auth_configured_example =
    tenant_scope-assert_auth_configured ascii plain keyed (codes "prod") 5 [] (codes "secret") store
      key_scope started refl scope_run

-- The third attempt is answered, after one and two seconds.
init_pool_run : init_pool (leb 3) 30 1000 ≡ connected 3 3000
unfolding init_pool connect_from
init_pool_run = refl

init_pool-Ends_example : Ends (leb 3) 1 30 (init_pool (leb 3) 30 1000)
init_pool-Ends_example = init_pool-Ends (leb 3) 30 1000 (omega arith)

abbrev audit_log : Relation
audit_log = record {
  name = codes "audit_log";
  owner = codes "owner";
  privileges = record {
    select = false;
    insert = false;
    update = true;
    delete = true;
    truncate = true;
  };
}

abbrev schema : Schema
schema = record {
  usage = false;
  create = false;
  relations = audit_log ∷ record audit_log { name = codes "csv_files" } ∷ [];
  files = some [];
}
