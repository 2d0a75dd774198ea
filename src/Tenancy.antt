-- ===== src/Tenancy.antt =====
-- api/tenancy.py: the schemas that a request works in. The context variable `_current` is a
-- parameter: `scoped` sets it for one request.
pub mod Provision
use postgre_data_migration_a.Prelude.{Option, none, some, [], ◌∷◌, ◌++◌, Text, codes}
use postgre_data_migration_a.Config.{Settings}

abbrev pub schema_for : Text → Text
schema_for slug = codes "tenant_" ++ slug

-- `_current.get() or …`.
abbrev pub or_default : Option Text → Text → Text
or_default none default = default
or_default (some []) default = default
or_default (some (c ∷ schema)) default = c ∷ schema

abbrev pub uploads_schema : Settings → Option Text → Text
uploads_schema settings current = or_default current settings.uploads_schema

abbrev pub te_schema : Settings → Option Text → Text
te_schema settings current = or_default current settings.te_schema

-- What the settings are for the code that runs in the scope.
abbrev pub scoped_settings : Settings → Option Text → Settings
scoped_settings settings current = record settings {
  uploads_schema = uploads_schema settings current;
  te_schema = te_schema settings current;
}
