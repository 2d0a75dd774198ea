-- ===== src/Startup/Closed.antt =====
-- A deployment that starts is closed: api/main.py and api/auth.py together.
use postgre_data_migration_a.Prelude.{
  ℕ, true, false, [], ◌∷◌, ◌≡◌, inl, inr, ◌⊎◌, arith, Text, codes, same,
}
use postgre_data_migration_a.Python.{Runtime}
use postgre_data_migration_a.Config.{Settings}
use postgre_data_migration_a.Accounts.Tables.{Store}
use postgre_data_migration_a.Accounts.Password.{Crypto}
use postgre_data_migration_a.Auth.{Scope, ok, key_scope, tenant_scope}
use postgre_data_migration_a.Auth.Scopes.{KeyFits, IsOfSession, tenant_scope-IsOfSession}
use postgre_data_migration_a.Startup.{is_empty, assert_auth_configured}

has_key :
    (api_env api_key : Text)
    → assert_auth_configured api_env api_key ≡ true
    → same api_env (codes "dev") ≡ false
    → is_empty api_key ≡ false
unfolding assert_auth_configured
has_key api_env api_key started deployed = ground (arith, started, deployed)

key_needed : (x_api_key key : Text) → is_empty key ≡ false → KeyFits x_api_key key → x_api_key ≡ key
key_needed x_api_key key filled (inr fits) = fits
key_needed x_api_key [] filled (inl none_set) = absurd (ground (arith, filled))
key_needed x_api_key (c ∷ key) filled (inl none_set) = cc none_set

-- In a deployment outside `dev` that started, a request that gets a scope has the API key of the
-- settings, which is not empty, or its bearer token has a live session whose tenant and role it
-- works with: no request is let in without credentials.
pub tenant_scope-assert_auth_configured :
    (rt : Runtime) (crypto : Crypto) (settings : Settings) (api_env : Text) (now : ℕ)
    (authorization x_api_key : Text) (s : Store) (scope : Scope)
    → assert_auth_configured api_env settings.api_key ≡ true
    → same api_env (codes "dev") ≡ false
    → tenant_scope rt crypto settings now authorization x_api_key s ≡ ok scope
    → ((x_api_key ≡ settings.api_key) × (is_empty settings.api_key ≡ false) × (scope ≡ key_scope))
      ⊎ IsOfSession rt crypto now authorization s scope
tenant_scope-assert_auth_configured rt crypto settings api_env now authorization x_api_key s scope
      started deployed e =
    let filled = has_key api_env settings.api_key started deployed in
    elim (tenant_scope-IsOfSession rt crypto settings now authorization x_api_key s scope e) [
      | inr session ↦ inr session
      | inl (bare, fits, same_scope) ↦
          inl (key_needed x_api_key settings.api_key filled fits, filled, same_scope)
    ]
