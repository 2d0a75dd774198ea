-- ===== src/Auth.antt =====
-- api/auth.py: the shared API key, bearer tokens, the scope of a request and the roles.
pub mod Scopes
use postgre_data_migration_a.Prelude.{
  ℕ, Bool, true, false, ◌&&◌, not, Option, none, some, List, [], ◌∷◌, all, Text, codes, same,
  member, ltb, ◌==◌, if◌then◌else◌,
}
use postgre_data_migration_a.Python.{Runtime, strip}
use postgre_data_migration_a.Config.{Settings}
use postgre_data_migration_a.Tenancy.{schema_for}
use postgre_data_migration_a.Accounts.Tables.{find, User, Tenant, Membership, Session, Store}
use postgre_data_migration_a.Accounts.Password.{Crypto}
use postgre_data_migration_a.Accounts.{session_for}

-- A value, an HTTPException with its status, or another exception.
pub data Http {ℓ} (A : Type ℓ) : Type ℓ where
  ok : A → Http A
  http : ℕ → Http A
  crashed : Http A

infixl 5 ◌>>=◌
abbrev pub ◌>>=◌ {ℓ κ} : {A : Type ℓ} {B : Type κ} → Http A → (A → Http B) → Http B
ok a >>= f = f a
http status >>= f = http status
crashed >>= f = crashed

abbrev pub is_ascii : Text → Bool
is_ascii s = all (λ c. ltb c 128) s

-- `secrets.compare_digest`: a TypeError on `str` that is not ASCII.
unfoldable pub compare_digest : Text → Text → Http Bool
compare_digest a b = if is_ascii a && is_ascii b then ok (same a b) else crashed

abbrev pub require : Bool → ℕ → Http (Unit {0})
require true status = ok tt
require false status = http status

-- `require_api_key`. An absent header is empty.
abbrev pub check_key : Text → Text → Http (Unit {0})
check_key x_api_key [] = ok tt
check_key x_api_key (c ∷ key) = do equal ← compare_digest x_api_key (c ∷ key); require equal 401

unfoldable pub require_api_key : Settings → Text → Http (Unit {0})
unfolding compare_digest
require_api_key settings x_api_key = check_key x_api_key settings.api_key

-- `authorization.partition(" ")`: in front of the first space, and behind it.
unfoldable pub before_space : Text → Text
before_space [] = []
before_space (c ∷ s) = let rest = before_space s in if c == b' ' then [] else c ∷ rest

unfoldable pub behind_space : Text → Text
behind_space [] = []
behind_space (c ∷ s) = if c == b' ' then s else behind_space s

unfoldable pub bearer_token : Runtime → Text → Http Text
unfolding before_space behind_space
bearer_token rt authorization =
    if same (rt.lower (before_space authorization)) (codes "bearer")
      && not (same (strip (behind_space authorization)) [])
    then ok (strip (behind_space authorization))
    else http 401

-- The session that the routes see.
pub record Caller : Type 0 where
  pub user_id : ℕ
  pub username : Text
  pub tenant_id : ℕ
  pub tenant : Text
  pub role : Text

-- The columns of the JOINs of `session_for`.
abbrev pub caller_of : Session → Option User → Option Tenant → Option Membership → Option Caller
caller_of x (some u) (some t) (some m) = some (record {
  user_id = u.id;
  username = u.username;
  tenant_id = t.id;
  tenant = t.slug;
  role = m.role;
})
caller_of x _ _ _ = none

abbrev pub joined : Store → Option Session → Option Caller
joined s none = none
joined s (some x) =
    caller_of x (find (λ u. u.id == x.user_id) s.users) (find (λ t. t.id == x.tenant_id) s.tenants)
      (find (λ m. m.user_id == x.user_id && m.tenant_id == x.tenant_id) s.memberships)

abbrev pub or_401 : Option Caller → Http Caller
or_401 none = http 401
or_401 (some caller) = ok caller

-- `_live_session`.
unfoldable pub live_session : Crypto → ℕ → Text → Store → Http Caller
live_session crypto now token s = or_401 (joined s (session_for crypto now token s))

-- What `tenant_scope` sets and yields: the schema, the actor and the session.
pub record Scope : Type 0 where
  pub current : Option Text
  pub actor : Text
  pub session : Option Caller

abbrev pub key_scope : Scope
key_scope = record { current = none; actor = codes "api_key"; session = none }

abbrev pub session_scope : Caller → Scope
session_scope caller = record {
  current = some (schema_for caller.tenant);
  actor = caller.username;
  session = some caller;
}

-- `tenant_scope` on the two headers.
unfoldable pub tenant_scope : Runtime → Crypto → Settings → ℕ → Text → Text → Store → Http Scope
unfolding require_api_key bearer_token live_session
tenant_scope rt crypto settings now [] x_api_key s = do
  _ ← require_api_key settings x_api_key
  ok key_scope
tenant_scope rt crypto settings now (c ∷ authorization) x_api_key s = do
  token ← bearer_token rt (c ∷ authorization)
  caller ← live_session crypto now token s
  ok (session_scope caller)

pub data Action : Type 0 where
  preview upload list_files read_rows list_te delete_file read_audit reset_password review_rows :
      Action

abbrev pub uploader : Text
uploader = codes "uploader"

abbrev pub reviewer : Text
reviewer = codes "reviewer"

abbrev pub tenant_admin : Text
tenant_admin = codes "tenant_admin"

abbrev pub auditor : Text
auditor = codes "auditor"

abbrev pub everyone : List Text
everyone = uploader ∷ reviewer ∷ tenant_admin ∷ auditor ∷ []

-- `PERMISSIONS`.
unfoldable pub permissions : Action → List Text
permissions preview = uploader ∷ tenant_admin ∷ []
permissions upload = uploader ∷ tenant_admin ∷ []
permissions list_files = everyone
permissions read_rows = everyone
permissions list_te = everyone
permissions delete_file = tenant_admin ∷ []
permissions read_audit = tenant_admin ∷ auditor ∷ []
permissions reset_password = tenant_admin ∷ []
permissions review_rows = reviewer ∷ tenant_admin ∷ []

abbrev pub may : Action → Option Caller → Bool
may action none = true
may action (some caller) = member caller.role (permissions action)

-- `allow(action)`.
unfoldable pub allow : Action → Scope → Http (Unit {0})
unfolding permissions
allow action scope = require (may action scope.session) 403
