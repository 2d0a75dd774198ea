-- ===== src/SignIn.antt =====
-- api/routers/auth_routes.py, and `require_session` of api/auth.py: signing in and out, and the
-- routes that set a password.
pub mod Logout
pub mod Resets
use postgre_data_migration_a.Prelude.{
  ℕ, Bool, true, false, ◌&&◌, not, Option, none, some, List, [], ◌∷◌, length, leb, Text, codes,
  member, if◌then◌else◌,
}
use postgre_data_migration_a.Python.{Runtime}
use postgre_data_migration_a.Config.{Settings}
use postgre_data_migration_a.Tenancy.{schema_for}
use postgre_data_migration_a.Accounts.Tables.{Store}
use postgre_data_migration_a.Accounts.Password.{Crypto}
use postgre_data_migration_a.Accounts
use postgre_data_migration_a.Audit.{Digest, Entry, Row, write_audit}
use postgre_data_migration_a.Auth.{
  Http, ok, http, crashed, ◌>>=◌, bearer_token, Caller, live_session, permissions, reset_password,
}

-- `require_session` of api/auth.py.
unfoldable pub require_session : Runtime → Crypto → ℕ → Text → Store → Http Caller
require_session rt crypto now authorization s = do
  token ← bearer_token rt authorization
  live_session crypto now token s

abbrev pub or_401 : Option Text × Store → Http Text × Store
or_401 (none, s) = (http 401, s)
or_401 (some token, s) = (ok token, s)

-- `login`; `token` is what `secrets.token_urlsafe` draws.
unfoldable pub login : Crypto → Settings → ℕ → Text → Text → Text → Text → Store → Http Text × Store
login crypto settings now token slug username password s =
    or_401 (Accounts.login crypto settings now token slug username password s)

abbrev pub trusted : Crypto → Settings → ℕ → Text → Text → Option Text → Store → Http Text × Store
trusted crypto settings now token slug none s = (http 401, s)
trusted crypto settings now token slug (some username) s =
    or_401 (Accounts.login_trusted crypto settings now token slug username s)

-- `oidc_login`. Whether single sign-on is configured, and the user name that it verified.
unfoldable pub oidc_login :
    Crypto → Settings → Bool → Option Text → ℕ → Text → Text → Store → Http Text × Store
oidc_login crypto settings enabled username now token slug s =
    if enabled then trusted crypto settings now token slug username s else (http 404, s)

abbrev pub revoked : Crypto → Store → Http Text → Http (Unit {0}) × Store
revoked crypto s (ok token) = (ok tt, Accounts.revoke crypto token s)
revoked crypto s (http status) = (http status, s)
revoked crypto s crashed = (crashed, s)

-- `logout`.
unfoldable pub logout : Runtime → Crypto → Text → Store → Http (Unit {0}) × Store
logout rt crypto authorization s = revoked crypto s (bearer_token rt authorization)

-- `_NewPassword`, which Pydantic checks in the body once the dependencies have answered.
abbrev pub is_new_password : Text → Bool
is_new_password password = leb 12 (length password) && leb (length password) 1024

-- `currentPassword`.
abbrev pub is_current_password : Text → Bool
is_current_password password = leb 1 (length password) && leb (length password) 1024

abbrev pub or_400 : Bool × Store → Http (Unit {0}) × Store
or_400 (true, s) = (ok tt, s)
or_400 (false, s) = (http 400, s)

abbrev pub changed :
    Crypto
    → Settings
    → ℕ
    → Text
    → Text
    → Text
    → Store
    → Http Text
    → Http Caller
    → Http (Unit {0}) × Store
changed crypto settings now salt current new s (ok token) (ok caller) =
    if is_current_password current && is_new_password new
    then or_400
        (Accounts.change_password crypto settings now salt caller.user_id token current new s)
    else (http 422, s)
changed crypto settings now salt current new s (ok token) (http status) = (http status, s)
changed crypto settings now salt current new s (ok token) crashed = (crashed, s)
changed crypto settings now salt current new s (http status) caller = (http status, s)
changed crypto settings now salt current new s crashed caller = (crashed, s)

-- `change_password`.
unfoldable pub change_password :
    Runtime → Crypto → Settings → ℕ → Text → Text → Text → Text → Store → Http (Unit {0}) × Store
unfolding require_session
change_password rt crypto settings now salt authorization current new s =
    changed crypto settings now salt current new s (bearer_token rt authorization)
      (require_session rt crypto now authorization s)

-- Who resets whose password and when, and the salt and the id that are drawn.
pub record Reset : Type 0 where
  pub now : ℕ
  pub salt : Text
  pub audit_id : ℕ
  pub username : Text
  pub password : Text

-- The target user stands in `file_name`.
abbrev pub reset_entry : Reset → Caller → Entry
reset_entry r caller = record {
  id = r.audit_id;
  action = codes "password_reset";
  file_id = none;
  file_name = some r.username;
  table_name = none;
  mode = none;
  performed_at = r.now;
  actor = some caller.username;
  tenant_schema = schema_for caller.tenant;
  before_value = none;
  after_value = none;
}

-- The accounts and the audit log of the tenant.
pub record World : Type 0 where
  pub store : Store
  pub log : List Row

abbrev pub reset_audited : World → Store → Option (List Row) → Http (Unit {0}) × World
reset_audited w s none = (crashed, w)
reset_audited w s (some log) = (ok tt, record { store = s; log = log })

abbrev pub answered :
    Digest → Reset → Caller → World → Accounts.Reset × Store → Http (Unit {0}) × World
answered digest r caller w (Accounts.ok, s) =
    reset_audited w s (write_audit digest (reset_entry r caller) w.log)
answered digest r caller w (Accounts.missing, s) = (http 404, record w { store = s })
answered digest r caller w (Accounts.shared, s) = (http 409, record w { store = s })

abbrev pub reset_by : Crypto → Digest → Reset → World → Http Caller → Http (Unit {0}) × World
reset_by crypto digest r w (http status) = (http status, w)
reset_by crypto digest r w crashed = (crashed, w)
reset_by crypto digest r w (ok caller) =
    if not (is_new_password r.password)
    then (http 422, w)
    else if member caller.role (permissions reset_password)
    then answered digest r caller w
        (Accounts.reset_password crypto r.salt caller.tenant_id r.username r.password w.store)
    else (http 403, w)

-- `reset_password`.
unfoldable pub reset : Runtime → Crypto → Digest → Reset → Text → World → Http (Unit {0}) × World
unfolding require_session
reset rt crypto digest r authorization w =
    reset_by crypto digest r w (require_session rt crypto r.now authorization w.store)
