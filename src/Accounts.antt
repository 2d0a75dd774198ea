-- ===== src/Accounts.antt =====
-- api/services/accounts.py: passwords, logins with the lockout, and sessions. Times are seconds.
pub mod Tables
pub mod Password
pub mod Lockout
pub mod Sessions
pub mod Creation
use postgre_data_migration_a.Prelude.{
  ℕ, zero, suc, ◌+◌, ◌*◌, Bool, true, false, ◌&&◌, ◌||◌, not, Option, none, some, List, [], ◌∷◌,
  ◌++◌, any, Text, codes, same, ltb, leb, ◌==◌, if◌then◌else◌,
}
use postgre_data_migration_a.Config.{Settings}
use postgre_data_migration_a.Accounts.Tables.{
  find, update, User, Tenant, Membership, Session, Store,
}
use postgre_data_migration_a.Accounts.Password.{Crypto, hash_password, verify_password}

-- `locked_until > now()`, or false for NULL.
abbrev pub is_after : Option ℕ → ℕ → Bool
is_after none now = false
is_after (some t) now = ltb now t

abbrev pub lockout : Settings → ℕ
lockout settings = settings.login_lockout * 60

-- `first_failed_at > now() - make_interval(mins => …)`.
abbrev pub is_recent : Settings → ℕ → Option ℕ → Bool
is_recent settings now none = false
is_recent settings now (some t) = ltb now (t + lockout settings)

-- The UPDATE of the counters.
abbrev pub count_failure : Settings → ℕ → User → User
count_failure settings now u =
    if is_recent settings now u.first_failed_at
    then record u { failed_logins = u.failed_logins + 1 }
    else record u { failed_logins = 1; first_failed_at = some now }

abbrev pub lock : Settings → ℕ → User → User
lock settings now u =
    if leb settings.login_max_failures u.failed_logins
    then record u { locked_until = some (now + lockout settings) }
    else u

-- `_record_failure`, on the row of the user.
unfoldable pub fail_login : Settings → ℕ → User → User
fail_login settings now u = lock settings now (count_failure settings now u)

abbrev pub has_id : ℕ → User → Bool
has_id id u = u.id == id

abbrev pub record_failure : Settings → ℕ → ℕ → Store → Store
record_failure settings now id s = record s {
  users = update (has_id id) (fail_login settings now) s.users;
}

-- The LEFT JOIN on memberships.
abbrev pub role_of : List Membership → ℕ → Option Tenant → Option Membership
role_of members id none = none
role_of members id (some t) = find (λ m. m.user_id == id && m.tenant_id == t.id) members

-- `_new_session`, where `token` is what `secrets.token_urlsafe` draws.
abbrev pub new_session : Crypto → Settings → ℕ → Text → ℕ → ℕ → Store → Store
new_session crypto settings now token user_id tenant_id s = record s {
  sessions =
      s.sessions
      ++ record {
        token_hash = crypto.sha256 token;
        user_id = user_id;
        tenant_id = tenant_id;
        expires_at = now + settings.session_ttl * 3600;
        revoked = false;
      }
        ∷ [];
}

abbrev pub clear_failures : User → User
clear_failures u = record u { failed_logins = 0; first_failed_at = none; locked_until = none }

-- The end of `login`: the token of a new session, or None.
abbrev pub admit :
    Crypto → Settings → ℕ → Text → User → Option Membership → Store → Option Text × Store
admit crypto settings now token u none s = (none, s)
admit crypto settings now token u (some m) s =
    if u.is_active && not (is_after u.locked_until now)
    then (
      some token,
      new_session crypto settings now token u.id m.tenant_id
          (record s { users = update (has_id u.id) clear_failures s.users }),
    )
    else (none, s)

abbrev pub login_row :
    Crypto → Settings → ℕ → Text → Text → Text → Option User → Store → Option Text × Store
login_row crypto settings now token slug password none s = (none, s)
login_row crypto settings now token slug password (some u) s =
    if verify_password crypto password u.password_hash
    then admit crypto settings now token u
        (role_of s.memberships u.id (find (λ t. same t.slug slug) s.tenants)) s
    else (none, record_failure settings now u.id s)

-- The UNIQUE name of a user makes the SELECT one row at most.
unfoldable pub login :
    Crypto → Settings → ℕ → Text → Text → Text → Text → Store → Option Text × Store
unfolding fail_login
login crypto settings now token slug username password s =
    login_row crypto settings now token slug password (find (λ u. same u.username username) s.users)
      s

-- `login_trusted`: the JOINs, then a session.
abbrev pub trusted_row :
    Crypto → Settings → ℕ → Text → User → Option Membership → Store → Option Text × Store
trusted_row crypto settings now token u none s = (none, s)
trusted_row crypto settings now token u (some m) s =
    if u.is_active
    then (some token, new_session crypto settings now token u.id m.tenant_id s)
    else (none, s)

abbrev pub trusted_user :
    Crypto → Settings → ℕ → Text → Text → Option User → Store → Option Text × Store
trusted_user crypto settings now token slug none s = (none, s)
trusted_user crypto settings now token slug (some u) s =
    trusted_row crypto settings now token u
      (role_of s.memberships u.id (find (λ t. same t.slug slug) s.tenants)) s

unfoldable pub login_trusted :
    Crypto → Settings → ℕ → Text → Text → Text → Store → Option Text × Store
login_trusted crypto settings now token slug username s =
    trusted_user crypto settings now token slug (find (λ u. same u.username username) s.users) s

abbrev pub is_live : Text → ℕ → Session → Bool
is_live hash now x = same x.token_hash hash && (not x.revoked && ltb now x.expires_at)

abbrev pub is_joined : Store → Session → Bool
is_joined s x =
    any (λ u. u.id == x.user_id && u.is_active) s.users
    && (any (λ t. t.id == x.tenant_id) s.tenants
        && any (λ m. m.user_id == x.user_id && m.tenant_id == x.tenant_id) s.memberships)

-- `session_for`: the session of the token that is live and joins an active member of its tenant.
unfoldable pub session_for : Crypto → ℕ → Text → Store → Option Session
session_for crypto now token s =
    find (λ x. is_live (crypto.sha256 token) now x && is_joined s x) s.sessions

abbrev pub end_session : Session → Session
end_session x = record x { revoked = true }

unfoldable pub revoke : Crypto → Text → Store → Store
revoke crypto token s = record s {
  sessions = update (λ x. same x.token_hash (crypto.sha256 token)) end_session s.sessions;
}

-- `token_hash IS DISTINCT FROM %s`.
abbrev pub is_other : Crypto → Option Text → Session → Bool
is_other crypto none x = true
is_other crypto (some token) x = not (same x.token_hash (crypto.sha256 token))

-- `_set_password`, where `salt` is what `secrets.token_bytes` draws.
unfoldable pub set_password_of : Crypto → Text → ℕ → Text → Option Text → Store → Store
set_password_of crypto salt id password keep s = record s {
  users =
      update (has_id id)
        (λ u. record (clear_failures u) { password_hash = hash_password crypto salt password })
        s.users;
  sessions = update (λ x. x.user_id == id && is_other crypto keep x) end_session s.sessions;
}

abbrev pub change_row :
    Crypto → Settings → ℕ → Text → Text → Text → Text → Option User → Store → Bool × Store
change_row crypto settings now salt token current new none s = (false, s)
change_row crypto settings now salt token current new (some u) s =
    if verify_password crypto current u.password_hash
    then (true, set_password_of crypto salt u.id new (some token) s)
    else (false, record_failure settings now u.id s)

unfoldable pub change_password :
    Crypto → Settings → ℕ → Text → ℕ → Text → Text → Text → Store → Bool × Store
unfolding set_password_of
change_password crypto settings now salt id token current new s =
    change_row crypto settings now salt token current new (find (has_id id) s.users) s

pub data Reset : Type 0 where
  ok missing shared : Reset

abbrev pub reset_row : Crypto → Text → ℕ → Text → Option User → Store → Reset × Store
reset_row crypto salt tenant_id new none s = (missing, s)
reset_row crypto salt tenant_id new (some u) s =
    if any (λ m. m.user_id == u.id && m.tenant_id == tenant_id) s.memberships
    then (if any (λ m. m.user_id == u.id && not (m.tenant_id == tenant_id)) s.memberships
        then (shared, s)
        else (ok, set_password_of crypto salt u.id new none s))
    else (missing, s)

unfoldable pub reset_password : Crypto → Text → ℕ → Text → Text → Store → Reset × Store
unfolding set_password_of
reset_password crypto salt tenant_id username new s =
    reset_row crypto salt tenant_id new (find (λ u. same u.username username) s.users) s

abbrev pub set_row : Crypto → Text → Text → Option User → Store → Bool × Store
set_row crypto salt new none s = (false, s)
set_row crypto salt new (some u) s = (true, set_password_of crypto salt u.id new none s)

unfoldable pub set_password : Crypto → Text → Text → Text → Store → Bool × Store
unfolding set_password_of
set_password crypto salt username new s =
    set_row crypto salt new (find (λ u. same u.username username) s.users) s
