-- ===== src/Auth/Scopes.antt =====
-- `tenant_scope` of api/auth.py: where the scope of a request comes from.
use postgre_data_migration_a.Prelude.{
  ℕ, Bool, true, false, ◌&&◌, Option, none, some, [], ◌∷◌, ◌≡◌, refl, sym, ap, ◌∙◌, inl, inr, ◌⊎◌,
  arith, Text, same, same_iff, ◌==◌, ==_iff, Bool-cases,
}
use postgre_data_migration_a.Python.{Runtime}
use postgre_data_migration_a.Config.{Settings}
use postgre_data_migration_a.Tenancy.{schema_for}
use postgre_data_migration_a.Accounts.Tables.{find, User, Tenant, Membership, Session, Store}
use postgre_data_migration_a.Accounts.Password.{Crypto}
use postgre_data_migration_a.Accounts.{session_for}
use postgre_data_migration_a.Accounts.Sessions.{find-holds}
use postgre_data_migration_a.Auth.{
  Http, ok, http, crashed, ◌>>=◌, is_ascii, compare_digest, require, check_key, bearer_token,
  Caller, caller_of, joined, or_401, live_session, Scope, key_scope, session_scope, tenant_scope,
}

bind-ok {ℓ κ} :
    {A : Type ℓ} {B : Type κ} (m : Http A) (f : A → Http B) {b : B}
    → (m >>= f) ≡ ok b
    → (a : A) × (m ≡ ok a) × (f a ≡ ok b)
bind-ok (ok a) f e = (a, refl, e)
bind-ok (http status) f e = cc
bind-ok crashed f e = cc

require-ok : (b : Bool) (status : ℕ) {u : Unit {0}} → require b status ≡ ok u → b ≡ true
require-ok true status e = refl
require-ok false status e = cc

compare_digest-ok : (a b : Text) {equal : Bool} → compare_digest a b ≡ ok equal → same a b ≡ equal
unfolding compare_digest
compare_digest-ok a b {equal} e = elim (Bool-cases (is_ascii a && is_ascii b)) [
  | inl ascii ↦ let found : ok (same a b) ≡ ok equal = rw ascii at e in cc found
  | inr other ↦ let found : ok equal ≡ crashed = sym (rw other at e) in cc found
]

-- The key of the settings is empty, or the header has it.
abbrev pub KeyFits : Text → Text → Type 0
KeyFits x_api_key key = (key ≡ []) ⊎ (x_api_key ≡ key)

check_key-KeyFits :
    (x_api_key key : Text) {u : Unit {0}} → check_key x_api_key key ≡ ok u → KeyFits x_api_key key
check_key-KeyFits x_api_key [] e = inl refl
check_key-KeyFits x_api_key (c ∷ key) e =
    let (equal, compared, required) = bind-ok (compare_digest x_api_key (c ∷ key)) _ e in
    let true_of : equal ≡ true = require-ok equal 401 required in
    inr
      ((same_iff x_api_key (c ∷ key)).0 (compare_digest-ok x_api_key (c ∷ key) compared ∙ true_of))

-- The caller is the user of the session, in its tenant, with the role of the membership.
pub record IsCaller (s : Store) (x : Session) (u : User) (t : Tenant) (m : Membership)
    (caller : Caller) : Type 0 where
  user : find (λ y. y.id == x.user_id) s.users ≡ some u
  tenant : find (λ y. y.id == x.tenant_id) s.tenants ≡ some t
  member : find (λ y. y.user_id == x.user_id && y.tenant_id == x.tenant_id) s.memberships ≡ some m
  user_id : u.id ≡ x.user_id
  tenant_id : t.id ≡ x.tenant_id
  member_user : m.user_id ≡ x.user_id
  member_tenant : m.tenant_id ≡ x.tenant_id
  username : caller.username ≡ u.username
  slug : caller.tenant ≡ t.slug
  role : caller.role ≡ m.role

member_ids :
    (m : Membership) (user_id tenant_id : ℕ)
    → (m.user_id == user_id && m.tenant_id == tenant_id) ≡ true
    → (m.user_id ≡ user_id) × (m.tenant_id ≡ tenant_id)
member_ids m user_id tenant_id e =
    let one : (m.user_id == user_id) ≡ true = ground (arith, e) in
    let two : (m.tenant_id == tenant_id) ≡ true = ground (arith, e) in
    ((==_iff m.user_id user_id).0 one, (==_iff m.tenant_id tenant_id).0 two)

caller_of-IsCaller :
    (s : Store) (x : Session) (ou : Option User) (ot : Option Tenant) (om : Option Membership)
    {caller : Caller}
    → find (λ y. y.id == x.user_id) s.users ≡ ou
    → find (λ y. y.id == x.tenant_id) s.tenants ≡ ot
    → find (λ y. y.user_id == x.user_id && y.tenant_id == x.tenant_id) s.memberships ≡ om
    → caller_of x ou ot om ≡ some caller
    → (u : User) × (t : Tenant) × (m : Membership) × IsCaller s x u t m caller
caller_of-IsCaller s x (some u) (some t) (some m) {caller} eu et em e =
    let shown : record {
      user_id = u.id;
      username = u.username;
      tenant_id = t.id;
      tenant = t.slug;
      role = m.role;
    }
        ≡ caller =
      cc e in
    let ids = member_ids m x.user_id x.tenant_id (find-holds _ s.memberships em) in
    (
      u,
      t,
      m,
      record {
        user = eu;
        tenant = et;
        member = em;
        user_id = (==_iff u.id x.user_id).0 (find-holds _ s.users eu);
        tenant_id = (==_iff t.id x.tenant_id).0 (find-holds _ s.tenants et);
        member_user = ids.0;
        member_tenant = ids.1;
        username = sym (ap (λ c. c.username) shown);
        slug = sym (ap (λ c. c.tenant) shown);
        role = sym (ap (λ c. c.role) shown);
      },
    )
caller_of-IsCaller s x none ot om eu et em e = cc e
caller_of-IsCaller s x (some u) none om eu et em e = cc e
caller_of-IsCaller s x (some u) (some t) none eu et em e = cc e

-- The scope is that of a live session of the token in the header.
abbrev pub IsOfSession : Runtime → Crypto → ℕ → Text → Store → Scope → Type 0
IsOfSession rt crypto now authorization s scope =
    (token : Text) × (x : Session) × (u : User) × (t : Tenant) × (m : Membership)
    × (caller : Caller) × (bearer_token rt authorization ≡ ok token)
    × (session_for crypto now token s ≡ some x)
    × IsCaller s x u t m caller
    × (scope.current ≡ some (schema_for t.slug))
    × (scope.actor ≡ u.username)
    × (scope.session ≡ some caller)

or_401-ok : (o : Option Caller) {caller : Caller} → or_401 o ≡ ok caller → o ≡ some caller
or_401-ok none e = cc
or_401-ok (some c) e = cc

joined-some :
    (s : Store) (o : Option Session) {caller : Caller}
    → joined s o ≡ some caller
    → (x : Session) × (u : User) × (t : Tenant) × (m : Membership) × (o ≡ some x)
      × IsCaller s x u t m caller
joined-some s none e = cc
joined-some s (some x) e =
    let (u, t, m, is) = caller_of-IsCaller s x _ _ _ refl refl refl e in (x, u, t, m, refl, is)

session_scope-IsOfSession :
    (rt : Runtime) (crypto : Crypto) (now : ℕ) (authorization : Text) (s : Store) {scope : Scope}
    → (do
      token ← bearer_token rt authorization
      caller ← live_session crypto now token s
      ok (session_scope caller))
      ≡ ok scope
    → IsOfSession rt crypto now authorization s scope
unfolding live_session
session_scope-IsOfSession rt crypto now authorization s {scope} e =
    let (token, given, e1) = bind-ok (bearer_token rt authorization) _ e in
    let (caller, live, e2) = bind-ok (or_401 (joined s (session_for crypto now token s))) _ e1 in
    let same_scope : session_scope caller ≡ scope = cc e2 in
    let (x, u, t, m, found, is) = joined-some s _ (or_401-ok _ live) in
    (
      token,
      x,
      u,
      t,
      m,
      caller,
      given,
      found,
      is,
      sym (ap (λ c. c.current) same_scope) ∙ ap (λ slug. some (schema_for slug)) is.slug,
      sym (ap (λ c. c.actor) same_scope) ∙ is.username,
      sym (ap (λ c. c.session) same_scope),
    )

-- A request that gets a scope either has no Authorization header and the API key of the settings,
-- unless they have none, and works in the default schemas as `api_key`; or its bearer token has a
-- live session, and the request works in the schema of the tenant of that session, as its user,
-- with the role that the user's membership of that tenant has.
pub tenant_scope-IsOfSession :
    (rt : Runtime) (crypto : Crypto) (settings : Settings) (now : ℕ)
    (authorization x_api_key : Text) (s : Store) (scope : Scope)
    → tenant_scope rt crypto settings now authorization x_api_key s ≡ ok scope
    → ((authorization ≡ []) × KeyFits x_api_key settings.api_key × (scope ≡ key_scope))
      ⊎ IsOfSession rt crypto now authorization s scope
unfolding tenant_scope
tenant_scope-IsOfSession rt crypto settings now [] x_api_key s scope e =
    let (u, fits, e1) = bind-ok (check_key x_api_key settings.api_key) _ e in
    let same_scope : key_scope ≡ scope = cc e1 in
    inl (refl, check_key-KeyFits x_api_key settings.api_key fits, sym same_scope)
tenant_scope-IsOfSession rt crypto settings now (c ∷ authorization) x_api_key s scope e =
    inr (session_scope-IsOfSession rt crypto now (c ∷ authorization) s e)
