-- ===== src/Accounts/Creation.antt =====
-- `create_tenant`, `create_user` and `add_membership` of api/services/accounts.py, on the tables of
-- alembic/versions/0004 with their constraints; `none` is the exception. The `id` is what the
-- sequence of the table gives.
pub mod SignedIn
use postgre_data_migration_a.Prelude.{
  ℕ, Bool, true, false, ◌&&◌, ◌||◌, not, Option, none, some, List, [], ◌∷◌, ◌++◌, all, any, length,
  Text, codes, same, member, leb, ◌==◌, if◌then◌else◌,
}
use postgre_data_migration_a.Accounts.Tables.{User, Tenant, Membership, Store}
use postgre_data_migration_a.Accounts.Password.{Crypto, hash_password}

-- `ROLES`.
abbrev pub roles : List Text
roles = codes "uploader" ∷ codes "reviewer" ∷ codes "tenant_admin" ∷ codes "auditor" ∷ []

abbrev pub is_lower : ℕ → Bool
is_lower c = leb b'a' c && leb c b'z'

abbrev pub is_slug_char : ℕ → Bool
is_slug_char c = is_lower c || ((leb b'0' c && leb c b'9') || c == b'_')

-- The CHECK of a slug: `^[a-z][a-z0-9_]{1,40}$`.
abbrev pub is_slug : Text → Bool
is_slug [] = false
is_slug (c ∷ s) = is_lower c && (all is_slug_char s && (leb 1 (length s) && leb (length s) 40))

unfoldable pub create_tenant : ℕ → Text → Store → Option Store
create_tenant id slug s =
    if not (is_slug slug) || any (λ t. same t.slug slug || t.id == id) s.tenants
    then none
    else some (record s { tenants = s.tenants ++ record { id = id; slug = slug } ∷ [] })

abbrev pub new_user : Crypto → Text → ℕ → Text → Text → User
new_user crypto salt id username password = record {
  id = id;
  username = username;
  password_hash = hash_password crypto salt password;
  is_active = true;
  failed_logins = 0;
  first_failed_at = none;
  locked_until = none;
}

-- `salt` is what `secrets.token_bytes` draws.
unfoldable pub create_user : Crypto → Text → ℕ → Text → Text → Store → Option Store
create_user crypto salt id username password s =
    if any (λ u. same u.username username || u.id == id) s.users
    then none
    else some (record s { users = s.users ++ new_user crypto salt id username password ∷ [] })

abbrev pub is_member : ℕ → ℕ → Membership → Bool
is_member user_id tenant_id m = m.user_id == user_id && m.tenant_id == tenant_id

-- The ValueError of an unknown role, then the foreign keys and the primary key.
unfoldable pub add_membership : ℕ → ℕ → Text → Store → Option Store
add_membership user_id tenant_id role s =
    if not (member role roles)
    then none
    else if not (any (λ u. u.id == user_id) s.users && any (λ t. t.id == tenant_id) s.tenants)
    then none
    else if any (is_member user_id tenant_id) s.memberships
    then none
    else some (record s {
      memberships =
          s.memberships ++ record { user_id = user_id; tenant_id = tenant_id; role = role } ∷ [];
    })
