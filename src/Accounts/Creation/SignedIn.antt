-- ===== src/Accounts/Creation/SignedIn.antt =====
-- api/services/accounts.py: a user who was created, and added to a tenant, signs in.
use postgre_data_migration_a.Prelude.{
  ℕ, ◌+◌, ◌*◌, ◌<◌, Bool, true, false, ◌&&◌, ◌||◌, not, none, some, List, [], ◌∷◌, ◌++◌, ◌≡◌, refl,
  sym, ap, ◌∙◌, subst, inl, inr, arith, any, Text, codes, same, same_refl, member, ltb, ◌==◌,
  ==_refl, Bool-cases,
}
use postgre_data_migration_a.Config.{Settings}
use postgre_data_migration_a.Accounts.Tables.{find, update, Tenant, Session, Store}
use postgre_data_migration_a.Accounts.Password.{Crypto, is_plain, verify_password-hash_password}
use postgre_data_migration_a.Accounts.{
  has_id, clear_failures, new_session, login, is_live, is_joined, session_for,
}
use postgre_data_migration_a.Accounts.Creation.{
  roles, new_user, create_user, is_member, add_membership,
}

-- The search passes over rows that do not fit.
find-append {ℓ} :
    {A : Type ℓ} (p : A → Bool) (xs : List A) (y : A)
    → any p xs ≡ false
    → p y ≡ true
    → find p (xs ++ y ∷ []) ≡ some y
unfolding find
find-append p [] y e h = rw h refl
find-append p (x ∷ xs) y e h =
    let passed : p x ≡ false = ground (arith, e) in
    rw passed (find-append p xs y (ground (arith, e)) h)

any-weaken {ℓ} :
    {A : Type ℓ} (p q : A → Bool) (xs : List A)
    → any (λ x. p x || q x) xs ≡ false
    → any p xs ≡ false
any-weaken p q [] e = refl
any-weaken p q (x ∷ xs) e = ground (arith, e, any-weaken p q xs)

create_user-some :
    (crypto : Crypto) (salt : Text) (id : ℕ) (username password : Text) (s new : Store)
    → create_user crypto salt id username password s ≡ some new
    → (record s { users = s.users ++ new_user crypto salt id username password ∷ [] } ≡ new)
      × (any (λ u. same u.username username) s.users ≡ false)
unfolding create_user
create_user-some crypto salt id username password s new e =
    elim (Bool-cases (any (λ u. same u.username username || u.id == id) s.users)) [
      | inl taken ↦ let bad : none ≡ some new = rw taken at e in cc bad
      | inr free ↦
          let made : some
                (record s { users = s.users ++ new_user crypto salt id username password ∷ [] })
              ≡ some new =
            rw free at e in
          (cc made, any-weaken (λ u. same u.username username) (λ u. u.id == id) s.users free)
    ]

add_membership-some :
    (id tenant_id : ℕ) (role : Text) (s new : Store)
    → add_membership id tenant_id role s ≡ some new
    → (record s {
      memberships =
          s.memberships ++ record { user_id = id; tenant_id = tenant_id; role = role } ∷ [];
    }
        ≡ new)
      × (any (is_member id tenant_id) s.memberships ≡ false)
unfolding add_membership
add_membership-some id tenant_id role s new e = elim (Bool-cases (member role roles)) [
  | inr unknown ↦ let bad : none ≡ some new = rw unknown at e in cc bad
  | inl known ↦
      elim (Bool-cases (any (λ u. u.id == id) s.users && any (λ t. t.id == tenant_id) s.tenants)) [
        | inr dangling ↦ let bad : none ≡ some new = rw (known, dangling) at e in cc bad
        | inl there ↦ elim (Bool-cases (any (is_member id tenant_id) s.memberships)) [
          | inl again ↦ let bad : none ≡ some new = rw (known, there, again) at e in cc bad
          | inr first ↦
              let made : some (record s {
                memberships =
                    s.memberships
                    ++ record { user_id = id; tenant_id = tenant_id; role = role } ∷ [];
              })
                  ≡ some new =
                rw (known, there, first) at e in
              (cc made, first)
        ]
      ]
]

any-last {ℓ} :
    {A : Type ℓ} (p : A → Bool) (xs : List A) (y : A) → p y ≡ true → any p (xs ++ y ∷ []) ≡ true
any-last p [] y h = ground (arith, h)
any-last p (x ∷ xs) y h = ground (arith, any-last p xs y h)

any-update {ℓ} :
    {A : Type ℓ} (p q : A → Bool) (f : A → A)
    → ((x : A) → p (f x) ≡ p x)
    → (xs : List A) → any p xs ≡ true
    → any p (update q f xs) ≡ true
unfolding update
any-update p q f keeps [] e = cc e
any-update p q f keeps (x ∷ xs) e = elim (Bool-cases (q x)) [
  | inl changed ↦ rw changed (ground (arith, e, keeps x, any-update p q f keeps xs))
  | inr kept ↦ rw kept (ground (arith, e, any-update p q f keeps xs))
]

any-find {ℓ} :
    {A : Type ℓ} (p q : A → Bool) (xs : List A) {x : A}
    → find p xs ≡ some x
    → q x ≡ true
    → any q xs ≡ true
unfolding find
any-find p q [] e h = cc e
any-find p q (y ∷ ys) {x} e h = elim (Bool-cases (p y)) [
  | inr passed ↦ let rest = any-find p q ys (rw passed at e) h in ground (arith, rest)
  | inl here ↦
      let same_y : some y ≡ some x = rw here at e in
      let same_x : y ≡ x = cc same_y in
      let holds : q y ≡ true = subst (λ z. q z ≡ true) (sym same_x) h in ground (arith, holds)
]

any-front {ℓ} :
    {A : Type ℓ} (p q r : A → Bool) (xs : List A)
    → any p xs ≡ false
    → any (λ x. (p x && q x) && r x) xs ≡ false
any-front p q r [] e = refl
any-front p q r (x ∷ xs) e = ground (arith, e, any-front p q r xs)

module _ (crypto : Crypto) (settings : Settings) (salt : Text) (id : ℕ)
    (username password role slug token : Text) (t : Tenant) (s : Store) where
  -- The tables behind the two INSERTs.
  abbrev joined : Store
  joined = record s {
    users = s.users ++ new_user crypto salt id username password ∷ [];
    memberships = s.memberships ++ record { user_id = id; tenant_id = t.id; role = role } ∷ [];
  }

  -- The new session of the user.
  abbrev pub session_at : ℕ → Session
  session_at now = record {
    token_hash = crypto.sha256 token;
    user_id = id;
    tenant_id = t.id;
    expires_at = now + settings.session_ttl * 3600;
    revoked = false;
  }

  abbrev signed_in : ℕ → Store
  signed_in now =
      new_session crypto settings now token id t.id
        (record joined { users = update (has_id id) clear_failures joined.users })

  login-joined :
      (now : ℕ) (dk : Text)
      → any (λ u. same u.username username) s.users ≡ false
      → any (is_member id t.id) s.memberships ≡ false
      → find (λ x. same x.slug slug) s.tenants ≡ some t
      → crypto.scrypt password salt (codes "16384") (codes "8") (codes "1") ≡ some dk
      → is_plain salt ≡ true
      → is_plain dk ≡ true
      → login crypto settings now token slug username password joined ≡ (some token, signed_in now)
  unfolding login
  login-joined now dk unknown unjoined tenant hashed plain_salt plain_dk =
      let found =
        find-append (λ u. same u.username username) s.users
          (new_user crypto salt id username password) unknown (same_refl username) in
      let verified =
        verify_password-hash_password crypto salt password dk hashed plain_salt plain_dk in
      let member_there : is_member id t.id (record { user_id = id; tenant_id = t.id; role = role })
          ≡ true =
        ground arith in
      let member_found =
        find-append (is_member id t.id) s.memberships
          (record { user_id = id; tenant_id = t.id; role = role }) unjoined member_there in
      rw (found, verified, tenant, member_found) refl

  session_for-signed_in :
      (now later : ℕ)
      → find (λ x. same x.slug slug) s.tenants ≡ some t
      → any (λ x. same x.token_hash (crypto.sha256 token)) s.sessions ≡ false
      → later < now + settings.session_ttl * 3600
      → session_for crypto later token (signed_in now) ≡ some (session_at now)
  unfolding session_for
  session_for-signed_in now later tenant fresh before =
      let hash = crypto.sha256 token in
      let active =
        any-update (λ u. u.id == id && u.is_active) (has_id id) clear_failures (λ u. refl)
          joined.users
          (any-last (λ u. u.id == id && u.is_active) s.users
            (new_user crypto salt id username password) (ground arith)) in
      let of_tenant =
        any-find (λ x. same x.slug slug) (λ x. x.id == t.id) s.tenants tenant (==_refl t.id) in
      let of_member =
        any-last (is_member id t.id) s.memberships
          (record { user_id = id; tenant_id = t.id; role = role }) (ground arith) in
      let live : is_live hash later (session_at now) ≡ true =
        rw (same_refl hash) (ground (arith, before)) in
      find-append (λ x. is_live hash later x && is_joined (signed_in now) x) s.sessions
        (session_at now)
        (any-front (λ x. same x.token_hash hash) (λ x. not x.revoked && ltb later x.expires_at)
          (is_joined (signed_in now)) s.sessions fresh)
        (rw (live, active, of_tenant, of_member) refl)

-- A user is created and made a member of a tenant. Then signing in with the password, under the
-- slug of the tenant, gives the token; and until the session expires, the token has a session of
-- this user in this tenant. The hash of the drawn token is no session's yet, scrypt takes the
-- password, and its texts in hex have no `$`.
pub login-create_user :
    (crypto : Crypto) (settings : Settings) (salt dk : Text) (id : ℕ)
    (username password role slug token : Text) (t : Tenant) (s mid new : Store) (now later : ℕ)
    → create_user crypto salt id username password s ≡ some mid
    → add_membership id t.id role mid ≡ some new
    → find (λ x. same x.slug slug) s.tenants ≡ some t
    → crypto.scrypt password salt (codes "16384") (codes "8") (codes "1") ≡ some dk
    → is_plain salt ≡ true
    → is_plain dk ≡ true
    → any (λ x. same x.token_hash (crypto.sha256 token)) s.sessions ≡ false
    → later < now + settings.session_ttl * 3600
    → ((login crypto settings now token slug username password new).0 ≡ some token)
      × (session_for crypto later token
            (login crypto settings now token slug username password new).1
          ≡ some (session_at crypto settings salt id username password role slug token t s now))
login-create_user crypto settings salt dk id username password role slug token t s mid new now later
      created added tenant hashed plain_salt plain_dk fresh before =
    let (is_mid, unknown) = create_user-some crypto salt id username password s mid created in
    let added_first = subst (λ x. add_membership id t.id role x ≡ some new) (sym is_mid) added in
    let (is_new, unjoined) = add_membership-some id t.id role _ new added_first in
    let in_joined =
      login-joined crypto settings salt id username password role slug token t s now dk unknown
        unjoined tenant hashed plain_salt plain_dk in
    let ran =
      ap (λ x. login crypto settings now token slug username password x) (sym is_new) ∙ in_joined in
    (
      ap (λ r. r.0) ran,
      ap (λ r. session_for crypto later token r.1) ran
          ∙ session_for-signed_in crypto settings salt id username password role slug token t s now
              later tenant fresh before,
    )
