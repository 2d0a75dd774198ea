-- ===== src/SignIn/Resets.antt =====
-- api/routers/auth_routes.py: what a reset of a password changes.
use postgre_data_migration_a.Prelude.{
  ℕ, suc, Bool, true, false, ◌&&◌, not, Option, none, some, List, ◌≡◌, ◌≢◌, refl, inl, inr, ◌⊎◌,
  arith, any, length, leb, Text, member, same, ◌==◌, Bool-cases, if◌then◌else◌,
}
use postgre_data_migration_a.Python.{Runtime}
use postgre_data_migration_a.Accounts.Tables.{find, User, Membership, Session, Store}
use postgre_data_migration_a.Accounts.Password.{Crypto}
use postgre_data_migration_a.Accounts.{is_other, session_for, set_password_of, reset_row}
use postgre_data_migration_a.Accounts
use postgre_data_migration_a.Accounts.Sessions.{session_for-set_password_of}
use postgre_data_migration_a.Audit.{Digest, Row, write_audit, first_bad}
use postgre_data_migration_a.Audit.Chain.{first_bad-write_audit}
use postgre_data_migration_a.Auth.{
  Http, ok, http, crashed, ◌>>=◌, bearer_token, Caller, or_401, joined, live_session, permissions,
  reset_password,
}
use postgre_data_migration_a.SignIn.{
  require_session, is_new_password, Reset, reset_entry, World, reset_audited, answered, reset_by,
  reset,
}

abbrev pub in_tenant : ℕ → User → Membership → Bool
in_tenant tenant_id u m = m.user_id == u.id && m.tenant_id == tenant_id

abbrev pub in_other_tenant : ℕ → User → Membership → Bool
in_other_tenant tenant_id u m = m.user_id == u.id && not (m.tenant_id == tenant_id)

-- A reset that is answered.
pub record IsReset (crypto : Crypto) (digest : Digest) (r : Reset) (old new : World)
    (caller : Caller) (u : User) : Type 0 where
  pub admin : member caller.role (permissions reset_password) ≡ true
  pub long : leb 12 (length r.password) ≡ true
  pub bounded : leb (length r.password) 1024 ≡ true
  pub found : find (λ x. same x.username r.username) old.store.users ≡ some u
  pub inside : any (in_tenant caller.tenant_id u) old.store.memberships ≡ true
  pub only : any (in_other_tenant caller.tenant_id u) old.store.memberships ≡ false
  pub store : new.store ≡ set_password_of crypto r.salt u.id r.password none old.store
  pub ended :
      (now : ℕ) (token : Text) (x : Session)
      → session_for crypto now token new.store ≡ some x
      → (x.user_id == u.id) ≡ false
  pub rows : length new.log ≡ suc (length old.log)
  pub intact : first_bad digest new.log ≡ first_bad digest old.log

-- The status of a refusal.
abbrev pub IsRefusal : ℕ → Type 0
IsRefusal status =
    (status ≡ 401) ⊎ ((status ≡ 403) ⊎ ((status ≡ 404) ⊎ ((status ≡ 409) ⊎ (status ≡ 422))))

module _ (rt : Runtime) (crypto : Crypto) (digest : Digest) (r : Reset) (authorization : Text)
    (w : World) where
  -- What `reset_password` may answer and leave.
  abbrev pub Resets : Http (Unit {0}) × World → Type 0
  Resets (ok _, new) =
      (caller : Caller) × ((u : User) × ((require_session rt crypto r.now authorization w.store
            ≡ ok caller)
          × IsReset crypto digest r w new caller u))
  Resets (http status, new) = (new ≡ w) × IsRefusal status
  Resets (crashed, new) = ⊥

written_reset :
    (digest : Digest) (r : Reset) (caller : Caller) (log : List Row)
    → write_audit digest (reset_entry r caller) log ≢ none
unfolding write_audit
written_reset digest r caller log e = cc e

and_true : (b : Bool) → (b && true) ≡ false → b ≡ false
and_true b e = ground (arith, e)

module _ (rt : Runtime) (crypto : Crypto) (digest : Digest) (r : Reset) (authorization : Text)
    (w : World) (caller : Caller)
    (signed_in : require_session rt crypto r.now authorization w.store ≡ ok caller)
    (long : is_new_password r.password ≡ true)
    (admin : member caller.role (permissions reset_password) ≡ true) where
  reset_audited-Resets :
      (u : User) (o : Option (List Row))
      → find (λ x. same x.username r.username) w.store.users ≡ some u
      → any (in_tenant caller.tenant_id u) w.store.memberships ≡ true
      → any (in_other_tenant caller.tenant_id u) w.store.memberships ≡ false
      → write_audit digest (reset_entry r caller) w.log ≡ o
      → Resets rt crypto digest r authorization w
          (reset_audited w (set_password_of crypto r.salt u.id r.password none w.store) o)
  reset_audited-Resets u none found inside only written =
      absurd (written_reset digest r caller w.log written)
  reset_audited-Resets u (some log) found inside only written =
      let grown = first_bad-write_audit digest (reset_entry r caller) w.log log written in
      (
        caller,
        (
          u,
          (
            signed_in,
            record {
              admin = admin;
              long = ground (arith, long);
              bounded = ground (arith, long);
              found = found;
              inside = inside;
              only = only;
              store = refl;
              ended = λ now token x e. and_true (x.user_id == u.id) (
                  session_for-set_password_of crypto now token r.salt u.id r.password none w.store x
                    e);
              rows = grown.1;
              intact = grown.0;
            },
          ),
        ),
      )

  reset_row-Resets :
      (o : Option User)
      → find (λ x. same x.username r.username) w.store.users ≡ o
      → Resets rt crypto digest r authorization w (
          answered digest r caller w
            (reset_row crypto r.salt caller.tenant_id r.password o w.store))
  reset_row-Resets none found = (refl, inr (inr (inl refl)))
  reset_row-Resets (some u) found =
      elim (Bool-cases (any (in_tenant caller.tenant_id u) w.store.memberships)) [
        | inr outside ↦ rw outside (refl, inr (inr (inl refl)))
        | inl inside ↦
            elim (Bool-cases (any (in_other_tenant caller.tenant_id u) w.store.memberships)) [
              | inl other ↦ rw (inside, other) (refl, inr (inr (inr (inl refl))))
              | inr only ↦
                  rw (inside, only)
                    (reset_audited-Resets u (write_audit digest (reset_entry r caller) w.log) found
                      inside only refl)
            ]
      ]

-- Without a session the status is 401.
abbrev IsUnsigned {ℓ} : {A : Type ℓ} → Http A → Type 0
IsUnsigned (ok a) = Unit
IsUnsigned (http status) = status ≡ 401
IsUnsigned crashed = ⊥

bind-IsUnsigned {ℓ κ} :
    {A : Type ℓ} {B : Type κ} (m : Http A) (f : A → Http B)
    → IsUnsigned m
    → ((a : A) → IsUnsigned (f a))
    → IsUnsigned (m >>= f)
bind-IsUnsigned (ok a) f h k = k a
bind-IsUnsigned (http status) f h k = h
bind-IsUnsigned crashed f h k = h

if-IsUnsigned {ℓ} : {A : Type ℓ} (b : Bool) (a : A) → IsUnsigned (if b then ok a else http 401)
if-IsUnsigned true a = tt
if-IsUnsigned false a = refl

bearer_token-IsUnsigned :
    (rt : Runtime) (authorization : Text) → IsUnsigned (bearer_token rt authorization)
unfolding bearer_token
bearer_token-IsUnsigned rt authorization = if-IsUnsigned _ _

or_401-IsUnsigned : (o : Option Caller) → IsUnsigned (or_401 o)
or_401-IsUnsigned none = refl
or_401-IsUnsigned (some caller) = tt

require_session-IsUnsigned :
    (rt : Runtime) (crypto : Crypto) (now : ℕ) (authorization : Text) (s : Store)
    → IsUnsigned (require_session rt crypto now authorization s)
unfolding require_session live_session
require_session-IsUnsigned rt crypto now authorization s =
    bind-IsUnsigned (bearer_token rt authorization) _ (bearer_token-IsUnsigned rt authorization)
      (λ token. or_401-IsUnsigned (joined s (session_for crypto now token s)))

module _ (rt : Runtime) (crypto : Crypto) (digest : Digest) (r : Reset) (authorization : Text)
    (w : World) where
  reset_by-Resets :
      (m : Http Caller)
      → require_session rt crypto r.now authorization w.store ≡ m
      → IsUnsigned m
      → Resets rt crypto digest r authorization w (reset_by crypto digest r w m)
  unfolding Accounts.reset_password
  reset_by-Resets (http status) e h = (refl, inl h)
  reset_by-Resets crashed e h = h
  reset_by-Resets (ok caller) e h = elim (Bool-cases (is_new_password r.password)) [
    | inr short ↦ rw short (refl, inr (inr (inr (inr refl))))
    | inl long ↦ elim (Bool-cases (member caller.role (permissions reset_password))) [
      | inr barred ↦ rw (long, barred) (refl, inr (inl refl))
      | inl admin ↦
          rw (long, admin)
            (reset_row-Resets rt crypto digest r authorization w caller e long admin
              (find (λ u. same u.username r.username) w.store.users) refl)
    ]
  ]

  -- A reset that is answered comes from a session whose role may reset passwords, is of a user who
  -- is a member of the tenant of that session and of no other, sets the password, which has 12 to
  -- 1024 characters, and ends every session of the user, and writes one audit row, which leaves the
  -- verdict of the verification. Every other answer is a 401, 403, 404, 409 or 422 and changes
  -- neither the accounts nor the log.
  pub reset-Resets :
      Resets rt crypto digest r authorization w (reset rt crypto digest r authorization w)
  unfolding reset
  reset-Resets =
      reset_by-Resets (require_session rt crypto r.now authorization w.store) refl
        (require_session-IsUnsigned rt crypto r.now authorization w.store)
