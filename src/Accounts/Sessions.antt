-- ===== src/Accounts/Sessions.antt =====
-- Which sessions a sign-out and a new password end, and whose password an administrator may set.
use postgre_data_migration_a.Prelude.{
  ℕ, Bool, true, false, ◌&&◌, not, Option, none, some, List, [], ◌∷◌, ◌≡◌, subst, inl, inr, arith,
  any, Text, same, ◌==◌, Bool-cases, Option-cases,
}
use postgre_data_migration_a.Accounts.Tables.{find, update, User, Session, Store}
use postgre_data_migration_a.Accounts.Password.{Crypto}
use postgre_data_migration_a.Accounts.{
  is_live, is_joined, session_for, end_session, revoke, is_other, set_password_of, reset_password,
}

module _ {ℓ} {A : Type ℓ} (p q : A → Bool) (f : A → A) (ends : (x : A) → p (f x) ≡ false) where
  -- What is found behind an UPDATE that takes rows out of the search was not updated.
  find-update : (xs : List A) {x : A} → find p (update q f xs) ≡ some x → q x ≡ false
  unfolding find update
  find-update [] e = cc
  find-update (y ∷ ys) {x} e = elim (Bool-cases (q y)) [
    | inl changed ↦ find-update ys (rw (changed, ends y) at e)
    | inr kept ↦ elim (Bool-cases (p y)) [
      | inr passed ↦ find-update ys (rw (kept, passed) at e)
      | inl here ↦
          let same_y : some y ≡ some x = rw (kept, here) at e in
          let same_x : y ≡ x = cc same_y in subst (λ z. q z ≡ false) same_x kept
    ]
  ]

ended_lem :
    (s : Store) (hash : Text) (now : ℕ) (x : Session)
    → (is_live hash now (end_session x) && is_joined s (end_session x)) ≡ false
ended_lem s hash now x = ground arith

pub find-holds {ℓ} :
    {A : Type ℓ} (p : A → Bool) (xs : List A) {x : A} → find p xs ≡ some x → p x ≡ true
unfolding find
find-holds p [] e = cc
find-holds p (y ∷ ys) {x} e = elim (Bool-cases (p y)) [
  | inr passed ↦ find-holds p ys (rw passed at e)
  | inl here ↦
      let same_y : some y ≡ some x = rw here at e in
      let same_x : y ≡ x = cc same_y in subst (λ z. p z ≡ true) same_x here
]

-- Behind a sign-out the token has no session.
pub session_for-revoke :
    (crypto : Crypto) (now : ℕ) (token : Text) (s : Store)
    → session_for crypto now token (revoke crypto token s) ≡ none
unfolding session_for revoke
session_for-revoke crypto now token s =
    let hash = crypto.sha256 token in
    let p : Session → Bool = λ x. is_live hash now x && is_joined s x in
    let q : Session → Bool = λ x. same x.token_hash hash in
    elim (Option-cases (find p (update q end_session s.sessions))) [
      | inl gone ↦ gone
      | inr (x, found) ↦
          let other : q x ≡ false =
            find-update p q end_session (ended_lem s hash now) s.sessions found in
          let holds : p x ≡ true = find-holds p (update q end_session s.sessions) found in
          absurd (ground (arith, other, holds))
    ]

-- A session that a token has behind a new password is of another user, or it is the one to keep.
pub session_for-set_password_of :
    (crypto : Crypto) (now : ℕ) (token salt : Text) (id : ℕ) (password : Text) (keep : Option Text)
    (s : Store) (x : Session)
    → session_for crypto now token (set_password_of crypto salt id password keep s) ≡ some x
    → (x.user_id == id && is_other crypto keep x) ≡ false
unfolding session_for set_password_of
session_for-set_password_of crypto now token salt id password keep s x e =
    let after = set_password_of crypto salt id password keep s in
    find-update (λ x. is_live (crypto.sha256 token) now x && is_joined after x)
      (λ x. x.user_id == id && is_other crypto keep x) end_session
      (ended_lem after (crypto.sha256 token) now) s.sessions e

-- An administrator cannot set the password of a user who is also a member of another tenant.
pub reset_password_shared :
    (crypto : Crypto) (salt : Text) (tenant_id : ℕ) (username password : Text) (s : Store)
    (u : User)
    → find (λ u. same u.username username) s.users ≡ some u
    → any (λ m. m.user_id == u.id && not (m.tenant_id == tenant_id)) s.memberships ≡ true
    → (reset_password crypto salt tenant_id username password s).1 ≡ s
unfolding reset_password
reset_password_shared crypto salt tenant_id username password s u e k =
    elim (Bool-cases (any (λ m. m.user_id == u.id && m.tenant_id == tenant_id) s.memberships)) [
      | inl member ↦ rw (e, member, k)
      | inr stranger ↦ rw (e, stranger)
    ]
