-- ===== src/Accounts/Lockout.antt =====
-- The lockout: how many wrong passwords lock an account, until when, and what a lock refuses.
use postgre_data_migration_a.Prelude.{
  ℕ, ◌+◌, ◌<◌, true, Option, none, some, List, [], ◌∷◌, ◌≡◌, refl, sym, ap, ◌∙◌, inl, inr, arith,
  length, All, Text, same, ltb, leb, if◌then◌else◌, Bool-cases, subst,
}
use postgre_data_migration_a.Config.{Settings}
use postgre_data_migration_a.Accounts.Tables.{find, User, Membership, Store}
use postgre_data_migration_a.Accounts.Password.{Crypto, verify_password}
use postgre_data_migration_a.Accounts.{
  is_after, lockout, count_failure, lock, fail_login, role_of, admit, login,
}

-- Wrong passwords at the times.
unfoldable pub fail_all : Settings → User → List ℕ → User
unfolding fail_login
fail_all settings u [] = u
fail_all settings u (t ∷ ts) = fail_all settings (fail_login settings t u) ts

abbrev pub last : ℕ → List ℕ → ℕ
last t [] = t
last t (s ∷ ts) = last s ts

module _ (settings : Settings) where
  -- The lock behind `count` failures, the last one at `t`.
  abbrev pub locked_at : Option ℕ → ℕ → ℕ → Option ℕ
  locked_at before count t =
      if leb settings.login_max_failures count then some (t + lockout settings) else before

  lock_lem :
      (t : ℕ) (u : User)
      → (lock settings t u).locked_until ≡ locked_at u.locked_until u.failed_logins t
  lock_lem t u = ground arith

  record Counts (first count : ℕ) (locked : Option ℕ) (u : User) : Type 0 where
    failures : u.failed_logins ≡ count
    since : u.first_failed_at ≡ some first
    lock : u.locked_until ≡ locked

  lock-Counts :
      (first count t : ℕ) (u : User)
      → u.failed_logins ≡ count
      → u.first_failed_at ≡ some first
      → Counts first count (locked_at u.locked_until count t) (lock settings t u)
  lock-Counts first count t u e f =
      elim (Bool-cases (leb settings.login_max_failures u.failed_logins)) [
        | inl many ↦ rw many (record { failures = e; since = f; lock = rw (sym e, many) })
        | inr few ↦ rw few (record { failures = e; since = f; lock = rw (sym e, few) })
      ]

  fail_login-first :
      (t : ℕ) (u : User)
      → u.first_failed_at ≡ none
      → Counts t 1 (locked_at u.locked_until 1 t) (fail_login settings t u)
  unfolding fail_login
  fail_login-first t u e =
      rw e (lock-Counts t 1 t (record u { failed_logins = 1; first_failed_at = some t }) refl refl)

  fail_login-later :
      (first count t : ℕ) (locked : Option ℕ) (u : User)
      → t < first + lockout settings
      → Counts first count locked u
      → Counts first (count + 1) (locked_at locked (count + 1) t) (fail_login settings t u)
  unfolding fail_login
  fail_login-later first count t locked u soon h =
      let recent : ltb t (first + lockout settings) ≡ true = ground (arith, soon) in
      let counted : count_failure settings t u ≡ record u { failed_logins = u.failed_logins + 1 } =
        rw (h.since, recent) in
      subst (λ v. Counts first (count + 1) (locked_at locked (count + 1) t) (lock settings t v))
        (sym counted)
        (subst
          (λ l.
            Counts first (count + 1) (locked_at l (count + 1) t)
              (lock settings t (record u { failed_logins = u.failed_logins + 1 })))
          h.lock
          (lock-Counts first (count + 1) t (record u { failed_logins = u.failed_logins + 1 })
            (ap (λ n. n + 1) h.failures) h.since))

  -- A later failure decides the lock anew.
  overwritten :
      (before : Option ℕ) (count t s : ℕ)
      → locked_at (locked_at before count t) (count + 1) s ≡ locked_at before (count + 1) s
  overwritten before count t s = ground arith

  fail_all-Counts :
      (first count t : ℕ) (locked : Option ℕ) (u : User) (ts : List ℕ)
      → All (λ s. s < first + lockout settings) ts
      → Counts first count (locked_at locked count t) u
      → Counts first
          (count + length ts)
          (locked_at locked (count + length ts) (last t ts))
          (fail_all settings u ts)
  unfolding fail_all
  fail_all-Counts first count t locked u [] soon h =
      subst (λ k. Counts first k (locked_at locked k t) u) (omega arith) h
  fail_all-Counts first count t locked u (s ∷ ts) soon h =
      subst
        (λ k.
          Counts first k (locked_at locked k (last s ts))
            (fail_all settings (fail_login settings s u) ts))
        (omega arith)
        (fail_all-Counts first (count + 1) s locked (fail_login settings s u) ts soon.1 (
          subst (λ l. Counts first (count + 1) l (fail_login settings s u))
            (overwritten locked count t s) (fail_login-later first count s _ u soon.0 h)))

  -- For an account with no first failure on record: behind wrong passwords at `t` and at the times
  -- `ts`, which are all in the window that opens at `t`, the counter is their number; if they are
  -- as many as the limit, the account is locked for the whole lockout from the last one on, and
  -- else its lock is what it was.
  pub fail_all-locked_until :
      (t : ℕ) (ts : List ℕ) (u : User)
      → u.first_failed_at ≡ none
      → All (λ s. s < t + lockout settings) ts
      → ((fail_all settings u (t ∷ ts)).failed_logins ≡ length (t ∷ ts))
        × ((fail_all settings u (t ∷ ts)).locked_until ≡ (
            if leb settings.login_max_failures (length (t ∷ ts))
            then some (last t ts + lockout settings)
            else u.locked_until))
  unfolding fail_all
  fail_all-locked_until t ts u e soon =
      let counts =
        fail_all-Counts t 1 t u.locked_until (fail_login settings t u) ts soon
          (fail_login-first t u e) in
      (
        counts.failures ∙ omega arith,
        counts.lock ∙ ap (λ k. locked_at u.locked_until k (last t ts)) (omega arith),
      )

  admit_locked :
      (crypto : Crypto) (now : ℕ) (token : Text) (u : User) (s : Store)
      → is_after u.locked_until now ≡ true
      → (o : Option Membership) → admit crypto settings now token u o s ≡ (none, s)
  admit_locked crypto now token u s k none = refl
  admit_locked crypto now token u s k (some m) = ground (arith, k)

  -- An account that is locked gives no session, not even for the right password.
  pub login_locked :
      (crypto : Crypto) (now : ℕ) (token slug username password : Text) (s : Store) (u : User)
      → find (λ u. same u.username username) s.users ≡ some u
      → is_after u.locked_until now ≡ true
      → ((login crypto settings now token slug username password s).0 ≡ none)
        × ((login crypto settings now token slug username password s).1.sessions ≡ s.sessions)
  unfolding login
  login_locked crypto now token slug username password s u e k =
      elim (Bool-cases (verify_password crypto password u.password_hash)) [
        | inl right ↦
            let stopped =
              admit_locked crypto now token u s k
                (role_of s.memberships u.id (find (λ t. same t.slug slug) s.tenants)) in
            rw (e, right, stopped) (refl, refl)
        | inr wrong ↦ rw (e, wrong) (refl, refl)
      ]
