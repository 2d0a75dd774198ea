-- ===== src/Tests/Accounts.antt =====
-- Logins, the lockout and the sessions.
use postgre_data_migration_a.Prelude.{
  ◌+◌, true, false, ◌&&◌, none, some, [], ◌∷◌, ◌++◌, ◌≡◌, refl, arith, codes, same, leb, ◌==◌,
  if◌then◌else◌,
}
use postgre_data_migration_a.Tests.Samples.{settings, ascii}
use postgre_data_migration_a.Python.{strip}
use postgre_data_migration_a.Accounts.Tables.{find, update, User, Session, Store}
use postgre_data_migration_a.Accounts.Password.{Crypto, verify_password}
use postgre_data_migration_a.Accounts.{lockout, login, is_other, session_for, set_password_of}
use postgre_data_migration_a.Auth.{
  ok, Scope, session_scope, tenant_scope, bearer_token, before_space, behind_space, live_session,
}
use postgre_data_migration_a.Accounts.Lockout.{fail_all, fail_all-locked_until}
use postgre_data_migration_a.Accounts.Sessions.{session_for-set_password_of}

-- A text is its own hash.
abbrev pub plain : Crypto
plain = record { scrypt = λ password salt n r p. some (password ++ salt); sha256 = λ s. s }

abbrev pub ann : User
ann = record {
  id = 1;
  username = codes "ann";
  password_hash = codes "scrypt$16384$8$1$5a$secret5a";
  is_active = true;
  failed_logins = 0;
  first_failed_at = none;
  locked_until = none;
}

fail_all-locked_until_example :
    ((fail_all settings ann (10 ∷ 20 ∷ 30 ∷ [])).failed_logins ≡ 3)
    × ((fail_all settings ann (10 ∷ 20 ∷ 30 ∷ [])).locked_until
        ≡ (if leb settings.login_max_failures 3 then some (30 + lockout settings) else none))
fail_all-locked_until_example =
    fail_all-locked_until settings 10 (20 ∷ 30 ∷ []) ann refl (omega arith, (omega arith, tt))

abbrev locked_ann : User
locked_ann = record ann { locked_until = some 1000 }

abbrev pub session : Session
session = record {
  token_hash = codes "t1";
  user_id = 1;
  tenant_id = 7;
  expires_at = 100;
  revoked = false;
}

abbrev pub store : Store
store = record {
  users = ann ∷ [];
  tenants = record { id = 7; slug = codes "one" } ∷ record { id = 8; slug = codes "two" } ∷ [];
  memberships =
      record { user_id = 1; tenant_id = 7; role = codes "uploader" }
      ∷ record { user_id = 1; tenant_id = 8; role = codes "auditor" }
      ∷ [];
  sessions = session ∷ record session { token_hash = codes "t2" } ∷ [];
}

abbrev locked_store : Store
locked_store = record store { users = locked_ann ∷ [] }

login_run :
    (login plain settings 5 (codes "new") (codes "one") (codes "ann") (codes "secret") store).0
    ≡ some (codes "new")
unfolding login find verify_password
login_run = refl

found_locked : find (λ u. same u.username (codes "ann")) locked_store.users ≡ some locked_ann
unfolding find
found_locked = refl

session_run : session_for plain 5 (codes "t1") store ≡ some session
unfolding session_for find
session_run = refl

kept :
    session_for plain 5
      (codes "t1")
      (set_password_of plain (codes "5a") 1 (codes "other") (some (codes "t1")) store)
    ≡ some session
unfolding session_for set_password_of find update
kept = refl

session_for-set_password_of_example :
    (session.user_id == 1 && is_other plain (some (codes "t1")) session) ≡ false
session_for-set_password_of_example =
    session_for-set_password_of plain 5 (codes "t1") (codes "5a") 1 (codes "other")
      (some (codes "t1")) store session kept

found : find (λ u. same u.username (codes "ann")) store.users ≡ some ann
unfolding find
found = refl

abbrev ann_scope : Scope
ann_scope = session_scope (record {
  user_id = 1;
  username = codes "ann";
  tenant_id = 7;
  tenant = codes "one";
  role = codes "uploader";
})

scope_run : tenant_scope ascii plain settings 5 (codes "Bearer t1") [] store ≡ ok ann_scope
unfolding tenant_scope bearer_token before_space behind_space live_session session_for find strip
scope_run = refl
