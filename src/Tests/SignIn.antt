-- ===== src/Tests/SignIn.antt =====
-- Signing out, and the reset of a password.
use postgre_data_migration_a.Prelude.{[], ◌∷◌, ◌≡◌, refl, codes}
use postgre_data_migration_a.Python.{strip}
use postgre_data_migration_a.Tests.Samples.{ascii}
use postgre_data_migration_a.Tests.Accounts.{plain, ann, session, store}
use postgre_data_migration_a.Tests.Review.{digest}
use postgre_data_migration_a.Accounts.Tables.{find, Store}
use postgre_data_migration_a.Accounts
use postgre_data_migration_a.Audit.{write_audit}
use postgre_data_migration_a.Auth.{
  ok, http, bearer_token, before_space, behind_space, live_session, permissions,
}
use postgre_data_migration_a.SignIn.{require_session, logout, Reset, World, reset}
use postgre_data_migration_a.SignIn.Logout.{require_session-logout}
use postgre_data_migration_a.SignIn.Resets.{Resets, reset-Resets}

abbrev signed_out : Store
signed_out = Accounts.revoke plain (codes "t1") store

logout_run : logout ascii plain (codes "Bearer t1") store ≡ (ok tt, signed_out)
unfolding logout bearer_token before_space behind_space strip
logout_run = refl

require_session-logout_example :
    require_session ascii plain 5 (codes "Bearer t1") signed_out ≡ http 401
require_session-logout_example =
    require_session-logout ascii plain 5 (codes "Bearer t1") store signed_out logout_run

-- Ann administers the one tenant, and Bob is a member of it.
abbrev staff : Store
staff = record {
  users = ann ∷ record ann { id = 2; username = codes "bob" } ∷ [];
  tenants = record { id = 7; slug = codes "one" } ∷ [];
  memberships =
      record { user_id = 1; tenant_id = 7; role = codes "tenant_admin" }
      ∷ record { user_id = 2; tenant_id = 7; role = codes "uploader" }
      ∷ [];
  sessions = session ∷ record session { token_hash = codes "t2"; user_id = 2 } ∷ [];
}

abbrev new_password : Reset
new_password = record {
  now = 5;
  salt = codes "5a";
  audit_id = 1;
  username = codes "bob";
  password = codes "battery staple";
}

abbrev world : World
world = record { store = staff; log = [] }

reset_run : (reset ascii plain digest new_password (codes "Bearer t1") world).0 ≡ ok tt
unfolding reset require_session bearer_token before_space behind_space strip live_session
    Accounts.session_for Accounts.reset_password find permissions write_audit
reset_run = refl

reset-Resets_example :
    Resets ascii plain digest new_password
      (codes "Bearer t1")
      world
      (reset ascii plain digest new_password (codes "Bearer t1") world)
reset-Resets_example = reset-Resets ascii plain digest new_password (codes "Bearer t1") world
