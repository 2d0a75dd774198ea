-- ===== src/SignIn/Logout.antt =====
-- api/routers/auth_routes.py: a token behind its sign-out.
use postgre_data_migration_a.Prelude.{ℕ, ◌≡◌, refl, sym, ap, ◌∙◌, Text}
use postgre_data_migration_a.Python.{Runtime}
use postgre_data_migration_a.Accounts.Tables.{Store}
use postgre_data_migration_a.Accounts.Password.{Crypto}
use postgre_data_migration_a.Accounts
use postgre_data_migration_a.Accounts.Sessions.{session_for-revoke}
use postgre_data_migration_a.Auth.{
  Http, ok, http, crashed, ◌>>=◌, bearer_token, joined, or_401, live_session,
}
use postgre_data_migration_a.SignIn.{require_session, revoked, logout}

live_session-revoke :
    (crypto : Crypto) (now : ℕ) (token : Text) (s : Store)
    → live_session crypto now token (Accounts.revoke crypto token s) ≡ http 401
unfolding live_session
live_session-revoke crypto now token s =
    ap (λ o. or_401 (joined (Accounts.revoke crypto token s) o))
      (session_for-revoke crypto now token s)

revoked_session :
    (rt : Runtime) (crypto : Crypto) (now : ℕ) (authorization : Text) (s t : Store) (m : Http Text)
    → bearer_token rt authorization ≡ m
    → revoked crypto s m ≡ (ok tt, t)
    → (m >>= λ token. live_session crypto now token t) ≡ http 401
revoked_session rt crypto now authorization s t (http status) e f = cc f
revoked_session rt crypto now authorization s t crashed e f = cc f
revoked_session rt crypto now authorization s t (ok token) e f =
    let same_store : Accounts.revoke crypto token s ≡ t = ap (λ p. p.1) f in
    ap (live_session crypto now token) (sym same_store) ∙ live_session-revoke crypto now token s

-- Behind a sign-out that is answered, the same header gets a 401 from every route that wants a
-- session, at any later time.
pub require_session-logout :
    (rt : Runtime) (crypto : Crypto) (now : ℕ) (authorization : Text) (s t : Store)
    → logout rt crypto authorization s ≡ (ok tt, t)
    → require_session rt crypto now authorization t ≡ http 401
unfolding logout require_session
require_session-logout rt crypto now authorization s t e =
    revoked_session rt crypto now authorization s t (bearer_token rt authorization) refl e
