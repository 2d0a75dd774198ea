-- ===== src/Tests/Creation.antt =====
-- A tenant and a user who are created; the user signs in.
use postgre_data_migration_a.Prelude.{none, some, [], ◌∷◌, ◌++◌, ◌≡◌, refl, arith, same, codes}
use postgre_data_migration_a.Tests.Samples.{settings}
use postgre_data_migration_a.Tests.Accounts.{plain, store}
use postgre_data_migration_a.Accounts.Tables.{find, Tenant, Store}
use postgre_data_migration_a.Accounts.{login, session_for}
use postgre_data_migration_a.Accounts.Creation.{
  new_user, create_tenant, create_user, add_membership,
}
use postgre_data_migration_a.Accounts.Creation.SignedIn.{session_at, login-create_user}

abbrev one : Tenant
one = record { id = 7; slug = codes "one" }

abbrev with_bob : Store
with_bob = record store {
  users = store.users ++ new_user plain (codes "5a") 2 (codes "bob") (codes "battery staple") ∷ [];
}

abbrev with_member : Store
with_member = record with_bob {
  memberships =
      with_bob.memberships ++ record { user_id = 2; tenant_id = 7; role = codes "reviewer" } ∷ [];
}

create_tenant_run :
    (create_tenant 9 (codes "one") store ≡ none) × (create_tenant 9 (codes "Three") store ≡ none)
unfolding create_tenant
create_tenant_run = (refl, refl)

create_user_run :
    create_user plain (codes "5a") 2 (codes "bob") (codes "battery staple") store ≡ some with_bob
unfolding create_user
create_user_run = refl

add_membership_run : add_membership 2 7 (codes "reviewer") with_bob ≡ some with_member
unfolding add_membership
add_membership_run = refl

unknown_role_run : add_membership 2 7 (codes "owner") with_bob ≡ none
unfolding add_membership
unknown_role_run = refl

tenant_run : find (λ x. same x.slug (codes "one")) store.tenants ≡ some one
unfolding find
tenant_run = refl

login-create_user_example :
    ((login plain settings 5
        (codes "new")
        (codes "one")
        (codes "bob")
        (codes "battery staple")
        with_member).0
      ≡ some (codes "new"))
    × (session_for plain 6
          (codes "new")
          (login plain settings 5
            (codes "new")
            (codes "one")
            (codes "bob")
            (codes "battery staple")
            with_member).1
        ≡ some (
            session_at plain settings
              (codes "5a")
              2
              (codes "bob")
              (codes "battery staple")
              (codes "reviewer")
              (codes "one")
              (codes "new")
              one
              store
              5))
login-create_user_example =
    login-create_user plain settings (codes "5a") (codes "battery staple5a") 2 (codes "bob")
      (codes "battery staple") (codes "reviewer") (codes "one") (codes "new") one store with_bob
      with_member 5 6 create_user_run add_membership_run tenant_run refl refl refl refl
      (omega arith)
