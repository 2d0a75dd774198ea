-- ===== src/Accounts/Tables.antt =====
-- The tables of the control schema that the accounts use (alembic/versions), and their statements.
use postgre_data_migration_a.Prelude.{
  ℕ, Bool, Option, none, some, List, [], ◌∷◌, Text, if◌then◌else◌,
}

pub record User : Type 0 where
  pub id : ℕ
  pub username : Text
  pub password_hash : Text
  pub is_active : Bool
  pub failed_logins : ℕ
  pub first_failed_at : Option ℕ
  pub locked_until : Option ℕ

pub record Tenant : Type 0 where
  pub id : ℕ
  pub slug : Text

pub record Membership : Type 0 where
  pub user_id : ℕ
  pub tenant_id : ℕ
  pub role : Text

-- `revoked` tells whether `revoked_at` is set.
pub record Session : Type 0 where
  pub token_hash : Text
  pub user_id : ℕ
  pub tenant_id : ℕ
  pub expires_at : ℕ
  pub revoked : Bool

pub record Store : Type 0 where
  pub users : List User
  pub tenants : List Tenant
  pub memberships : List Membership
  pub sessions : List Session

module _ {ℓ} {A : Type ℓ} (p : A → Bool) where
  -- `SELECT … WHERE p` and `fetchone`.
  unfoldable pub find : List A → Option A
  find [] = none
  find (x ∷ xs) = if p x then some x else find xs

  -- `UPDATE … SET f WHERE p`.
  unfoldable pub update : (A → A) → List A → List A
  update f [] = []
  update f (x ∷ xs) = let rest = update f xs in if p x then f x ∷ rest else x ∷ rest
