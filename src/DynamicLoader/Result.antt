-- ===== src/DynamicLoader/Result.antt =====
-- The results of an upload, and chains that a `return` ends early.
use postgre_data_migration_a.Prelude.{ℕ, Option, none, some, List, Text}
use postgre_data_migration_a.CsvParse.Types.{ColType}
use postgre_data_migration_a.CsvParse.Preview.{Reason}
use postgre_data_migration_a.CsvParse.Ragged.{RowError}

-- `"reason"` of a duplicate.
pub data DupReason : Type 0 where
  name content : DupReason

-- What the `"message"` of an error says.
pub data Problem : Type 0 where
  too_many_rows : ℕ → Problem
  no_usable_columns : Problem
  duplicate_column : Text → Problem
  bad_identifiers : Problem
  wrong_type_count : ℕ → ℕ → Problem
  unsupported_type : Problem
  nothing_imported : ℕ → ℕ → List RowError → List Text → List ColType → Problem
  not_a_te_table : Problem
  te_table_missing : Problem
  unknown_columns : List Text → Problem
  loaded_concurrently : Problem
  database_error : Problem

pub record Loaded : Type 0 where
  pub file_id : ℕ
  pub table_name : Text
  pub total_rows : ℕ
  pub inserted_rows : ℕ
  pub duplicate_rows_skipped : ℕ
  pub failed_rows : ℕ
  pub columns : List Text
  pub types : List ColType
  pub row_errors : List RowError
  pub replaced_file_name : Option Text

-- `crashed` is an exception that the handler does not catch.
pub data Upload : Type 0 where
  invalid_structure : Reason → Upload
  error : Problem → Upload
  duplicate_file : DupReason → Text → Text → ℕ → Upload
  ok : Loaded → Upload
  crashed : Upload

pub data Flow {ℓ} (A : Type ℓ) : Type ℓ where
  go : A → Flow A
  stop : Upload → Flow A

infixl 5 ◌>>=◌
abbrev pub ◌>>=◌ {ℓ κ} : {A : Type ℓ} {B : Type κ} → Flow A → (A → Flow B) → Flow B
go a >>= f = f a
stop u >>= f = stop u

-- `none` is an exception, which ends the request with `u`.
abbrev pub or_stop {ℓ} : {A : Type ℓ} → Upload → Option A → Flow A
or_stop u none = stop u
or_stop u (some a) = go a
