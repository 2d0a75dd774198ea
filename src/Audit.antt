-- ===== src/Audit.antt =====
-- api/services/audit.py, with the trigger `audit_chain` and the function `audit_row_hash` of
-- alembic/versions/0006, which it relies on. A log is listed from the newest row to the oldest.
pub mod Chain
use postgre_data_migration_a.Prelude.{
  ℕ, Bool, true, false, ◌&&◌, Option, none, some, List, [], ◌∷◌, ◌++◌, length, Text, codes, same,
  member, if◌then◌else◌,
}

-- A row less its two hashes. Times are numbers, JSON values are texts.
pub record Entry : Type 0 where
  pub id : ℕ
  pub action : Text
  pub file_id : Option ℕ
  pub file_name : Option Text
  pub table_name : Option Text
  pub mode : Option Text
  pub performed_at : ℕ
  pub actor : Option Text
  pub tenant_schema : Text
  pub before_value : Option Text
  pub after_value : Option Text

pub record Row : Type 0 where
  pub entry : Entry
  pub prev_hash : Option Text
  pub row_hash : Option Text

-- `encode(sha256(…), 'hex')`, and `jsonb_build_object(…)::text` of a row.
pub record Digest : Type 0 where
  pub sha256 : Text → Text
  pub jsonb : Entry → Text

abbrev pub coalesce : Option Text → Text
coalesce none = []
coalesce (some t) = t

unfoldable pub audit_row_hash : Digest → Option Text → Entry → Text
audit_row_hash digest prev e = digest.sha256 (coalesce prev ++ digest.jsonb e)

-- The hash of the latest row: `lag(row_hash)` of the next one, and `prev_hash` in the trigger.
abbrev pub latest_hash : List Row → Option Text
latest_hash [] = none
latest_hash (r ∷ log) = r.row_hash

-- The row that the trigger `audit_chain` makes of an INSERT.
abbrev pub chained : Digest → List Row → Entry → Row
chained digest log e = record {
  entry = e;
  prev_hash = latest_hash log;
  row_hash = some (audit_row_hash digest (latest_hash log) e);
}

abbrev pub valid_actions : List Text
valid_actions =
    codes "upload"
    ∷ codes "delete"
    ∷ codes "password_reset"
    ∷ codes "row_decision"
    ∷ codes "cell_edit"
    ∷ []

-- `write_audit`: `none` is the ValueError.
unfoldable pub write_audit : Digest → Entry → List Row → Option (List Row)
write_audit digest e log =
    if member e.action valid_actions then some (chained digest log e ∷ log) else none

-- `IS DISTINCT FROM`, negated.
abbrev pub same_option : Option Text → Option Text → Bool
same_option none none = true
same_option (some a) (some b) = same a b
same_option _ _ = false

-- The row links to the log before it and has its own hash.
abbrev pub is_linked : Digest → Row → List Row → Bool
is_linked digest r older =
    same_option r.prev_hash (latest_hash older)
    && same_option r.row_hash (some (audit_row_hash digest r.prev_hash r.entry))

abbrev pub or_first : Option ℕ → Option ℕ → Option ℕ
or_first none later = later
or_first (some id) later = some id

-- `min(id) FILTER (WHERE …)`: the oldest row that does not link.
unfoldable pub first_bad : Digest → List Row → Option ℕ
unfolding audit_row_hash
first_bad digest [] = none
first_bad digest (r ∷ older) =
    or_first (first_bad digest older) (if is_linked digest r older then none else some r.entry.id)

pub record Verified : Type 0 where
  pub rows : ℕ
  pub intact : Bool
  pub first_bad_id : Option ℕ

abbrev pub is_none : Option ℕ → Bool
is_none none = true
is_none (some id) = false

unfoldable pub verify_chain : Digest → List Row → Verified
unfolding first_bad
verify_chain digest log = record {
  rows = length log;
  intact = is_none (first_bad digest log);
  first_bad_id = first_bad digest log;
}

abbrev pub recorded : List Row → Option (List Row) → Bool × List Row
recorded log none = (false, log)
recorded log (some log') = (true, log')

-- `record_audit`, in a transaction of its own; `fails` tells whether the database raises.
unfoldable pub record_audit : Digest → Bool → Entry → List Row → Bool × List Row
unfolding write_audit
record_audit digest fails e log =
    if fails then (false, log) else recorded log (write_audit digest e log)
