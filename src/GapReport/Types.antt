-- ===== src/GapReport/Types.antt =====
-- The values of evals/gap_report.py: outcomes, requirements and statuses. A dictionary is the list
-- of its entries.
use postgre_data_migration_a.Prelude.{Bool, List, Text, codes}

pub data Outcome : Type 0 where
  pass fail skip missing : Outcome

abbrev pub outcome_text : Outcome → Text
outcome_text pass = codes "PASS"
outcome_text fail = codes "FAIL"
outcome_text skip = codes "SKIP"
outcome_text missing = codes "MISSING"

pub data Baseline : Type 0 where
  full partial gap deferred : Baseline

-- An entry of the catalogue; an absent key is empty or false.
pub record Br : Type 0 where
  pub id : Text
  pub title : Text
  pub category : Text
  pub covering_evals : List (Text × List Text)
  pub baseline : Baseline
  pub notes : Text
  pub oob_layers : List Text
  pub implicitly_verified : Bool
  pub skip_means_verified : Bool

-- The keys of `STATUS_ICONS`.
pub data Status : Type 0 where
  verified partly regression skipped unverified out_of_band out_of_scope : Status

-- `STATUS_ICONS`.
abbrev pub status_icon : Status → Text
status_icon verified = codes "OK"
status_icon partly = codes "PARTIAL"
status_icon regression = codes "REGRESSION"
status_icon skipped = codes "SKIPPED"
status_icon unverified = codes "GAP"
status_icon out_of_band = codes "OOB"
status_icon out_of_scope = codes "DEFERRED"

-- What `compute_status` returns.
pub record Verdict : Type 0 where
  pub status : Status
  pub details : List Text
