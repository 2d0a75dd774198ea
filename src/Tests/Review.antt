-- ===== src/Tests/Review.antt =====
-- The audit log, and the review of a stored upload.
use postgre_data_migration_a.Prelude.{
  ℕ, suc, true, false, Text, ◌==◌, if◌then◌else◌, any, map, arith, not, none, some, List, [], ◌∷◌,
  ◌≡◌, ◌≢◌, refl, length, get_or, ltb, same, same_iff, sym, ◌∙◌, codes,
}
use postgre_data_migration_a.Tests.Samples.{ascii}
use postgre_data_migration_a.Python.{strip}
use postgre_data_migration_a.CsvParse.Types.{int8}
use postgre_data_migration_a.CsvParse.Cast.{cast_value}
use postgre_data_migration_a.CsvParse.Patterns.{int_re}
use postgre_data_migration_a.CsvParse.Ragged.{extra_cells}
use postgre_data_migration_a.Audit.{
  Entry, Digest, write_audit, first_bad, chained, latest_hash, audit_row_hash, verify_chain,
}
use postgre_data_migration_a.Audit.Chain.{IsHex, NoCollisions, first_bad-write_audit, first_bad-inj}
use postgre_data_migration_a.Audit
use postgre_data_migration_a.Review.Rows.{Upload, Store, Meta, View, find_upload, meta_of, view_row}
use postgre_data_migration_a.Review.{
  ok, Context, is_decision, decide, edit, open_upload, one_row, column_index,
}
use postgre_data_migration_a.Review.Decisions.{IsDecided, decide-IsDecided}
use postgre_data_migration_a.Review.Edits.{IsEdited, edit-IsEdited}

abbrev pub digest : Digest
digest = record { sha256 = λ s. s; jsonb = λ e. e.action }

abbrev uploaded : Entry
uploaded = record {
  id = 1;
  action = codes "upload";
  file_id = some 1;
  file_name = some (codes "a.csv");
  table_name = none;
  mode = none;
  performed_at = 5;
  actor = none;
  tenant_schema = codes "s";
  before_value = none;
  after_value = none;
}

abbrev log : List Audit.Row
log = chained digest [] uploaded ∷ []

abbrev deleted : Entry
deleted = record uploaded { id = 2; action = codes "delete" }

abbrev longer : List Audit.Row
longer = chained digest log deleted ∷ log

written : write_audit digest deleted log ≡ some longer
unfolding write_audit
written = refl

first_bad-write_audit_example :
    (first_bad digest longer ≡ first_bad digest log) × (length longer ≡ suc (length log))
first_bad-write_audit_example = first_bad-write_audit digest deleted log longer written

intact : first_bad digest longer ≡ none
unfolding first_bad
intact = refl

-- A row that was changed behind the trigger is found.
tampered :
    first_bad digest (
      chained digest log deleted
      ∷ record (chained digest [] uploaded) { entry = record uploaded { action = codes "x" } }
      ∷ [])
    ≡ some 1
unfolding first_bad
tampered = refl

-- A digest whose hashes have no brace.
abbrev escape : ℕ → ℕ
escape c = if c == b'{' then b'(' else c

abbrev hex : Digest
hex = record { sha256 = λ t. map escape t; jsonb = λ e. b'{' ∷ e.action }

escape_digits : (c : ℕ) → (escape c == b'{') ≡ false
escape_digits c = ground arith

hex_digits : (t : Text) → any (λ c. c == b'{') (map escape t) ≡ false
hex_digits [] = refl
hex_digits (c ∷ t) = rw (escape_digits c) (hex_digits t)

hex-IsHex : IsHex hex
hex-IsHex = record { object = λ e. (e.action, refl); digits = hex_digits }

-- Two logs in which the same entry follows different ones.
abbrev of_upload : List Audit.Row
of_upload = chained hex (chained hex [] uploaded ∷ []) deleted ∷ chained hex [] uploaded ∷ []

abbrev of_delete : List Audit.Row
of_delete = chained hex (chained hex [] deleted ∷ []) deleted ∷ chained hex [] deleted ∷ []

of_upload_intact : first_bad hex of_upload ≡ none
unfolding first_bad
of_upload_intact = refl

of_delete_intact : first_bad hex of_delete ≡ none
unfolding first_bad
of_delete_intact = refl

of_upload_other : of_upload ≢ of_delete
of_upload_other e = cc e

unequal : (t u : Text) → same t u ≡ false → t ≢ u
unequal t u different e = cc (sym ((same_iff t u).1 e) ∙ different)

no_collisions : NoCollisions hex of_upload of_delete
unfolding audit_row_hash
no_collisions = (
  λ e. absurd (unequal _ _ refl e),
  λ e. refl,
  (λ e. absurd (unequal _ _ refl e), λ e. absurd (unequal _ _ refl e), tt),
)

first_bad-inj_example : latest_hash of_upload ≢ latest_hash of_delete
first_bad-inj_example =
    first_bad-inj hex of_upload of_delete hex-IsHex no_collisions of_upload_intact of_delete_intact
      refl of_upload_other

abbrev upload : Upload
upload = record {
  id = 3;
  file_name = codes "a.csv";
  columns = some (codes "n" ∷ codes "m" ∷ []);
  column_types = some (int8 ∷ int8 ∷ []);
  source = (codes "N" ∷ codes "M" ∷ []) ∷ (codes "x" ∷ []) ∷ [];
}

abbrev store : Store
store = record { uploads = upload ∷ []; decisions = []; edits = []; audit = log }

abbrev ctx : Context
ctx = record {
  now = 9;
  actor = some (codes "rita");
  tenant_schema = codes "s";
  audit_id = 2;
  before_value = codes "{}";
  after_value = codes "{}";
}

abbrev opened : Upload × Meta
opened = (
  upload,
  record {
    file_name = codes "a.csv";
    columns = codes "n" ∷ codes "m" ∷ [];
    types = int8 ∷ int8 ∷ [];
    total = 1;
  },
)

abbrev before : View
before = record {
  row_number = 1;
  original = codes "x" ∷ [] ∷ [];
  current = codes "x" ∷ [] ∷ [];
  edited_columns = [];
  decision = codes "include";
  decision_reason = none;
  errors =
      record { column = codes "n"; value = codes "x"; reason = codes "\"x\" is not a whole number" }
      ∷ [];
}

abbrev excluded : View
excluded = record before { decision = codes "exclude"; decision_reason = some (codes "bad") }

abbrev review_entry : Entry
review_entry = record {
  id = 2;
  action = codes "row_decision";
  file_id = none;
  file_name = some (codes "a.csv");
  table_name = none;
  mode = none;
  performed_at = 9;
  actor = some (codes "rita");
  tenant_schema = codes "s";
  before_value = some (codes "{}");
  after_value = some (codes "{}");
}

abbrev decided : Store
decided = record store {
  decisions =
      record {
        upload_id = 3;
        row_number = 1;
        decision = codes "exclude";
        reason = codes "bad";
        actor = some (codes "rita");
        at = 9;
      }
      ∷ [];
  audit = chained digest log review_entry ∷ log;
}

decide_run :
    decide ascii digest ctx 3 1 (codes "exclude") (codes " bad ") store ≡ ok (excluded, decided)
unfolding decide find_upload meta_of strip view_row extra_cells cast_value int_re write_audit
decide_run = refl

decide-IsDecided_example :
    (is_decision (codes "exclude") ≡ true)
    × (strip (codes " bad ") ≢ [])
    × IsDecided 3 1 (codes "exclude") (strip (codes " bad ")) store decided excluded
decide-IsDecided_example =
    decide-IsDecided ascii digest ctx 3 1 (codes "exclude") (codes " bad ") store decided excluded
      decide_run

abbrev repaired : View
repaired = record before { current = codes "7" ∷ [] ∷ []; edited_columns = 0 ∷ []; errors = [] }

abbrev edited : Store
edited = record store {
  edits =
      record {
        upload_id = 3;
        row_number = 1;
        column_index = 0;
        old_value = codes "x";
        new_value = codes "7";
        reason = codes "typo";
        actor = some (codes "rita");
        at = 9;
      }
      ∷ [];
  audit = chained digest log (record review_entry { action = codes "cell_edit" }) ∷ log;
}

edit_run :
    edit ascii digest ctx 3 1 (codes "n") (codes "7") (codes "typo") store ≡ ok (repaired, edited)
unfolding edit find_upload meta_of strip view_row extra_cells cast_value int_re write_audit
edit_run = refl

edit-IsEdited_example :
    (um : Upload × Meta) × (index : ℕ) × (before : View) × (open_upload ascii 3 store ≡ ok um)
    × (column_index ascii um.1.columns (codes "n") ≡ ok index)
    × (ltb index (length um.1.columns) ≡ true)
    × (strip (codes "typo") ≢ [])
    × (one_row ascii store um.0 um.1 1 ≡ ok before)
    × (not (same (codes "7") (get_or before.current index [])) ≡ true)
    × IsEdited 3 1 index (codes "7") store edited before repaired
edit-IsEdited_example =
    edit-IsEdited ascii digest ctx 3 1 (codes "n") (codes "7") (codes "typo") store edited repaired
      edit_run
