-- ===== src/Review.antt =====
-- api/services/review.py, and `_run` of api/routers/review_routes.py: the rows of a stored upload
-- with their decisions and edits. Decisions and edits are listed from the newest on.
pub mod Rows
pub mod Views
pub mod Concluded
pub mod Decisions
pub mod Edits
pub mod History
use postgre_data_migration_a.Prelude.{
  ℕ, suc, ◌+◌, ◌-◌, ◌*◌, min, max, Bool, true, false, ◌&&◌, ◌||◌, not, Option, none, some, List, [],
  ◌∷◌, ◌++◌, length, take, drop, all, get_or, Text, codes, same, ltb, leb, ◌==◌, if◌then◌else◌,
}
use postgre_data_migration_a.Python.{Runtime, strip}
use postgre_data_migration_a.CsvParse.Cast.{ℤ, pos, negsuc}
use postgre_data_migration_a.CsvParse.Types.{ColType}
use postgre_data_migration_a.Audit.{Digest, Entry, write_audit}
use postgre_data_migration_a.Review.Rows.{
  Upload, Decision, Edit, Store, Meta, View, find_upload, meta_of, source_row, view_row, view_rows,
}

-- A result, a ReviewError with its status, or another exception.
pub data Answer {ℓ} (A : Type ℓ) : Type ℓ where
  ok : A → Answer A
  refused : ℕ → Answer A
  crashed : Answer A

infixl 5 ◌>>=◌
abbrev pub ◌>>=◌ {ℓ κ} : {A : Type ℓ} {B : Type κ} → Answer A → (A → Answer B) → Answer B
ok a >>= f = f a
refused status >>= f = refused status
crashed >>= f = crashed

abbrev pub or_refuse {ℓ} : {A : Type ℓ} → ℕ → Option A → Answer A
or_refuse status none = refused status
or_refuse status (some a) = ok a

abbrev pub or_crash {ℓ} : {A : Type ℓ} → Option A → Answer A
or_crash none = crashed
or_crash (some a) = ok a

abbrev pub require : Bool → ℕ → Answer (Unit {0})
require true status = ok tt
require false status = refused status

-- `_upload`.
unfoldable pub open_upload : Runtime → ℕ → Store → Answer (Upload × Meta)
open_upload rt id s = do u ← or_refuse 404 (find_upload id s.uploads); ok (u, meta_of rt u)

-- `_check_row`.
abbrev pub is_row : Meta → ℕ → Bool
is_row meta n = leb 1 n && leb n meta.total

-- `_reason`.
unfoldable pub reason_of : Text → Answer Text
reason_of reason = if same (strip reason) [] then refused 422 else ok (strip reason)

abbrev pub decisions : List Text
decisions = codes "include" ∷ codes "exclude" ∷ []

abbrev pub is_decision : Text → Bool
is_decision d = same d (codes "include") || same d (codes "exclude")

-- Who acts and when, and the texts of the JSON values of the audit row.
pub record Context : Type 0 where
  pub now : ℕ
  pub actor : Option Text
  pub tenant_schema : Text
  pub audit_id : ℕ
  pub before_value : Text
  pub after_value : Text

abbrev pub entry_of : Context → Text → Meta → Entry
entry_of ctx action meta = record {
  id = ctx.audit_id;
  action = action;
  file_id = none;
  file_name = some meta.file_name;
  table_name = none;
  mode = none;
  performed_at = ctx.now;
  actor = ctx.actor;
  tenant_schema = ctx.tenant_schema;
  before_value = some ctx.before_value;
  after_value = some ctx.after_value;
}

-- `[before] = _rows(…, numbers=[row_number])`.
abbrev pub one_row : Runtime → Store → Upload → Meta → ℕ → Answer View
one_row rt s u meta n = do raw ← or_crash (source_row u n); or_crash (view_row rt s u.id meta n raw)

abbrev pub decision_row : Context → ℕ → ℕ → Text → Text → Decision
decision_row ctx upload_id n decision why = record {
  upload_id = upload_id;
  row_number = n;
  decision = decision;
  reason = why;
  actor = ctx.actor;
  at = ctx.now;
}

abbrev pub edit_row : Context → ℕ → ℕ → ℕ → Text → Text → Text → Edit
edit_row ctx upload_id n index old value why = record {
  upload_id = upload_id;
  row_number = n;
  column_index = index;
  old_value = old;
  new_value = value;
  reason = why;
  actor = ctx.actor;
  at = ctx.now;
}

abbrev pub add_decision : Decision → Store → Store
add_decision d s = record s { decisions = d ∷ s.decisions }

abbrev pub add_edit : Edit → Store → Store
add_edit e s = record s { edits = e ∷ s.edits }

-- `write_audit` in the same transaction.
abbrev pub audited : Digest → Entry → Store → Answer Store
audited digest e s = do log ← or_crash (write_audit digest e s.audit); ok (record s { audit = log })

-- The INSERT is in `changed`; the audit row, then `[after] = _rows(…)`.
unfoldable pub conclude :
    Runtime → Digest → Entry → Store → Upload × Meta → ℕ → Answer (View × Store)
conclude rt digest x changed um n = do
  done ← audited digest x changed
  after ← one_row rt done um.0 um.1 n
  ok (after, done)

-- `decide`, with the store behind it.
unfoldable pub decide :
    Runtime → Digest → Context → ℕ → ℕ → Text → Text → Store → Answer (View × Store)
unfolding open_upload reason_of conclude
decide rt digest ctx upload_id n decision reason s = do
  um ← open_upload rt upload_id s
  _ ← require (is_row um.1 n) 404
  _ ← require (is_decision decision) 422
  why ← reason_of reason
  before ← one_row rt s um.0 um.1 n
  conclude rt digest (entry_of ctx (codes "row_decision") um.1)
      (add_decision (decision_row ctx upload_id n decision why) s) um n

-- `names.index(column)`, from index `i` on.
unfoldable pub index_of : Text → ℕ → List Text → Option ℕ
index_of column i [] = none
index_of column i (name ∷ names) =
    let rest = index_of column (i + 1) names in if same name column then some i else rest

abbrev pub decimal_value : Runtime → ℕ → Text → Option ℕ
decimal_value rt acc [] = some acc
decimal_value rt acc (c ∷ s) = elim (rt.decimal c) as (λ _. Option ℕ) [
  | none ↦ none
  | some d ↦ decimal_value rt (acc * 10 + d) s
]

-- `int(column)`: a ValueError for digits that are no decimals, and for too many of them.
abbrev pub int_of : Runtime → Text → Option ℕ
int_of rt column = if leb (length column) rt.int_limit then decimal_value rt 0 column else none

abbrev pub is_digits : Runtime → Text → Bool
is_digits rt [] = false
is_digits rt (c ∷ s) = all rt.is_digit (c ∷ s)

unfoldable pub column_index : Runtime → List Text → Text → Answer ℕ
unfolding index_of
column_index rt names column =
    if is_digits rt column
    then or_crash (int_of rt column)
    else or_refuse 404 (index_of column 0 names)

-- `edit`, with the store behind it.
unfoldable pub edit :
    Runtime → Digest → Context → ℕ → ℕ → Text → Text → Text → Store → Answer (View × Store)
unfolding open_upload reason_of column_index conclude
edit rt digest ctx upload_id n column value reason s = do
  um ← open_upload rt upload_id s
  _ ← require (is_row um.1 n) 404
  index ← column_index rt um.1.columns column
  _ ← require (ltb index (length um.1.columns)) 404
  why ← reason_of reason
  before ← one_row rt s um.0 um.1 n
  _ ← require (not (same value (get_or before.current index []))) 422
  conclude rt digest (entry_of ctx (codes "cell_edit") um.1)
      (add_edit (edit_row ctx upload_id n index (get_or before.current index []) value why) s) um n

-- `_run`: a commit, or the rollback on any exception. An answer that is not `ok` has no store: what
-- was written for it is never committed.
abbrev pub run : Store → Answer (View × Store) → Answer View × Store
run old (ok r) = (ok r.0, r.1)
run old (refused status) = (refused status, old)
run old crashed = (crashed, old)

abbrev pub max_page : ℕ
max_page = 500

-- `max(0, offset)` and `max(1, min(limit, MAX_PAGE))`.
abbrev pub clamp_offset : ℤ → ℕ
clamp_offset (pos n) = n
clamp_offset (negsuc n) = 0

abbrev pub clamp_limit : ℤ → ℕ
clamp_limit (pos n) = max 1 (min n max_page)
clamp_limit (negsuc n) = 1

abbrev pub has_number : ℕ → List ℕ → Bool
has_number n [] = false
has_number n (m ∷ ms) = n == m || has_number n ms

-- `DISTINCT ON (row_number) … ORDER BY row_number, id DESC`, then the excluded ones.
unfoldable pub count_excluded : ℕ → List ℕ → List Decision → ℕ
count_excluded id seen [] = 0
count_excluded id seen (d ∷ ds) =
    let skipped = count_excluded id seen ds in
    let rest = count_excluded id (d.row_number ∷ seen) ds in
    if not (d.upload_id == id) || has_number d.row_number seen
    then skipped
    else if same d.decision (codes "exclude")
    then rest + 1
    else rest

-- `count(DISTINCT row_number)`.
unfoldable pub count_edited : ℕ → List ℕ → List Edit → ℕ
count_edited id seen [] = 0
count_edited id seen (e ∷ es) =
    let skipped = count_edited id seen es in
    let rest = count_edited id (e.row_number ∷ seen) es in
    if not (e.upload_id == id) || has_number e.row_number seen then skipped else rest + 1

pub record Page : Type 0 where
  pub meta : Meta
  pub offset : ℕ
  pub limit : ℕ
  pub excluded_rows : ℕ
  pub edited_rows : ℕ
  pub rows : List View

unfoldable pub page : Runtime → ℕ → ℤ → ℤ → Store → Answer Page
unfolding open_upload count_excluded count_edited
page rt id offset limit s = do
  um ← open_upload rt id s
  views ← or_crash (
      view_rows rt s id um.1 (clamp_offset offset + 1)
        (take (clamp_limit limit) (drop (clamp_offset offset) (drop 1 um.0.source))))
  ok (record {
    meta = um.1;
    offset = clamp_offset offset;
    limit = clamp_limit limit;
    excluded_rows = count_excluded id [] s.decisions;
    edited_rows = count_edited id [] s.edits;
    rows = views;
  })
