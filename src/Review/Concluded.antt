-- ===== src/Review/Concluded.antt =====
-- api/services/review.py: what a chain of checks that ends well says of its steps.
use postgre_data_migration_a.Prelude.{
  ℕ, suc, ◌+◌, Bool, true, false, Option, none, some, List, [], ◌≡◌, ◌≢◌, refl, sym, ap, ◌∙◌, subst,
  inl, inr, arith, length, Text, same, Bool-cases,
}
use postgre_data_migration_a.Python.{Runtime, strip}
use postgre_data_migration_a.Audit.{Digest, Entry, write_audit}
use postgre_data_migration_a.Audit.Chain.{first_bad-write_audit}
use postgre_data_migration_a.Review.Rows.{
  Upload, Store, Meta, View, find_upload, meta_of, source_row, view_row,
}
use postgre_data_migration_a.Review.Views.{find_upload-id, Shows, view_row-Shows}
use postgre_data_migration_a.Review.{
  Answer, ok, refused, crashed, ◌>>=◌, or_refuse, or_crash, require, open_upload, reason_of,
  one_row, audited, conclude,
}

pub bind-ok {ℓ κ} :
    {A : Type ℓ} {B : Type κ} (m : Answer A) (f : A → Answer B) {b : B}
    → (m >>= f) ≡ ok b
    → (a : A) × (m ≡ ok a) × (f a ≡ ok b)
bind-ok (ok a) f e = (a, refl, e)
bind-ok (refused status) f e = cc
bind-ok crashed f e = cc

pub or_refuse-ok {ℓ} :
    {A : Type ℓ} (status : ℕ) (o : Option A) {a : A} → or_refuse status o ≡ ok a → o ≡ some a
or_refuse-ok status none e = cc
or_refuse-ok status (some b) e = cc

pub or_crash-ok {ℓ} : {A : Type ℓ} (o : Option A) {a : A} → or_crash o ≡ ok a → o ≡ some a
or_crash-ok none e = cc
or_crash-ok (some b) e = cc

pub require-ok : (b : Bool) (status : ℕ) {u : Unit {0}} → require b status ≡ ok u → b ≡ true
require-ok true status e = refl
require-ok false status e = cc

pub open_upload-ok :
    (rt : Runtime) (id : ℕ) (s : Store) {um : Upload × Meta}
    → open_upload rt id s ≡ ok um
    → (um.0.id ≡ id) × (find_upload id s.uploads ≡ some um.0) × (um.1 ≡ meta_of rt um.0)
unfolding open_upload
open_upload-ok rt id s {um} e =
    let (u, found, same_um) = bind-ok (or_refuse 404 (find_upload id s.uploads)) _ e in
    let here = or_refuse-ok 404 (find_upload id s.uploads) found in
    let pair : (u, meta_of rt u) ≡ um = cc same_um in
    let same_u : u ≡ um.0 = ap (λ p. p.0) pair in
    (
      ap (λ v. v.id) (sym same_u) ∙ find_upload-id id s.uploads here,
      here ∙ ap some same_u,
      sym (ap (λ p. p.1) pair) ∙ ap (meta_of rt) same_u,
    )

pub one_row-Shows :
    (rt : Runtime) (s : Store) (u : Upload) (meta : Meta) (n : ℕ) {v : View}
    → one_row rt s u meta n ≡ ok v
    → (raw : List Text) × (source_row u n ≡ some raw) × Shows s u.id meta n raw v
one_row-Shows rt s u meta n {v} e =
    let (raw, found, seen) = bind-ok (or_crash (source_row u n)) _ e in
    (
      raw,
      or_crash-ok (source_row u n) found,
      view_row-Shows rt s u.id meta n raw (or_crash-ok (view_row rt s u.id meta n raw) seen),
    )

-- The rest of the store, and the audit log with one more row and no new bad one.
audited-ok :
    (digest : Digest) (x : Entry) (s : Store) {t : Store}
    → audited digest x s ≡ ok t
    → (t.uploads ≡ s.uploads)
      × (t.decisions ≡ s.decisions)
      × (t.edits ≡ s.edits)
      × (write_audit digest x s.audit ≡ some t.audit)
audited-ok digest x s {t} e =
    let (log, written, same_ok) = bind-ok (or_crash (write_audit digest x s.audit)) _ e in
    let same_t : record s { audit = log } ≡ t = cc same_ok in
    (
      ap (λ r. r.uploads) (sym same_t),
      ap (λ r. r.decisions) (sym same_t),
      ap (λ r. r.edits) (sym same_t),
      or_crash-ok (write_audit digest x s.audit) written ∙ ap (λ r. some r.audit) same_t,
    )

pub reason_of-ok :
    (reason : Text) {why : Text}
    → reason_of reason ≡ ok why
    → (strip reason ≢ []) × (why ≡ strip reason)
unfolding reason_of
reason_of-ok reason {why} e = elim (Bool-cases (same (strip reason) [])) [
  | inl blank ↦ cc (rw blank at e)
  | inr filled ↦
      let same_ok : ok (strip reason) ≡ ok why = rw filled at e in
      let same_why : strip reason ≡ why = cc same_ok in
      ((λ nil. cc (subst (λ r. same r [] ≡ false) nil filled)), sym same_why)
]

-- What `conclude` leaves of the changed store and shows of it.
pub record IsConcluded (changed : Store) (u : Upload) (meta : Meta) (n : ℕ) (v : View) (t : Store)
    : Type 0 where
  pub uploads : t.uploads ≡ changed.uploads
  pub decisions : t.decisions ≡ changed.decisions
  pub edits : t.edits ≡ changed.edits
  pub rows : length t.audit ≡ suc (length changed.audit)
  pub raw : List Text
  pub source : source_row u n ≡ some raw
  pub shown : Shows t u.id meta n raw v

pub conclude-IsConcluded :
    (rt : Runtime) (digest : Digest) (x : Entry) (changed : Store) (um : Upload × Meta) (n : ℕ)
    {v : View} {t : Store}
    → conclude rt digest x changed um n ≡ ok (v, t)
    → IsConcluded changed um.0 um.1 n v t
unfolding conclude
conclude-IsConcluded rt digest x changed um n {v} {t} e =
    let (done, written, e') = bind-ok (audited digest x changed) _ e in
    let (after, seen, e'') = bind-ok (one_row rt done um.0 um.1 n) _ e' in
    let pair : ok (after, done) ≡ ok (v, t) = e'' in
    let same_v : after ≡ v = cc pair in
    let same_t : done ≡ t = cc pair in
    let (uploads, decisions, edits, log) = audited-ok digest x changed written in
    let (raw, source, shown) = one_row-Shows rt done um.0 um.1 n seen in
    subst (λ w. IsConcluded changed um.0 um.1 n w t) same_v
      (subst (λ r. IsConcluded changed um.0 um.1 n after r) same_t
        (record {
          uploads = uploads;
          decisions = decisions;
          edits = edits;
          rows = (first_bad-write_audit digest x changed.audit done.audit log).1;
          raw = raw;
          source = source;
          shown = shown;
        }))

pub source_row-inj :
    (u : Upload) (n : ℕ) {raw other : List Text}
    → source_row u n ≡ some raw
    → source_row u n ≡ some other
    → raw ≡ other
source_row-inj u n {raw} {other} e f =
    let same_row : some raw ≡ some other = sym e ∙ f in cc same_row

pub zero_add : (n : ℕ) → n ≡ 0 + n
zero_add n = omega arith
