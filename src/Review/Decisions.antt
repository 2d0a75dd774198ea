-- ===== src/Review/Decisions.antt =====
-- api/services/review.py: what `decide` changes, and what it leaves.
use postgre_data_migration_a.Prelude.{
  ℕ, suc, true, false, some, [], ◌∷◌, ◌≡◌, ◌≢◌, ap, ◌∙◌, length, Text,
}
use postgre_data_migration_a.Python.{Runtime, strip}
use postgre_data_migration_a.Audit.{Digest}
use postgre_data_migration_a.Review.Rows.{
  Decision, Store, View, decision_of, decision_reason_of, latest_decision,
}
use postgre_data_migration_a.Review.Views.{is_of, latest_decision-own, latest_decision-other}
use postgre_data_migration_a.Review.{
  ok, require, open_upload, is_row, reason_of, is_decision, Context, one_row, add_decision,
  decision_row, decide,
}
use postgre_data_migration_a.Review.Concluded.{
  bind-ok, require-ok, open_upload-ok, reason_of-ok, conclude-IsConcluded,
}

-- What `decide` does to the store and shows of it.
pub record IsDecided (id n : ℕ) (chosen why : Text) (s t : Store) (v : View) : Type 0 where
  uploads : t.uploads ≡ s.uploads
  edits : t.edits ≡ s.edits
  rows : length t.audit ≡ suc (length s.audit)
  decision : v.decision ≡ chosen
  reason : v.decision_reason ≡ some why
  others :
      (i m : ℕ)
      → is_of i m id n ≡ false
      → latest_decision i m t.decisions ≡ latest_decision i m s.decisions

-- A decision that is taken is one of the two, has a reason that is not blank, and stands at once:
-- the row shows it with the stripped reason, the edits and the stored rows stay, the decision of no
-- other row changes, and the audit log has one row more.
pub decide-IsDecided :
    (rt : Runtime) (digest : Digest) (ctx : Context) (id n : ℕ) (decision reason : Text)
    (s t : Store) (v : View)
    → decide rt digest ctx id n decision reason s ≡ ok (v, t)
    → (is_decision decision ≡ true)
      × (strip reason ≢ [])
      × IsDecided id n decision (strip reason) s t v
unfolding decide
decide-IsDecided rt digest ctx id n decision reason s t v e =
    let (um, opened, e1) = bind-ok (open_upload rt id s) _ e in
    let (_, row, e2) = bind-ok (require (is_row um.1 n) 404) _ e1 in
    let (_, valid, e3) = bind-ok (require (is_decision decision) 422) _ e2 in
    let (why, given, e4) = bind-ok (reason_of reason) _ e3 in
    let (before, seen, e5) = bind-ok (one_row rt s um.0 um.1 n) _ e4 in
    let (here, _, _) = open_upload-ok rt id s opened in
    let (filled, same_why) = reason_of-ok reason given in
    let d : Decision = decision_row ctx id n decision why in
    let c = conclude-IsConcluded rt digest _ (add_decision d s) um n e5 in
    let latest : latest_decision um.0.id n t.decisions ≡ some d =
      ap (λ l. latest_decision um.0.id n l) c.decisions
      ∙ ap (λ i. latest_decision i n (d ∷ s.decisions)) here
      ∙ latest_decision-own d s.decisions in
    (
      require-ok (is_decision decision) 422 valid,
      filled,
      record {
        uploads = c.uploads;
        edits = c.edits;
        rows = c.rows;
        decision = c.shown.decision ∙ ap decision_of latest;
        reason = c.shown.reason ∙ ap decision_reason_of latest ∙ ap some same_why;
        others = λ i m other.
            ap (latest_decision i m) c.decisions ∙ latest_decision-other d s.decisions i m other;
      },
    )
