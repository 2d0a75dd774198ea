-- ===== src/Review/Edits.antt =====
-- api/services/review.py: what `edit` changes, and what it leaves.
use postgre_data_migration_a.Prelude.{
  ℕ, suc, true, false, not, List, [], ◌∷◌, ◌≡◌, ◌≢◌, sym, ap, ◌∙◌, length, get_or, Text, same, ltb,
}
use postgre_data_migration_a.Python.{Runtime, strip}
use postgre_data_migration_a.Audit.{Digest}
use postgre_data_migration_a.Review.Rows.{
  Upload, Edit, Store, Meta, View, original_of, decision_of, latest_decision, current_cells,
}
use postgre_data_migration_a.Review.Views.{set_at, is_of, current_cells-set_at, current_cells-other}
use postgre_data_migration_a.Review.{
  ok, require, open_upload, is_row, reason_of, Context, one_row, add_edit, edit_row, column_index,
  edit,
}
use postgre_data_migration_a.Review.Concluded.{
  bind-ok, require-ok, open_upload-ok, one_row-Shows, reason_of-ok, conclude-IsConcluded,
  source_row-inj, zero_add,
}

-- What `edit` does to the store and shows of it, against the view of the row before.
pub record IsEdited (id n index : ℕ) (value : Text) (s t : Store) (before v : View) : Type 0 where
  uploads : t.uploads ≡ s.uploads
  decisions : t.decisions ≡ s.decisions
  rows : length t.audit ≡ suc (length s.audit)
  original : v.original ≡ before.original
  current : v.current ≡ set_at index value before.current
  decision : v.decision ≡ before.decision
  others :
      (i m k : ℕ) (original : List Text)
      → is_of i m id n ≡ false
      → current_cells i m t.edits k original ≡ current_cells i m s.edits k original

-- An edit that is taken names a column of the header, has a reason that is not blank and a value
-- that is not the current one, and stands at once: the row shows the value in that cell and else
-- what it showed before, its original included; the decisions and the stored rows stay, no cell of
-- another row changes, and the audit log has one row more.
pub edit-IsEdited :
    (rt : Runtime) (digest : Digest) (ctx : Context) (id n : ℕ) (column value reason : Text)
    (s t : Store) (v : View)
    → edit rt digest ctx id n column value reason s ≡ ok (v, t)
    → (um : Upload × Meta) × (index : ℕ) × (before : View) × (open_upload rt id s ≡ ok um)
      × (column_index rt um.1.columns column ≡ ok index)
      × (ltb index (length um.1.columns) ≡ true)
      × (strip reason ≢ [])
      × (one_row rt s um.0 um.1 n ≡ ok before)
      × (not (same value (get_or before.current index [])) ≡ true)
      × IsEdited id n index value s t before v
unfolding edit
edit-IsEdited rt digest ctx id n column value reason s t v e =
    let (um, opened, e1) = bind-ok (open_upload rt id s) _ e in
    let (_, row, e2) = bind-ok (require (is_row um.1 n) 404) _ e1 in
    let (index, named, e3) = bind-ok (column_index rt um.1.columns column) _ e2 in
    let (_, inside, e4) = bind-ok (require (ltb index (length um.1.columns)) 404) _ e3 in
    let (why, given, e5) = bind-ok (reason_of reason) _ e4 in
    let (before, seen, e6) = bind-ok (one_row rt s um.0 um.1 n) _ e5 in
    let (_, new, e7) =
      bind-ok (require (not (same value (get_or before.current index []))) 422) _ e6 in
    let (here, _, _) = open_upload-ok rt id s opened in
    let (filled, _) = reason_of-ok reason given in
    let x : Edit = edit_row ctx id n index (get_or before.current index []) value why in
    let c = conclude-IsConcluded rt digest _ (add_edit x s) um n e7 in
    let (raw, source, shown) = one_row-Shows rt s um.0 um.1 n seen in
    let same_raw : raw ≡ c.raw = source_row-inj um.0 n source c.source in
    let width = length um.1.columns in
    let was : before.current ≡ current_cells id n s.edits 0 (original_of width c.raw) =
      shown.current
      ∙ ap (λ i. current_cells i n s.edits 0 (original_of width raw)) here
      ∙ ap (λ r. current_cells id n s.edits 0 (original_of width r)) same_raw in
    (
      um,
      index,
      before,
      opened,
      named,
      require-ok (ltb index width) 404 inside,
      filled,
      seen,
      require-ok (not (same value (get_or before.current index []))) 422 new,
      record {
        uploads = c.uploads;
        decisions = c.decisions;
        rows = c.rows;
        original = c.shown.original ∙ ap (original_of width) (sym same_raw) ∙ sym shown.original;
        current =
            c.shown.current
            ∙ ap (λ l. current_cells um.0.id n l 0 (original_of width c.raw)) c.edits
            ∙ ap (λ i. current_cells i n (x ∷ s.edits) 0 (original_of width c.raw)) here
            ∙ current_cells-set_at x s.edits 0 index (original_of width c.raw) (zero_add index)
            ∙ ap (set_at index value) (sym was);
        decision =
            c.shown.decision
            ∙ ap (λ l. decision_of (latest_decision um.0.id n l)) c.decisions
            ∙ sym shown.decision;
        others = λ i m k original other.
            ap (λ l. current_cells i m l k original) c.edits
            ∙ current_cells-other x s.edits i m k original other;
      },
    )
