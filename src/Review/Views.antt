-- ===== src/Review/Views.antt =====
-- api/services/review.py: the view of a row under a new decision and under a new edit.
use postgre_data_migration_a.Prelude.{
  ℕ, zero, suc, ◌+◌, ◌<◌, Bool, true, false, ◌&&◌, Option, none, some, List, [], ◌∷◌, ◌≡◌, refl, ap,
  subst, inl, inr, arith, length, Text, ◌==◌, ==_iff, ==_refl, Bool-cases, if◌then◌else◌,
}
use postgre_data_migration_a.Python.{Runtime}
use postgre_data_migration_a.Review.Rows.{
  Upload, Decision, Edit, Store, Meta, View, Issue, find_upload, latest_decision, latest_edit,
  or_value, current_cells, edited_from, original_of, decision_of, decision_reason_of, with_issues,
  bare_view, view_row,
}

-- `l[i] = a`.
pub set_at {ℓ} : {A : Type ℓ} → ℕ → A → List A → List A
set_at i a [] = []
set_at zero a (x ∷ xs) = a ∷ xs
set_at (suc i) a (x ∷ xs) = x ∷ set_at i a xs

-- The change is of the row `n` of the upload `id`.
abbrev pub is_of : ℕ → ℕ → ℕ → ℕ → Bool
is_of id n i m = i == id && m == n

pub find_upload-id :
    (id : ℕ) (us : List Upload) {u : Upload} → find_upload id us ≡ some u → u.id ≡ id
unfolding find_upload
find_upload-id id [] e = cc
find_upload-id id (v ∷ us) {u} e = elim (Bool-cases (v.id == id)) [
  | inr passed ↦ find_upload-id id us (rw passed at e)
  | inl here ↦
      let same_some : some v ≡ some u = rw here at e in
      let same_u : v ≡ u = cc same_some in subst (λ w. w.id ≡ id) same_u ((==_iff v.id id).0 here)
]

-- What a view shows, its errors aside.
pub record Shows (s : Store) (id : ℕ) (meta : Meta) (n : ℕ) (raw : List Text) (v : View)
    : Type 0 where
  pub original : v.original ≡ original_of (length meta.columns) raw
  pub current : v.current ≡ current_cells id n s.edits 0 (original_of (length meta.columns) raw)
  pub decision : v.decision ≡ decision_of (latest_decision id n s.decisions)
  pub reason : v.decision_reason ≡ decision_reason_of (latest_decision id n s.decisions)

with_issues_lem :
    (b : View) (o : Option (List Issue)) {v : View}
    → with_issues b o ≡ some v
    → (issues : List Issue) × (record b { errors = issues } ≡ v)
with_issues_lem b none e = cc
with_issues_lem b (some issues) {v} e =
    let same_v : record b { errors = issues } ≡ v = cc e in (issues, same_v)

pub view_row-Shows :
    (rt : Runtime) (s : Store) (id : ℕ) (meta : Meta) (n : ℕ) (raw : List Text) {v : View}
    → view_row rt s id meta n raw ≡ some v
    → Shows s id meta n raw v
unfolding view_row
view_row-Shows rt s id meta n raw {v} e =
    let (issues, same_v) = with_issues_lem (bare_view s id meta n raw) _ e in
    subst (λ w. Shows s id meta n raw w) same_v
      (record { original = refl; current = refl; decision = refl; reason = refl })

module _ (d : Decision) (ds : List Decision) where
  pub latest_decision-own : latest_decision d.upload_id d.row_number (d ∷ ds) ≡ some d
  unfolding latest_decision
  latest_decision-own = rw (==_refl d.upload_id, ==_refl d.row_number)

  pub latest_decision-other :
      (i m : ℕ)
      → is_of i m d.upload_id d.row_number ≡ false
      → latest_decision i m (d ∷ ds) ≡ latest_decision i m ds
  unfolding latest_decision
  latest_decision-other i m other = rw other

module _ (e : Edit) (es : List Edit) where
  latest_edit-own :
      (c : ℕ)
      → latest_edit e.upload_id e.row_number c (e ∷ es) ≡ (
          if e.column_index == c
          then some e.new_value
          else latest_edit e.upload_id e.row_number c es)
  unfolding latest_edit
  latest_edit-own c = rw (==_refl e.upload_id, ==_refl e.row_number)

  latest_edit-other :
      (i m c : ℕ)
      → is_of i m e.upload_id e.row_number ≡ false
      → latest_edit i m c (e ∷ es) ≡ latest_edit i m c es
  unfolding latest_edit
  latest_edit-other i m c other = ground (arith, other)

  -- Columns behind the edited one.
  current_cells_behind :
      (k : ℕ) (original : List Text)
      → e.column_index < k
      → current_cells e.upload_id e.row_number (e ∷ es) k original
        ≡ current_cells e.upload_id e.row_number es k original
  unfolding current_cells
  current_cells_behind k [] lt = refl
  current_cells_behind k (v ∷ original) lt =
      let passed : (e.column_index == k) ≡ false = ground (arith, lt) in
      rw (latest_edit-own k, passed)
        (ap (λ l. or_value (latest_edit e.upload_id e.row_number k es) v ∷ l)
          (current_cells_behind (k + 1) original (omega (arith, lt))))

  pub current_cells-set_at :
      (k i : ℕ) (original : List Text)
      → e.column_index ≡ k + i
      → current_cells e.upload_id e.row_number (e ∷ es) k original
        ≡ set_at i e.new_value (current_cells e.upload_id e.row_number es k original)
  unfolding current_cells set_at
  current_cells-set_at k i [] at = refl
  current_cells-set_at k zero (v ∷ original) at =
      let here : (e.column_index == k) ≡ true = ground (arith, at) in
      rw (latest_edit-own k, here)
        (ap (λ l. e.new_value ∷ l) (current_cells_behind (k + 1) original (omega (arith, at))))
  current_cells-set_at k (suc i) (v ∷ original) at =
      let passed : (e.column_index == k) ≡ false = ground (arith, at) in
      rw (latest_edit-own k, passed)
        (ap (λ l. or_value (latest_edit e.upload_id e.row_number k es) v ∷ l)
          (current_cells-set_at (k + 1) i original (omega (arith, at))))

  pub current_cells-other :
      (j m k : ℕ) (original : List Text)
      → is_of j m e.upload_id e.row_number ≡ false
      → current_cells j m (e ∷ es) k original ≡ current_cells j m es k original
  unfolding current_cells
  current_cells-other j m k [] other = refl
  current_cells-other j m k (v ∷ original) other = rw (latest_edit-other j m k other) (
      ap (λ l. or_value (latest_edit j m k es) v ∷ l)
        (current_cells-other j m (k + 1) original other))

  pub edited_from-other :
      (j m k width : ℕ)
      → is_of j m e.upload_id e.row_number ≡ false
      → edited_from j m (e ∷ es) k width ≡ edited_from j m es k width
  unfolding edited_from
  edited_from-other j m k zero other = refl
  edited_from-other j m k (suc width) other =
      rw (latest_edit-other j m k other, edited_from-other j m (k + 1) width other)
