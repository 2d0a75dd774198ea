-- ===== src/Originals/Kept.antt =====
-- api/services/originals.py: an original that was stored is found again, by the download and by the
-- review of its rows.
use postgre_data_migration_a.Prelude.{
  ℕ, Bool, true, false, Option, none, some, List, ◌∷◌, ◌≡◌, refl, inl, inr, ◌⊎◌, map, ==_refl,
  Bool-cases,
}
use postgre_data_migration_a.Python.{Runtime}
use postgre_data_migration_a.Review.Rows.{Decision, Edit, find_upload, meta_of}
use postgre_data_migration_a.Review.Rows
use postgre_data_migration_a.Review
use postgre_data_migration_a.Audit
use postgre_data_migration_a.Originals.{
  Report, Original, Sent, original_of, store_original, record_upload, find_original, reviewed,
}

-- The original was stored under its id, if the database takes it, and else nothing was.
abbrev pub IsStored :
    (Original → Bool) → Original → List Original → Option ℕ → List Original → Type 0
IsStored takes o old id new =
    ((takes o ≡ false) × (id ≡ none) × (new ≡ old))
    ⊎ ((takes o ≡ true) × (id ≡ some o.id) × (new ≡ o ∷ old))

store_original-IsStored :
    (takes : Original → Bool) (o : Original) (old : List Original)
    → IsStored takes o old (store_original takes o old).0 (store_original takes o old).1
store_original-IsStored takes o old = elim (Bool-cases (takes o)) [
  | inl taken ↦ rw taken (inr (refl, refl, refl))
  | inr refused ↦ rw refused (inl (refl, refl, refl))
]

pub record_upload-IsStored :
    (rt : Runtime) (takes : Original → Bool) (most : ℕ) (sent : Sent) (r : Report) (bytes : List ℕ)
    (old : List Original)
    → IsStored takes
        (original_of rt most sent r bytes)
        old
        (record_upload rt takes most sent r bytes old).0
        (record_upload rt takes most sent r bytes old).1
unfolding record_upload
record_upload-IsStored rt takes most sent r bytes old = store_original-IsStored takes _ old

pub find_original-own : (o : Original) (os : List Original) → find_original o.id (o ∷ os) ≡ some o
unfolding find_original
find_original-own o os = rw (==_refl o.id) refl

pub find_upload-reviewed :
    (o : Original) (os : List Original)
    → find_upload o.id (map reviewed (o ∷ os)) ≡ some (reviewed o)
unfolding find_upload
find_upload-reviewed o os = rw (==_refl o.id) refl

-- What the review reads of the originals.
abbrev pub review_store : List Original → List Decision → List Edit → List Audit.Row → Rows.Store
review_store originals decisions edits log = record {
  uploads = map reviewed originals;
  decisions = decisions;
  edits = edits;
  audit = log;
}

pub open_upload-own :
    (rt : Runtime) (o : Original) (os : List Original) (decisions : List Decision)
    (edits : List Edit) (log : List Audit.Row)
    → Review.open_upload rt o.id (review_store (o ∷ os) decisions edits log)
      ≡ Review.ok (reviewed o, meta_of rt (reviewed o))
unfolding Review.open_upload
open_upload-own rt o os decisions edits log = rw (find_upload-reviewed o os) refl
