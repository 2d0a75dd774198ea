-- ===== src/Review/History.antt =====
-- `history` of api/services/review.py.
use postgre_data_migration_a.Prelude.{
  ℕ, ◌&&◌, Option, List, [], ◌∷◌, ◌++◌, reverse, get_or, Text, leb, ◌==◌, if◌then◌else◌,
}
use postgre_data_migration_a.Python.{Runtime}
use postgre_data_migration_a.Review.Rows.{Decision, Edit, Store, Meta}
use postgre_data_migration_a.Review.{Answer, ok, ◌>>=◌, require, open_upload, is_row}

pub data Happened : Type 0 where
  decided : Text → Happened
  edited : Text → Text → Text → Happened

pub record Event : Type 0 where
  pub at : ℕ
  pub actor : Option Text
  pub reason : Text
  pub what : Happened

abbrev pub event_of_decision : Decision → Event
event_of_decision d = record {
  at = d.at;
  actor = d.actor;
  reason = d.reason;
  what = decided d.decision;
}

abbrev pub event_of_edit : Meta → Edit → Event
event_of_edit meta e = record {
  at = e.at;
  actor = e.actor;
  reason = e.reason;
  what = edited (get_or meta.columns e.column_index []) e.old_value e.new_value;
}

-- `WHERE upload_id = %s AND row_number = %s`.
unfoldable pub decisions_of : ℕ → ℕ → List Decision → List Event
decisions_of id n [] = []
decisions_of id n (d ∷ ds) =
    let rest = decisions_of id n ds in
    if d.upload_id == id && d.row_number == n then event_of_decision d ∷ rest else rest

unfoldable pub edits_of : ℕ → ℕ → Meta → List Edit → List Event
edits_of id n meta [] = []
edits_of id n meta (e ∷ es) =
    let rest = edits_of id n meta es in
    if e.upload_id == id && e.row_number == n then event_of_edit meta e ∷ rest else rest

-- `ORDER BY 2`: events of one time in the order of the two SELECTs.
unfoldable pub insert_event : Event → List Event → List Event
insert_event x [] = x ∷ []
insert_event x (y ∷ ys) =
    let rest = insert_event x ys in if leb x.at y.at then x ∷ y ∷ ys else y ∷ rest

unfoldable pub sort_events : List Event → List Event
unfolding insert_event
sort_events [] = []
sort_events (x ∷ xs) = insert_event x (sort_events xs)

unfoldable pub history : Runtime → ℕ → ℕ → Store → Answer (List Event)
unfolding open_upload decisions_of edits_of sort_events
history rt id n s = do
  um ← open_upload rt id s
  _ ← require (is_row um.1 n) 404
  ok (sort_events (reverse (decisions_of id n s.decisions) ++ reverse (edits_of id n um.1 s.edits)))
