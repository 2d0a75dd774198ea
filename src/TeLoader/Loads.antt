-- ===== src/TeLoader/Loads.antt =====
-- api/services/te_loader.py: the counters and the rows behind the loop of the INSERTs.
use postgre_data_migration_a.Prelude.{
  ℕ, zero, suc, ◌+◌, ◌≤◌, ◌<◌, Option, none, some, List, [], ◌∷◌, ◌++◌, ◌≡◌, ap, ◌∙◌, subst, inl,
  inr, arith, length, length-take, length-append, length-drop, take, drop, min, Text, Bool-cases,
  append_assoc,
}
use postgre_data_migration_a.Python.{Runtime}
use postgre_data_migration_a.CsvParse.Types.{ColType}
use postgre_data_migration_a.CsvParse.Ragged.{extra_cells, length-report}
use postgre_data_migration_a.DynamicLoader.Rows.{Cells, done, failed, raises}
use postgre_data_migration_a.TeLoader.Rows.{
  Casting, settle, check_extra, cast_row, cast_cells, cast_rows,
}
use postgre_data_migration_a.TeLoader.Insert.{
  TeRow, TeServer, Loading, settle_row, insert_each, insert_chunk, insert_chunks,
}

-- Behind `n` rows each is kept or failed, and the error list is cut off at its limit.
pub record IsCast (most n : ℕ) (s : Casting) : Type 0 where
  pub rows : length s.to_insert + s.failed_row_count ≡ n
  pub errors : length s.row_errors ≡ min s.failed_row_count most

abbrev pub Ends : (Casting → Type 0) → Option Casting → Type 0
Ends p none = Unit
Ends p (some s) = p s

module _ (most n : ℕ) (s : Casting) (h : IsCast most n s) where
  settle-IsCast : (c : Cells) → Ends (IsCast most (n + 1)) (settle most s (n + 1) c)
  settle-IsCast (done values cells) = record {
    rows = omega (arith, length-append s.to_insert (values ∷ []), h.rows);
    errors = h.errors;
  }
  settle-IsCast (failed column value reason) = record {
    rows = omega (arith, h.rows);
    errors = length-report most s.failed_row_count s.row_errors _ h.errors;
  }
  settle-IsCast raises = tt

  check_extra-IsCast :
      (reason : Text) (extra : List Text) (c : Cells)
      → Ends (IsCast most (n + 1)) (check_extra most s (n + 1) reason extra c)
  check_extra-IsCast reason [] c = settle-IsCast c
  check_extra-IsCast reason (e ∷ extra) c = record {
    rows = omega (arith, h.rows);
    errors = length-report most s.failed_row_count s.row_errors _ h.errors;
  }

then-Ends :
    (P Q : Casting → Type 0) (m : Option Casting) (f : Casting → Option Casting)
    → Ends P m
    → ((s : Casting) → P s → Ends Q (f s))
    → Ends Q (elim m as (λ _. Option Casting) [ none ↦ none | some s ↦ f s ])
then-Ends P Q none f h k = tt
then-Ends P Q (some s) f h k = k s h

pub cast_rows-IsCast :
    (rt : Runtime) (most n : ℕ) (s : Casting) (columns : List Text) (types : List (Option ColType))
    (rows : List (List Text))
    → IsCast most n s
    → Ends (IsCast most (n + length rows)) (cast_rows rt most columns types s (n + 1) rows)
unfolding cast_rows cast_row
cast_rows-IsCast rt most n s columns types [] h = subst (λ k. IsCast most k s) (omega arith) h
cast_rows-IsCast rt most n s columns types (raw ∷ rows) h =
    then-Ends (IsCast most (n + 1)) _ (cast_row rt most columns types s (n + 1) raw) _
      (check_extra-IsCast most n s h _ (extra_cells raw (length columns))
        (cast_cells rt columns types raw))
      (λ s' h'.
        subst (λ k. Ends (IsCast most k) (cast_rows rt most columns types s' (n + 1 + 1) rows))
          (omega arith) (cast_rows-IsCast rt most (n + 1) s' columns types rows h'))

-- Behind the INSERTs the table has the old rows and as many more as were counted.
pub record IsLoaded (most total : ℕ) (old : List TeRow) (l : Loading) : Type 0 where
  pub added : (new : List TeRow) × (l.stored ≡ old ++ new) × (length new ≡ l.inserted)
  pub rows : l.inserted + l.failed_row_count ≡ total
  pub errors : length l.row_errors ≡ min l.failed_row_count most

module _ (server : TeServer) (most : ℕ) (old : List TeRow) where
  settle_row-IsLoaded :
      (total n : ℕ) (s : Loading) (r : TeRow) (o : Option Text)
      → IsLoaded most total old s
      → IsLoaded most (total + 1) old (settle_row most s n r o)
  settle_row-IsLoaded total n s r none h =
      let (new, e, k) = h.added in
      record {
        added = (
          new ++ r ∷ [],
          ap (λ l. l ++ r ∷ []) e ∙ append_assoc old new (r ∷ []),
          omega (arith, length-append new (r ∷ []), k),
        );
        rows = omega (arith, h.rows);
        errors = h.errors;
      }
  settle_row-IsLoaded total n s r (some reason) h = record {
    added = h.added;
    rows = omega (arith, h.rows);
    errors = length-report most s.failed_row_count s.row_errors _ h.errors;
  }

  insert_each-IsLoaded :
      (total n : ℕ) (s : Loading) (rows : List TeRow)
      → IsLoaded most total old s
      → IsLoaded most (total + length rows) old (insert_each server most s n rows)
  unfolding insert_each
  insert_each-IsLoaded total n s [] h = subst (λ k. IsLoaded most k old s) (omega arith) h
  insert_each-IsLoaded total n s (r ∷ rows) h =
      subst
        (λ k. IsLoaded most k old (
          insert_each server most (settle_row most s (n + 1) r (server.refuses s.stored r)) (n + 1)
            rows))
        (omega arith)
        (insert_each-IsLoaded (total + 1) (n + 1) _ rows
          (settle_row-IsLoaded total (n + 1) s r (server.refuses s.stored r) h))

  insert_chunk-IsLoaded :
      (total n : ℕ) (s : Loading) (rows : List TeRow)
      → IsLoaded most total old s
      → IsLoaded most (total + length rows) old (insert_chunk server most s n rows)
  unfolding insert_chunk
  insert_chunk-IsLoaded total n s rows h = elim (Bool-cases (server.takes_all s.stored rows)) [
    | inr part ↦ rw part (insert_each-IsLoaded total n s rows h)
    | inl whole ↦
        let (new, e, k) = h.added in
        rw whole (record {
          added = (
            new ++ rows,
            ap (λ l. l ++ rows) e ∙ append_assoc old new rows,
            omega (arith, length-append new rows, k),
          );
          rows = omega (arith, h.rows);
          errors = h.errors;
        })
  ]

  pub insert_chunks-IsLoaded :
      (size fuel total n : ℕ) (s : Loading) (rows : List TeRow)
      → 0 < size
      → length rows ≤ fuel
      → IsLoaded most total old s
      → IsLoaded most (total + length rows) old (insert_chunks server most size fuel s n rows)
  unfolding insert_chunks
  insert_chunks-IsLoaded size fuel total n s [] pos enough h =
      subst (λ k. IsLoaded most k old s) (omega arith) h
  insert_chunks-IsLoaded size zero total n s (r ∷ rows) pos enough h =
      absurd (omega (arith, enough))
  insert_chunks-IsLoaded size (suc fuel) total n s (r ∷ rows) pos enough h =
      let rest = drop size (r ∷ rows) in
      subst
        (λ k. IsLoaded most k old (
          insert_chunks server most size fuel (insert_chunk server most s n (take size (r ∷ rows)))
            (n + size) rest))
        (omega (arith, length-take size (r ∷ rows), length-drop size (r ∷ rows)))
        (insert_chunks-IsLoaded size fuel _ (n + size) _ rest pos
          (omega (arith, length-drop size (r ∷ rows), pos, enough))
          (insert_chunk-IsLoaded total n s (take size (r ∷ rows)) h))
