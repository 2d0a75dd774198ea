-- ===== src/DynamicLoader/Rows/Accounting.antt =====
-- api/services/dynamic_loader.py: the counters, the hashes and the widths in the cast loop.
use mathlib.Core.List.{map-append, reverse-append}
use postgre_data_migration_a.Prelude.{
  ℕ, suc, ◌+◌, true, Option, none, some, List, [], ◌∷◌, ◌≡◌, refl, ap, inl, inr, arith, map,
  reverse, length, length-append, All, All-append, Text, member, distinct, Bool-cases, min, subst,
}
use postgre_data_migration_a.Python.{Runtime}
use postgre_data_migration_a.CsvParse.Types.{ColType}
use postgre_data_migration_a.CsvParse.Cast.{Value, Cast, ok, bad, raised, cast_value}
use postgre_data_migration_a.CsvParse.Ragged.{RowError, extra_cells, length-report}
use postgre_data_migration_a.DynamicLoader.Rows.{
  Cells, done, failed, raises, Casting, ◌>>=◌, put_cell, add_cell, first_cell, rest_cells,
  check_extra, fail_row, keep_row, settle, cast_cells, cast_row, cast_rows, casting, join_cells,
}

-- The state of the loop behind `n` rows, with at most `most` errors reported and `width` columns.
pub record IsAccounted (most width n : ℕ) (s : Casting) : Type 0 where
  pub rows : length s.to_insert + s.failed_row_count + s.duplicates ≡ n
  pub errors : length s.row_errors ≡ min s.failed_row_count most
  pub hashes : distinct s.seen ≡ true
  pub inserted : reverse (map (λ r. r.row_hash) s.to_insert) ≡ s.seen
  pub widths : All (λ r. length r.values ≡ width) s.to_insert

IsAccounted-casting : (most width : ℕ) → IsAccounted most width 0 casting
IsAccounted-casting most width = record {
  rows = refl;
  errors = omega arith;
  hashes = refl;
  inserted = refl;
  widths = tt;
}

module _ (most width n : ℕ) (s : Casting) (h : IsAccounted most width n s) where
  fail_row-IsAccounted : (e : RowError) → IsAccounted most width (n + 1) (fail_row most s e)
  fail_row-IsAccounted e = record {
    rows = omega (arith, h.rows);
    errors = length-report most s.failed_row_count s.row_errors e h.errors;
    hashes = h.hashes;
    inserted = h.inserted;
    widths = h.widths;
  }

  keep_row-IsAccounted :
      (values : List Value) (hash : Text)
      → length values ≡ width
      → IsAccounted most width (n + 1) (keep_row s values hash)
  unfolding keep_row
  keep_row-IsAccounted values hash w = elim (Bool-cases (member hash s.seen)) [
    | inl old ↦ rw old (record {
      rows = omega (arith, h.rows);
      errors = h.errors;
      hashes = h.hashes;
      inserted = h.inserted;
      widths = h.widths;
    })
    | inr new ↦ rw new (record {
      rows = omega (arith, h.rows, length-append {0});
      errors = h.errors;
      hashes = ground (arith, h.hashes);
      inserted =
          rw (map-append (λ r. r.row_hash) s.to_insert _)
            (rw reverse-append (ap (◌∷◌ hash) h.inserted));
      widths = All-append (λ r. length r.values ≡ width) s.to_insert _ h.widths (w, tt);
    })
  ]

-- `P` holds of the state that the loop ends with, unless `int` raised a ValueError.
abbrev pub Ends : (Casting → Type 0) → Option Casting → Type 0
Ends P none = Unit
Ends P (some s) = P s

abbrev Widths : ℕ → Cells → Type 0
Widths width (done values cells) = length values ≡ width
Widths width (failed column value reason) = Unit
Widths width raises = Unit

put_cell-Widths :
    (width : ℕ) (v : Value) (cell : Text) (c : Cells)
    → Widths width c
    → Widths (suc width) (put_cell v cell c)
put_cell-Widths width v cell (done values cells) w = ap suc w
put_cell-Widths width v cell (failed column value reason) w = tt
put_cell-Widths width v cell raises w = tt

add_cell-Widths :
    (width : ℕ) (column cell : Text) (r : Cast) (c : Cells)
    → Widths width c
    → Widths (suc width) (add_cell column cell r c)
add_cell-Widths width column cell (ok v) c w = put_cell-Widths width v cell c w
add_cell-Widths width column cell (bad reason) c w = tt
add_cell-Widths width column cell raised c w = tt

module _ (rt : Runtime) where
  Widths-cast_cells :
      (columns : List Text) (types : List ColType) (raw : List Text)
      → length types ≡ length columns
      → Widths (length columns) (cast_cells rt columns types raw)
  unfolding cast_cells
  Widths-cast_cells [] types raw e = refl
  Widths-cast_cells (column ∷ columns) [] raw e = absurd (omega (arith, e))
  Widths-cast_cells (column ∷ columns) (t ∷ types) raw e =
      add_cell-Widths (length columns) column (first_cell raw) (cast_value rt (first_cell raw) t) _
        (Widths-cast_cells columns types (rest_cells raw) (omega (arith, e)))

  module _ (most n : ℕ) (s : Casting) (columns : List Text) (types : List ColType) (raw : List Text)
      (aligned : length types ≡ length columns) (h : IsAccounted most (length columns) n s) where
    settle-IsAccounted :
        (c : Cells)
        → Widths (length columns) c
        → Ends (IsAccounted most (length columns) (n + 1)) (settle rt most s (n + 1) c)
    settle-IsAccounted (done values cells) w =
        keep_row-IsAccounted most (length columns) n s h values (rt.sha256 (join_cells cells)) w
    settle-IsAccounted (failed column value reason) w =
        fail_row-IsAccounted most (length columns) n s h _
    settle-IsAccounted raises w = tt

    check_extra-IsAccounted :
        (reason : Text) (extra : List Text) (c : Cells)
        → Widths (length columns) c
        → Ends
            (IsAccounted most (length columns) (n + 1))
            (check_extra rt most s (n + 1) reason extra c)
    check_extra-IsAccounted reason [] c w = settle-IsAccounted c w
    check_extra-IsAccounted reason (e ∷ extra) c w =
        fail_row-IsAccounted most (length columns) n s h _

    cast_row-IsAccounted :
        Ends
          (IsAccounted most (length columns) (n + 1))
          (cast_row rt most columns types s (n + 1) raw)
    unfolding cast_row
    cast_row-IsAccounted =
        check_extra-IsAccounted _ (extra_cells raw (length columns)) _
          (Widths-cast_cells columns types raw aligned)

  bind-Ends :
      (P Q : Casting → Type 0) (m : Option Casting) (f : Casting → Option Casting)
      → Ends P m
      → ((s : Casting) → P s → Ends Q (f s))
      → Ends Q (m >>= f)
  bind-Ends P Q none f h k = tt
  bind-Ends P Q (some s) f h k = k s h

  cast_rows-from :
      (most n : ℕ) (s : Casting) (columns : List Text) (types : List ColType)
      (rows : List (List Text))
      → length types ≡ length columns
      → IsAccounted most (length columns) n s
      → Ends
          (IsAccounted most (length columns) (n + length rows))
          (cast_rows rt most columns types s (n + 1) rows)
  unfolding cast_rows
  cast_rows-from most n s columns types [] e h =
      subst (λ k. IsAccounted most (length columns) k s) (omega arith) h
  cast_rows-from most n s columns types (raw ∷ rows) e h =
      bind-Ends (IsAccounted most (length columns) (n + 1)) _ _ _
        (cast_row-IsAccounted most n s columns types raw e h)
        (λ s' h'.
          subst
            (λ k.
              Ends (IsAccounted most (length columns) k)
                (cast_rows rt most columns types s' (n + 1 + 1) rows))
            (omega arith) (cast_rows-from most (n + 1) s' columns types rows e h'))

  -- Behind the loop over the data rows each row is to be inserted, failed or a duplicate, the error
  -- list is as long as the failures up to its limit, and the rows to insert have different hashes
  -- and a value for each column.
  pub cast_rows-IsAccounted :
      (most : ℕ) (columns : List Text) (types : List ColType) (rows : List (List Text))
      → length types ≡ length columns
      → Ends
          (IsAccounted most (length columns) (length rows))
          (cast_rows rt most columns types casting 1 rows)
  cast_rows-IsAccounted most columns types rows e =
      subst
        (λ k.
          Ends (IsAccounted most (length columns) (length rows))
            (cast_rows rt most columns types casting k rows))
        (omega arith)
        (subst
          (λ k.
            Ends (IsAccounted most (length columns) k)
              (cast_rows rt most columns types casting (0 + 1) rows))
          (omega arith)
          (cast_rows-from most 0 casting columns types rows e
            (IsAccounted-casting most (length columns))))
