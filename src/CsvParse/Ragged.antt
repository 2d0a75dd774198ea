-- ===== src/CsvParse/Ragged.antt =====
-- `extra_cells` and `ragged_row_reason`, and the row errors that the loaders report.
use postgre_data_migration_a.Prelude.{
  ℕ, List, [], ◌∷◌, ◌++◌, length, drop, Text, codes, same, ltb, if◌then◌else◌, ◌≡◌, ◌+◌, min, arith,
  length-append,
}
use postgre_data_migration_a.Python.{strip}
use postgre_data_migration_a.Python.Decimal.{str}

-- `[c for c in raw if c.strip()]`.
unfoldable pub filled : List Text → List Text
filled [] = []
filled (c ∷ cs) = let rest = filled cs in if same (strip c) [] then rest else c ∷ rest

unfoldable pub extra_cells : List Text → ℕ → List Text
unfolding filled
extra_cells raw width = filled (drop width raw)

unfoldable pub ragged_row_reason : List Text → ℕ → Text
ragged_row_reason raw width =
    codes "Row has "
    ++ (str (length raw)
        ++ (codes " cells but the header has "
            ++ (str width
                ++ codes "; the extra value(s) would be lost, so the row was not imported.")))

-- `{"rowNumber": …, "column": …, "value": …, "reason": …}`.
pub record RowError : Type 0 where
  pub row_number : ℕ
  pub column : Text
  pub value : Text
  pub reason : Text

abbrev pub beyond_header : Text
beyond_header = codes "(beyond header)"

-- `if len(row_errors) < settings.MAX_ROW_ERRORS_REPORTED: row_errors.append(…)`.
unfoldable pub report {ℓ} : {A : Type ℓ} → ℕ → List A → A → List A
report most errors e = if ltb (length errors) most then errors ++ e ∷ [] else errors

pub length-report {ℓ} :
    {A : Type ℓ} (most n : ℕ) (errors : List A) (e : A)
    → length errors ≡ min n most
    → length (report most errors e) ≡ min (n + 1) most
unfolding report
length-report most n errors e h = ground (arith, length-append errors (e ∷ []))
