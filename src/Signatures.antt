-- ===== src/Signatures.antt =====
-- `_diff_signatures` of evals/runner.py: the differences between the structures of two deployments.
-- A fingerprint is the list of its entries, a table with its columns.
pub mod Equal
use postgre_data_migration_a.Prelude.{
  ℕ, Bool, true, false, ◌&&◌, ◌||◌, not, Option, none, some, List, [], ◌∷◌, ◌++◌, Text, codes, same,
  same_texts, member, ltb, ◌==◌, if◌then◌else◌,
}
use postgre_data_migration_a.GapReport.{join}

abbrev pub Signature : Type 0
Signature = List (Text × List Text)

-- The order of texts.
abbrev pub is_before : Text → Text → Bool
is_before [] t = true
is_before (c ∷ s) [] = false
is_before (c ∷ s) (d ∷ t) = ltb c d || (c == d && is_before s t)

unfoldable pub insert_text : Text → List Text → List Text
insert_text t [] = t ∷ []
insert_text t (u ∷ us) =
    let rest = insert_text t us in if is_before t u then t ∷ u ∷ us else u ∷ rest

-- `sorted(…)`.
unfoldable pub sorted : List Text → List Text
unfolding insert_text
sorted [] = []
sorted (t ∷ ts) = insert_text t (sorted ts)

-- `set(…)` of a list.
unfoldable pub set_of : List Text → List Text
set_of [] = []
set_of (t ∷ ts) = let rest = set_of ts in if member t ts then rest else t ∷ rest

-- `set(ts) - set(us)`.
unfoldable pub minus : List Text → List Text → List Text
minus [] us = []
minus (t ∷ ts) us = let rest = minus ts us in if member t us then rest else t ∷ rest

-- `set(ts) & set(us)`.
unfoldable pub both : List Text → List Text → List Text
both [] us = []
both (t ∷ ts) us = let rest = both ts us in if member t us then t ∷ rest else rest

abbrev pub tables : Signature → List Text
tables [] = []
tables (e ∷ es) = e.0 ∷ tables es

-- `ref[table]`, of a table that is there.
abbrev pub columns_of : Text → Signature → List Text
columns_of table [] = []
columns_of table (e ∷ es) = let rest = columns_of table es in if same table e.0 then e.1 else rest

-- `if tables: diffs.append(…)`.
abbrev pub tables_line : Text → List Text → List Text
tables_line text [] = []
tables_line text (t ∷ ts) = (text ++ (codes ": " ++ join (codes ", ") (t ∷ ts))) ∷ []

abbrev pub order_text : Text → Text → Text → Text
order_text ref_env other_env table =
    codes "table "
    ++ (table
        ++ (codes " has the same columns in a different ordinal order between "
            ++ (ref_env ++ (codes " and " ++ other_env))))

abbrev pub columns_text : Text → Text → Text → List Text → List Text → Text
columns_text ref_env other_env table [] [] = order_text ref_env other_env table
columns_text ref_env other_env table only_ref only_other =
    codes "table "
    ++ (table
        ++ (codes " differs: "
            ++ (ref_env
                ++ (codes "-only ["
                    ++ (join (codes ", ") only_ref
                        ++ (codes "], "
                            ++ (other_env
                                ++ (codes "-only ["
                                    ++ (join (codes ", ") only_other ++ codes "]")))))))))

-- The body of the loop over the common tables.
abbrev pub table_lines : Text → Text → Text → List Text → List Text → List Text
table_lines ref_env other_env table ref other =
    if same_texts ref other
    then []
    else columns_text ref_env other_env table (sorted (set_of (minus ref other)))
        (sorted (set_of (minus other ref)))
      ∷ []

unfoldable pub common_lines : Text → Text → Signature → Signature → List Text → List Text
common_lines ref_env other_env ref other [] = []
common_lines ref_env other_env ref other (table ∷ tables) =
    table_lines ref_env other_env table (columns_of table ref) (columns_of table other)
    ++ common_lines ref_env other_env ref other tables

-- `_diff_signatures`.
unfoldable pub diff_signatures : Text → Signature → Text → Signature → List Text
unfolding sorted set_of minus both common_lines
diff_signatures ref_env ref other_env other =
    tables_line (other_env ++ (codes " is missing tables present in " ++ ref_env))
      (sorted (minus (tables ref) (tables other)))
    ++ (tables_line (other_env ++ (codes " has tables absent from " ++ ref_env))
          (sorted (minus (tables other) (tables ref)))
        ++ common_lines ref_env other_env ref other (sorted (both (tables ref) (tables other))))
