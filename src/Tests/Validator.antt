-- ===== src/Tests/Validator.antt =====
-- The validator on a header, a valid row, a short one and one with a bad byte.
use postgre_data_migration_a.Prelude.{
  true, List, [], ◌∷◌, ◌≡◌, ◌⊎◌, refl, Text, codes, map, any, length,
}
use postgre_data_migration_a.Python.{strip_by, strip}
use postgre_data_migration_a.Validator.{
  has_bad_bytes, sort_row, sort_rows, empty_files, validate_file,
}
use postgre_data_migration_a.Validator.Parted.{IsParted, validate_file-IsParted}

abbrev header : List Text
header = codes " id" ∷ codes "name" ∷ []

abbrev rows : List (List Text)
rows = (codes "1" ∷ codes "ann" ∷ []) ∷ (codes "2" ∷ []) ∷ (codes "3" ∷ (56448 ∷ []) ∷ []) ∷ []

validate_file_run :
    ((validate_file (header ∷ rows)).0 ≡ 0)
    × ((validate_file (header ∷ rows)).1.valid ≡ 1)
    × ((validate_file (header ∷ rows)).1.skip ≡ 2)
unfolding validate_file sort_rows sort_row strip strip_by
validate_file_run = (refl, refl, refl)

validate_file-IsParted_example :
    (validate_file [] ≡ (1, empty_files))
    × ((((length (map strip header) ≡ 0) ⊎ (any has_bad_bytes (map strip header) ≡ true))
          × (validate_file (header ∷ rows) ≡ (1, empty_files)))
        ⊎ IsParted (map strip header) rows (validate_file (header ∷ rows)))
validate_file-IsParted_example = validate_file-IsParted header rows
