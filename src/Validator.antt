-- ===== src/Validator.antt =====
-- build/csv/validator.py: the rows of a file, parted into a valid file and a skip file. The rows are
-- those that `csv.reader` yields, and the files are lists of the rows that `csv.writer` gets.
pub mod Encodable
pub mod Parted
use postgre_data_migration_a.Prelude.{
  ℕ, suc, ◌+◌, Bool, true, false, ◌&&◌, not, List, [], ◌∷◌, ◌++◌, map, any, length, Text, codes,
  same, ltb, leb, ◌==◌, if◌then◌else◌,
}
use postgre_data_migration_a.Python.{strip}
use postgre_data_migration_a.Python.Decimal.{str}

-- A code point that UTF-8 does not encode: what `surrogateescape` makes of a bad byte.
abbrev pub is_surrogate : ℕ → Bool
is_surrogate c = leb 55296 c && ltb c 57344

abbrev pub has_bad_bytes : Text → Bool
has_bad_bytes cell = any is_surrogate cell

abbrev pub clean_char : ℕ → ℕ
clean_char c = if is_surrogate c then b'?' else c

-- `cell.encode("utf-8", "replace").decode("utf-8")`.
abbrev pub clean : Text → Text
clean cell = map clean_char cell

-- The two files, and the counters.
pub record Files : Type 0 where
  pub valid_rows : List (List Text)
  pub skip_rows : List (List Text)
  pub valid : ℕ
  pub skip : ℕ

abbrev pub skip_row : List Text → Text → Files → Files
skip_row row reason files = record files {
  skip_rows = files.skip_rows ++ ((map clean row ++ (reason ∷ [])) ∷ []);
  skip = files.skip + 1;
}

abbrev pub keep_row : List Text → Files → Files
keep_row row files = record files {
  valid_rows = files.valid_rows ++ (row ∷ []);
  valid = files.valid + 1;
}

abbrev pub is_filled : Text → Bool
is_filled cell = not (same (strip cell) [])

abbrev pub blank_reason : Text
blank_reason = codes "empty row — all values blank"

abbrev pub bytes_reason : ℕ → Text
bytes_reason n = codes "invalid UTF-8 bytes at line " ++ str n

abbrev pub mismatch_reason : ℕ → ℕ → Text
mismatch_reason ncols got =
    codes "column mismatch — expected " ++ (str ncols ++ (codes ", got " ++ str got))

-- The body of the loop, for the row `n`.
unfoldable pub sort_row : ℕ → ℕ → List Text → Files → Files
sort_row ncols n row files =
    if not (any is_filled row)
    then skip_row row blank_reason files
    else if any has_bad_bytes row
    then skip_row row (bytes_reason n) files
    else if not (length row == ncols)
    then skip_row row (mismatch_reason ncols (length row)) files
    else keep_row row files

-- `for n, row in enumerate(reader, start=2)`.
unfoldable pub sort_rows : ℕ → ℕ → List (List Text) → Files → Files
unfolding sort_row
sort_rows ncols n [] files = files
sort_rows ncols n (row ∷ rows) files = sort_rows ncols (n + 1) rows (sort_row ncols n row files)

abbrev pub empty_files : Files
empty_files = record { valid_rows = []; skip_rows = []; valid = 0; skip = 0 }

-- Behind the two header rows.
abbrev pub with_headers : List Text → Files
with_headers headers = record {
  valid_rows = headers ∷ [];
  skip_rows = (headers ++ (codes "_skip_reason" ∷ [])) ∷ [];
  valid = 0;
  skip = 0;
}

-- The exit code.
abbrev pub exit_code : Files → ℕ
exit_code files = if files.valid == 0 then 1 else 0

abbrev pub validate_rows : List Text → List (List Text) → ℕ × Files
validate_rows headers rows =
    let files = sort_rows (length headers) 2 rows (with_headers headers) in (exit_code files, files)

-- The script, from the first `next(reader)` on: the exit code and the files.
unfoldable pub validate_file : List (List Text) → ℕ × Files
unfolding sort_rows
validate_file [] = (1, empty_files)
validate_file (header ∷ rows) =
    let headers = map strip header in
    if length headers == 0
    then (1, empty_files)
    else if any has_bad_bytes headers
    then (1, empty_files)
    else validate_rows headers rows
