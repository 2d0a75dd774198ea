-- ===== src/Tiers/Validation.antt =====
-- Tier P of evals/runner.py: one run of the CSV validator, and what is expected of it.
pub mod Meets
use postgre_data_migration_a.Prelude.{
  ℕ, ◌-◌, Bool, true, false, not, Option, none, some, List, [], ◌∷◌, ◌++◌, map, any, length, drop,
  replicate, Text, codes, same, same_texts, member, ◌==◌, if◌then◌else◌,
}
use postgre_data_migration_a.Python.Search.{contains}
use postgre_data_migration_a.Tiers.{Code, same_code, Process, Report, refuse, conclude, unless}

abbrev pub Rows : Type 0
Rows = List (List Text)

-- A key of a JSON object, where the code tells `null` from a key that is absent.
pub data JsonKey (A : Type 0) : Type 0 where
  absent : JsonKey A
  null : JsonKey A
  given : A → JsonKey A

-- An expected file of the tier, whose `expected` is an object or absent. Of the last five, which the
-- code reads by `get` and a test for None or `or []`, an absent key and `null` are one: `none`, or
-- the empty list.
pub record Expected : Type 0 where
  pub runner_action : JsonKey Text
  pub table_name : JsonKey Text
  pub field_size_bytes : JsonKey ℕ
  pub exit_code : JsonKey Code
  pub stdout_contains : List Text
  pub stderr_contains : List Text
  pub valid_csv_rows : Option Rows
  pub skip_csv_row_count : Option ℕ
  pub skip_reasons_contain : List Text

pub data Problem : Type 0 where
  no_expected_file : Problem
  missing_input : Problem
  unknown_action : Option Text → Problem
  cannot_launch : Problem
  wrong_exit_code : Option Code → Code → Problem
  stdout_missing : Text → Problem
  stderr_missing : Text → Problem
  wrong_valid_rows : Rows → Option Rows → Problem
  wrong_skip_count : ℕ → Option ℕ → Problem
  reason_missing : Text → List Text → Problem

-- The environment of the validator: the bytes of the file at CSV_FILE and the TABLE_NAME; a
-- CSV_FILE that does not exist; or neither variable.
pub data Setup : Type 0 where
  with_file : List ℕ → Text → Setup
  with_missing_file : Text → Setup
  without_variables : Setup

-- The finished process, and the rows that `csv.reader` yields of the two files, if they exist.
pub record Run : Type 0 where
  pub process : Process
  pub valid_csv : Option Rows
  pub skip_csv : Option Rows

-- `get` with a default value; `none` is None.
abbrev pub get : {A : Type 0} → A → JsonKey A → Option A
get d absent = some d
get d null = none
get d (given a) = some a

abbrev pub action_of : Expected → Option Text
action_of exp = get (codes "default") exp.runner_action

-- What the branches on `runner_action` make: a problem, or the environment; or they raise.
pub data Prepared : Type 0 where
  refused : Problem → Prepared
  prepared : Setup → Prepared
  raised : Prepared

abbrev pub crlf : List ℕ
crlf = 13 ∷ 10 ∷ []

-- What `csv.writer` makes of the two rows.
abbrev pub long_field_file : ℕ → List ℕ
long_field_file n = codes "id,payload" ++ (crlf ++ (codes "1," ++ (replicate n b'x' ++ crlf)))

abbrev pub invalid_utf8_file : List ℕ
invalid_utf8_file = codes "id,name\n1,Alice\n2," ++ (0xe9 ∷ 10 ∷ [])

-- A TABLE_NAME that is None is the TypeError of `subprocess.run`.
abbrev pub with_table : List ℕ → Option Text → Prepared
with_table bytes none = raised
with_table bytes (some table_name) = prepared (with_file bytes table_name)

-- `input` is the input.csv of the scenario, if there is one.
abbrev pub default_setup : Expected → Option (List ℕ) → Prepared
default_setup exp none = refused missing_input
default_setup exp (some bytes) = with_table bytes (get (codes "people") exp.table_name)

-- `int(None)` is a TypeError.
abbrev pub long_field_setup : Option ℕ → Option Text → Prepared
long_field_setup none table_name = raised
long_field_setup (some n) table_name = with_table (long_field_file n) table_name

abbrev pub is_action : Option Text → Text → Bool
is_action none name = false
is_action (some action) name = same action name

unfoldable pub setup_of : Expected → Option (List ℕ) → Prepared
setup_of exp input =
    let action = action_of exp in
    if is_action action (codes "default")
    then default_setup exp input
    else if is_action action (codes "write_long_field_file")
    then long_field_setup (get 50000 exp.field_size_bytes) (get (codes "payloads") exp.table_name)
    else if is_action action (codes "write_invalid_utf8_file")
    then with_table invalid_utf8_file (get (codes "people") exp.table_name)
    else if is_action action (codes "omit_env_vars")
    then prepared without_variables
    else if is_action action (codes "point_at_missing_file")
    then prepared (with_missing_file (codes "people"))
    else refused (unknown_action action)

-- `cell.replace("\r\n", "\n")`.
unfoldable pub replace_crlf : Text → Text
replace_crlf [] = []
replace_crlf (c ∷ []) = c ∷ []
replace_crlf (c ∷ d ∷ s) =
    let later = replace_crlf (d ∷ s) in
    let past = replace_crlf s in
    if c == 13 then (if d == 10 then 10 ∷ past else c ∷ later) else c ∷ later

-- `_read_csv_rows`.
abbrev pub read_csv_rows : Option Rows → Rows
read_csv_rows none = []
read_csv_rows (some rows) = map (map replace_crlf) rows

pub record Actual : Type 0 where
  pub process : Process
  pub valid_csv_rows : Option Rows
  pub skip_csv_rows : Option Rows
  pub skip_csv_row_count : Option ℕ

abbrev pub reads_output_files : Option Text → Bool
reads_output_files none = false
reads_output_files (some action) =
    member action
      (codes "default" ∷ codes "write_long_field_file" ∷ codes "write_invalid_utf8_file" ∷ [])

unfoldable pub actual_of : Expected → Run → Actual
unfolding replace_crlf
actual_of exp run =
    if reads_output_files (action_of exp)
    then record {
      process = run.process;
      valid_csv_rows = some (read_csv_rows run.valid_csv);
      skip_csv_rows = some (read_csv_rows run.skip_csv);
      skip_csv_row_count = some (length (read_csv_rows run.skip_csv) - 1);
    }
    else record {
      process = run.process;
      valid_csv_rows = none;
      skip_csv_rows = none;
      skip_csv_row_count = none;
    }

abbrev pub same_rows : Rows → Rows → Bool
same_rows [] [] = true
same_rows (r ∷ rows) (q ∷ others) = if same_texts r q then same_rows rows others else false
same_rows _ _ = false

abbrev pub is_rows : Rows → Option Rows → Bool
is_rows rows none = false
is_rows rows (some others) = same_rows others rows

abbrev pub is_count : ℕ → Option ℕ → Bool
is_count n none = false
is_count n (some m) = m == n

-- `row[-1]` of each row that has a cell.
abbrev pub last_or : Text → List Text → Text
last_or cell [] = cell
last_or cell (next ∷ cells) = last_or next cells

abbrev pub last_cells : Rows → List Text
last_cells [] = []
last_cells ([] ∷ rows) = last_cells rows
last_cells ((cell ∷ cells) ∷ rows) = last_or cell cells ∷ last_cells rows

abbrev pub reasons_of : Option Rows → List Text
reasons_of none = []
reasons_of (some rows) = last_cells (drop 1 rows)

-- `"exit_code" in exp and exp["exit_code"] != actual["exit_code"]`.
abbrev pub check_code : JsonKey Code → Code → List Problem
check_code absent code = []
check_code null code = wrong_exit_code none code ∷ []
check_code (given expected) code =
    unless (same_code expected code) (wrong_exit_code (some expected) code)

-- `for needle in needles`, with the problem of one that is not found.
unfoldable pub check_each : (Text → Bool) → (Text → Problem) → List Text → List Problem
check_each found problem [] = []
check_each found problem (needle ∷ needles) =
    unless (found needle) (problem needle) ++ check_each found problem needles

abbrev pub check_rows : Option Rows → Option Rows → List Problem
check_rows none actual = []
check_rows (some rows) actual = unless (is_rows rows actual) (wrong_valid_rows rows actual)

abbrev pub check_count : Option ℕ → Option ℕ → List Problem
check_count none actual = []
check_count (some n) actual = unless (is_count n actual) (wrong_skip_count n actual)

unfoldable pub assertions : Expected → Actual → List Problem
unfolding check_each contains
assertions exp actual =
    let reasons = reasons_of actual.skip_csv_rows in
    check_code exp.exit_code actual.process.code
    ++ (check_each (λ needle. contains needle actual.process.stdout) stdout_missing
          exp.stdout_contains
        ++ (check_each (λ needle. contains needle actual.process.stderr) stderr_missing
              exp.stderr_contains
            ++ (check_rows exp.valid_csv_rows actual.valid_csv_rows
                ++ (check_count exp.skip_csv_row_count actual.skip_csv_row_count
                    ++ check_each (λ needle. any (contains needle) reasons)
                        (λ needle. reason_missing needle reasons) exp.skip_reasons_contain))))

-- `launch` runs the validator; `none` is the FileNotFoundError.
abbrev pub report_of : Expected → Option Run → Report Problem
report_of exp none = refuse cannot_launch
report_of exp (some run) = conclude (assertions exp (actual_of exp run))

abbrev pub run_setup : (Setup → Option Run) → Expected → Prepared → Option (Report Problem)
run_setup launch exp (refused problem) = some (refuse problem)
run_setup launch exp (prepared setup) = some (report_of exp (launch setup))
run_setup launch exp raised = none

-- `run_tier_p_scenario`, of the expected file and the input.csv of the scenario; `none` is a
-- TypeError, which nothing catches.
unfoldable pub run_tier_p_scenario :
    (Setup → Option Run) → Option Expected → Option (List ℕ) → Option (Report Problem)
unfolding setup_of assertions actual_of
run_tier_p_scenario launch none input = some (refuse no_expected_file)
run_tier_p_scenario launch (some exp) input = run_setup launch exp (setup_of exp input)
