-- ===== src/Tiers/Engine.antt =====
-- Tier X of evals/runner.py: the schema of SQLite, executed and compared with the tables expected.
pub mod Placeholders
pub mod Structure
use postgre_data_migration_a.Prelude.{
  ℕ, zero, suc, ◌+◌, ◌-◌, Bool, true, false, ◌&&◌, ◌||◌, not, Option, none, some, ◌⊎◌, inl, inr,
  List, [], ◌∷◌, ◌++◌, map, length, leb, Text, codes, same, starts_with, ◌==◌, if◌then◌else◌,
}
use postgre_data_migration_a.Python.Replace.{replace, upper}
use postgre_data_migration_a.Signatures.{Signature, sorted, set_of, minus, tables}
use postgre_data_migration_a.Tiers.{Report, refuse, conclude}

-- `_ENGINE_PLACEHOLDER_TABLES`.
abbrev pub placeholder_tables : List Text
placeholder_tables =
    codes "organisations"
    ∷ codes "personnel"
    ∷ codes "test_programs"
    ∷ codes "temp_documents"
    ∷ codes "test_phases"
    ∷ codes "requirements"
    ∷ codes "test_cases"
    ∷ codes "vcrm_entries"
    ∷ codes "test_events"
    ∷ codes "test_results"
    ∷ codes "defect_reports"
    ∷ codes "evidence_artifacts"
    ∷ []

abbrev pub placeholder_of : Text → Text
placeholder_of table = codes "{{TBL_" ++ (upper table ++ codes "}}")

unfoldable pub substitute : List Text → Text → Text
unfolding replace
substitute [] ddl = ddl
substitute (table ∷ tables) ddl = substitute tables (replace (placeholder_of table) table ddl)

-- `_substitute_placeholders`.
abbrev pub substitute_placeholders : Text → Text
substitute_placeholders ddl = substitute placeholder_tables ddl

-- The class `[A-Z_]`.
abbrev pub is_upper : ℕ → Bool
is_upper c = (leb b'A' c && leb c b'Z') || c == b'_'

-- Behind `{{`, with `name` read: the name, if at least one character and `}}` follow.
unfoldable pub name_from : Text → Text → Option Text
name_from name [] = none
name_from name (c ∷ s) =
    let longer = name_from (name ++ (c ∷ [])) s in
    if is_upper c
    then longer
    else if not (same name []) && starts_with (c ∷ s) (codes "}}")
    then some name
    else none

-- The match of `\{\{[A-Z_]+\}\}` at the start of the text.
abbrev pub match_at : Text → Option Text
match_at (c ∷ d ∷ s) = if c == b'{' && d == b'{' then name_from [] s else none
match_at _ = none

abbrev pub braced : Text → Text
braced name = codes "{{" ++ (name ++ codes "}}")

-- A match, and the search behind it; or the search one character further.
abbrev pub match_or : (ℕ → List Text) → Option Text → List Text
match_or find none = find zero
match_or find (some name) = braced name ∷ find (length name + 3)

-- `skip` characters belong to the match before.
unfoldable pub find_from : ℕ → Text → List Text
unfolding name_from
find_from skip [] = []
find_from (suc skip) (c ∷ s) = find_from skip s
find_from zero (c ∷ s) = match_or (λ skip. find_from skip s) (match_at (c ∷ s))

-- `re.findall(r"\{\{[A-Z_]+\}\}", text)`.
unfoldable pub leftovers : Text → List Text
unfolding find_from
leftovers text = find_from zero text

-- An expected file of the tier.
pub record Expected : Type 0 where
  pub expected_tables : Option (List Text)
  pub expected_columns : List (Text × List Text)

pub data Problem : Type 0 where
  no_expected_file : Problem
  unknown_scenario : Text → Problem
  no_ddl : Problem
  rejected : Text → Problem
  unsubstituted : List Text → Problem
  tables_absent : List Text → Problem
  tables_extra : List Text → Problem
  columns_missing : Text → List Text → Problem

-- `if texts: errors.append(…)`.
abbrev pub if_any : (List Text → Problem) → List Text → List Problem
if_any problem [] = []
if_any problem (t ∷ texts) = problem (t ∷ texts) ∷ []

abbrev pub table_problems : Option (List Text) → Signature → List Problem
table_problems none have = []
table_problems (some want) have =
    if_any tables_absent (sorted (set_of (minus want (tables have))))
    ++ if_any tables_extra (sorted (set_of (minus (tables have) want)))

-- `tables.get(table)`.
abbrev pub find_table : Text → Signature → Option (List Text)
find_table table [] = none
find_table table (e ∷ have) =
    let rest = find_table table have in if same table e.0 then some e.1 else rest

abbrev pub absent_columns : Text → List Text → Option (List Text) → List Problem
absent_columns table want none = []
absent_columns table want (some have) =
    if_any (columns_missing table) (sorted (set_of (minus want have)))

unfoldable pub column_problems : List (Text × List Text) → Signature → List Problem
unfolding sorted set_of minus
column_problems [] have = []
column_problems (e ∷ want) have =
    absent_columns e.0 e.1 (find_table e.0 have) ++ column_problems want have

unfoldable pub problems_of : Expected → List Text → Signature → List Problem
unfolding sorted set_of minus column_problems
problems_of exp leftover have =
    if_any unsubstituted (sorted (set_of leftover))
    ++ (table_problems exp.expected_tables have ++ column_problems exp.expected_columns have)

-- `sqlite` is `_sqlite_structure`: the error, or the tables with their columns.
module _ (sqlite : Text → Text ⊎ Signature) where
  abbrev pub judge : Expected → Text → Text ⊎ Signature → Report Problem
  judge exp ddl (inl error) = refuse (rejected error)
  judge exp ddl (inr have) = conclude (problems_of exp (leftovers ddl) have)

  abbrev pub sqlite_schema_structure : Expected → Option Text → Report Problem
  sqlite_schema_structure exp none = refuse no_ddl
  sqlite_schema_structure exp (some raw) =
      let ddl = substitute_placeholders raw in judge exp ddl (sqlite ddl)

  -- `run_tier_x_scenario`, of the expected file and the file of the DDL.
  unfoldable pub run_tier_x_scenario : Option Expected → Text → Option Text → Report Problem
  unfolding substitute leftovers problems_of
  run_tier_x_scenario none name raw = refuse no_expected_file
  run_tier_x_scenario (some exp) name raw =
      if same name (codes "01_sqlite_schema_structure")
      then sqlite_schema_structure exp raw
      else refuse (unknown_scenario name)
