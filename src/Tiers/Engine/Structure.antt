-- ===== src/Tiers/Engine/Structure.antt =====
-- Tier X of evals/runner.py: what a passed scenario shows of the schema of SQLite.
use postgre_data_migration_a.Prelude.{
  true, false, Option, none, some, ◌⊎◌, inl, inr, List, [], ◌∷◌, ◌++◌, ◌≡◌, ◌≢◌, refl, subst, All,
  Text, codes, same, member, Bool-cases,
}
use postgre_data_migration_a.Signatures.{Signature, sorted, set_of, minus, tables}
use postgre_data_migration_a.Signatures.Equal.{Within, minus-Within, sorted-nil}
use postgre_data_migration_a.Tiers.{is_nil_iff, append-nil_iff}
use postgre_data_migration_a.Tiers.Engine.{
  substitute_placeholders, braced, leftovers, Expected, Problem, unsubstituted, tables_absent,
  tables_extra, columns_missing, if_any, table_problems, find_table, absent_columns,
  column_problems, problems_of, judge, run_tier_x_scenario,
}
use postgre_data_migration_a.Tiers.Engine.Placeholders.{IsName, leftovers-nil}

set_of-nil : (ts : List Text) → set_of ts ≡ [] → ts ≡ []
unfolding set_of
set_of-nil [] e = refl
set_of-nil (t ∷ ts) e = elim (Bool-cases (member t ts)) [
  | inl again ↦
      let nothing : ts ≡ [] = set_of-nil ts (rw again at e) in
      let bad : member t [] ≡ true = subst (λ l. member t l ≡ true) nothing again in cc bad
  | inr once ↦ let bad : t ∷ set_of ts ≡ [] = rw once at e in cc bad
]

if_any-nil :
    (problem : List Text → Problem) (ts : List Text)
    → if_any problem (sorted (set_of ts)) ≡ []
    → ts ≡ []
if_any-nil problem ts e = set_of-nil ts (sorted-nil (set_of ts) (empty (sorted (set_of ts)) e))
  where
    empty : (us : List Text) → if_any problem us ≡ [] → us ≡ []
    empty [] h = refl
    empty (u ∷ us) h = cc h

-- The tables are those expected, if the file tells them.
abbrev pub HasTables : Option (List Text) → Signature → Type 0
HasTables none have = Unit
HasTables (some want) have = Within want (tables have) × Within (tables have) want

-- The columns expected of a table are there, if the table is.
abbrev pub HasColumns : Option (List Text) → List Text → Type 0
HasColumns none want = Unit
HasColumns (some have) want = Within want have

table_problems-nil :
    (want : Option (List Text)) (have : Signature)
    → table_problems want have ≡ []
    → HasTables want have
table_problems-nil none have e = tt
table_problems-nil (some want) have e =
    let parts =
      (append-nil_iff (if_any tables_absent (sorted (set_of (minus want (tables have))))) _).0 e in
    (
      minus-Within want (tables have) (if_any-nil tables_absent _ parts.0),
      minus-Within (tables have) want (if_any-nil tables_extra _ parts.1),
    )

absent_columns-nil :
    (table : Text) (want : List Text) (have : Option (List Text))
    → absent_columns table want have ≡ []
    → HasColumns have want
absent_columns-nil table want none e = tt
absent_columns-nil table want (some have) e =
    minus-Within want have (if_any-nil (columns_missing table) _ e)

column_problems-nil :
    (want : List (Text × List Text)) (have : Signature)
    → column_problems want have ≡ []
    → All (λ e. HasColumns (find_table e.0 have) e.1) want
unfolding column_problems
column_problems-nil [] have e = tt
column_problems-nil (x ∷ want) have e =
    let parts = (append-nil_iff (absent_columns x.0 x.1 (find_table x.0 have)) _).0 e in
    (
      absent_columns-nil x.0 x.1 (find_table x.0 have) parts.0,
      column_problems-nil want have parts.1,
    )

-- SQLite took the text, in which no placeholder is left, and has the tables and columns expected.
pub record Structured (sqlite : Text → Text ⊎ Signature) (exp : Expected) (ddl : Text)
    : Type 0 where
  pub have : Signature
  pub taken : sqlite ddl ≡ inr have
  pub substituted :
      (before name after : Text) → IsName name → ddl ≢ before ++ (braced name ++ after)
  pub same_tables : HasTables exp.expected_tables have
  pub columns : All (λ e. HasColumns (find_table e.0 have) e.1) exp.expected_columns

judge-Structured :
    (sqlite : Text → Text ⊎ Signature) (exp : Expected) (ddl : Text) (answer : Text ⊎ Signature)
    → sqlite ddl ≡ answer
    → (judge sqlite exp ddl answer).passed ≡ true
    → Structured sqlite exp ddl
unfolding problems_of
judge-Structured sqlite exp ddl (inl error) is_answer e = cc e
judge-Structured sqlite exp ddl (inr have) is_answer e =
    let one =
      (append-nil_iff (if_any unsubstituted (sorted (set_of (leftovers ddl)))) _).0
        ((is_nil_iff (problems_of exp (leftovers ddl) have)).0 e) in
    let two = (append-nil_iff (table_problems exp.expected_tables have) _).0 one.1 in
    record {
      have = have;
      taken = is_answer;
      substituted = λ before name after is_name.
          leftovers-nil ddl before name after (if_any-nil unsubstituted (leftovers ddl) one.0)
            is_name;
      same_tables = table_problems-nil exp.expected_tables have two.0;
      columns = column_problems-nil exp.expected_columns have two.1;
    }

-- If the scenario of tier X passes, then there is a DDL; the text that SQLite got, which is the DDL
-- with the names of the tables put in, has no placeholder left anywhere; SQLite took it; and its
-- tables are exactly those expected, with the columns expected of them.
pub run_tier_x_scenario-Structured :
    (sqlite : Text → Text ⊎ Signature) (exp : Expected) (name : Text) (raw : Option Text)
    → (run_tier_x_scenario sqlite (some exp) name raw).passed ≡ true
    → (text : Text) × (raw ≡ some text) × Structured sqlite exp (substitute_placeholders text)
unfolding run_tier_x_scenario
run_tier_x_scenario-Structured sqlite exp name none e =
    elim (Bool-cases (same name (codes "01_sqlite_schema_structure"))) [
      | inl named ↦ let bad : false ≡ true = rw named at e in cc bad
      | inr other ↦ let bad : false ≡ true = rw other at e in cc bad
    ]
run_tier_x_scenario-Structured sqlite exp name (some raw) e =
    elim (Bool-cases (same name (codes "01_sqlite_schema_structure"))) [
      | inl named ↦ (
        raw,
        refl,
        judge-Structured sqlite exp (substitute_placeholders raw)
            (sqlite (substitute_placeholders raw)) refl (rw named at e),
      )
      | inr other ↦ let bad : false ≡ true = rw other at e in cc bad
    ]
