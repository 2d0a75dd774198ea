-- ===== src/Tests/Te.antt =====
-- The loader for the fixed tables.
use postgre_data_migration_a.Prelude.{
  ◌-◌, Bool, true, false, Option, none, some, List, [], ◌∷◌, ◌++◌, ◌≡◌, refl, arith, length, Text,
  codes, same, if◌then◌else◌,
}
use postgre_data_migration_a.CsvParse.Lexer.{parse_csv}
use postgre_data_migration_a.CsvParse.Cast.{Value, null, str}
use postgre_data_migration_a.TeLoader.Insert.{TeRow, TeServer, Loading, insert_each, insert_chunks}
use postgre_data_migration_a.TeLoader.Batches.{all_taken, insert_chunks-insert_each}
use postgre_data_migration_a.TeLoader.{State, upload_te, match_te_table}
use postgre_data_migration_a.TeLoader.Counts.{Says, upload_te_atomic}
use postgre_data_migration_a.Tests.Samples.{ascii, settings, no_files, other_file}

abbrev is_null : List Value → Bool
is_null (null ∷ row) = true
is_null row = false

-- A server that refuses rows with a NULL in front.
abbrev not_null : List TeRow → TeRow → Option Text
not_null stored r = if is_null r then some (codes "null value") else none

abbrev pub fixed : TeServer
fixed = record {
  table_columns = λ t. if same t (codes "personnel") then codes "id" ∷ codes "name" ∷ [] else [];
  pg_type = λ t c. codes "text";
  refuses = not_null;
  takes_all = all_taken (record {
    table_columns = λ t. [];
    pg_type = λ t c. [];
    refuses = not_null;
    takes_all = λ stored rows. true;
  });
}

all_taken-fixed :
    (stored rows : List TeRow) → fixed.takes_all stored rows ≡ all_taken fixed stored rows
unfolding all_taken
all_taken-fixed stored [] = refl
all_taken-fixed stored (r ∷ rows) = rw (all_taken-fixed (stored ++ r ∷ []) rows)

abbrev rows : List TeRow
rows = (str (codes "a") ∷ []) ∷ (null ∷ []) ∷ (str (codes "b") ∷ []) ∷ []

abbrev loading : Loading
loading = record { stored = []; inserted = 0; failed_row_count = 0; row_errors = [] }

insert_chunks-insert_each_example :
    insert_chunks fixed 1 2 3 loading 0 rows ≡ insert_each fixed 1 loading 0 rows
insert_chunks-insert_each_example =
    insert_chunks-insert_each fixed 1 all_taken-fixed 2 3 loading 0 rows (omega arith) (omega arith)

insert_chunks_run :
    (insert_chunks fixed 1 2 3 loading 0 rows).stored
    ≡ (str (codes "a") ∷ []) ∷ (str (codes "b") ∷ []) ∷ []
unfolding insert_chunks all_taken
insert_chunks_run = refl

abbrev state : State
state = record { stored = []; db = record no_files { files = other_file ∷ [] } }

abbrev content : Text
content = codes "id,name\n1,a\n,b\n"

upload_te_atomic_example :
    Says 1
      (length (parse_csv content) - 1)
      []
      state
      (upload_te ascii fixed settings [] (codes "old.csv") content (codes "personnel") state)
upload_te_atomic_example =
    upload_te_atomic ascii fixed settings [] (codes "old.csv") content (codes "personnel") state

found : match_te_table fixed (codes "name" ∷ []) ≡ some (codes "personnel")
unfolding match_te_table
found = refl
