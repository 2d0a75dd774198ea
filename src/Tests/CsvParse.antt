-- ===== src/Tests/CsvParse.antt =====
-- The reader, the column names, the casts and the preview.
use postgre_data_migration_a.Prelude.{
  Bool, true, not, List, [], ◌∷◌, ◌≡◌, ◌≢◌, refl, arith, all, All, Text, codes, distinct, take,
}
use postgre_data_migration_a.Tests.Samples.{ascii}
use postgre_data_migration_a.Python.{strip_by, strip}
use postgre_data_migration_a.Python.Decimal.{str}
use postgre_data_migration_a.CsvParse.Patterns.{int_re}
use postgre_data_migration_a.CsvParse.Lexer.{step, scan, drop_blank_rows, parse_csv}
use postgre_data_migration_a.CsvParse.Lexer.RoundTrip.{is_plain, write_csv, parse_csv-write_csv}
use postgre_data_migration_a.CsvParse.Columns.{sanitize_columns}
use postgre_data_migration_a.CsvParse.Columns.Identifiers.{
  IsColumn, distinct-sanitize_columns, sanitize_columns-IsColumn,
}
use postgre_data_migration_a.CsvParse.Types.{int8, text}
use postgre_data_migration_a.CsvParse.Cast.{
  cast_value, infer_type, count_digits, unsigned, non_blank,
}
use postgre_data_migration_a.CsvParse.Cast.Infer.{casts, IsShort, cast_value-infer_type}
use postgre_data_migration_a.CsvParse.Preview.{column_cells}

abbrev table : List (List Text)
table = (codes "a" ∷ codes "b,\"c\"" ∷ []) ∷ (codes "1" ∷ [] ∷ []) ∷ []

-- The writer quotes the fields that need it.
abbrev needs_quotes : Text → Bool
needs_quotes f = not (all is_plain f)

parse_csv_run : parse_csv (codes "a,\"b,\"\"c\"\"\"\r\n1,\r\n\r\n") ≡ table
unfolding parse_csv scan step
parse_csv_run = refl

parse_csv-write_csv_example : parse_csv (write_csv needs_quotes true table) ≡ drop_blank_rows table
parse_csv-write_csv_example = parse_csv-write_csv needs_quotes true table (
  ((λ e. cc), (λ q. (refl, tt), (λ q. cc, tt))),
  ((λ e. cc, (λ q. (refl, tt), (λ q. tt, tt))), tt),
)

abbrev headers : List Text
headers = codes "First Name" ∷ codes "first-name" ∷ codes "" ∷ codes "1st" ∷ codes "user" ∷ []

sanitize_columns_run :
    sanitize_columns ascii headers
    ≡ codes "first_name"
      ∷ codes "first_name_2"
      ∷ codes "column_3"
      ∷ codes "col_1st"
      ∷ codes "user"
      ∷ []
unfolding sanitize_columns strip_by strip str
sanitize_columns_run = refl

distinct-sanitize_columns_example : distinct (sanitize_columns ascii headers) ≡ true
distinct-sanitize_columns_example = distinct-sanitize_columns ascii headers

sanitize_columns-IsColumn_example : All IsColumn (sanitize_columns ascii headers)
sanitize_columns-IsColumn_example = sanitize_columns-IsColumn ascii headers (omega arith)

abbrev numbers : List Text
numbers = codes "12" ∷ codes " -3 " ∷ codes "" ∷ []

infer_type_run : infer_type ascii numbers ≡ int8
unfolding infer_type strip_by strip int_re
infer_type_run = refl

numbers-IsShort : All (IsShort ascii) numbers
unfolding count_digits unsigned strip_by strip
numbers-IsShort = (omega arith, (omega arith, (omega arith, tt)))

cast_value-infer_type_example :
    All (λ v. casts (cast_value ascii v (infer_type ascii numbers)) ≡ true) numbers
cast_value-infer_type_example = cast_value-infer_type ascii numbers numbers-IsShort

numbers-text : All (λ v. casts (cast_value ascii v text) ≡ true) numbers
unfolding cast_value strip_by strip
numbers-text = (refl, (refl, (refl, tt)))

numbers-non_blank : non_blank numbers ≢ []
unfolding non_blank strip_by strip
numbers-non_blank e = cc

abbrev content : Text
content = codes "n,name\n12,a\n3,b,c\n"

abbrev body : List (List Text)
body = (codes "12" ∷ codes "a" ∷ []) ∷ (codes "3" ∷ codes "b" ∷ codes "c" ∷ []) ∷ []

content-IsShort : All (IsShort ascii) (column_cells 0 (take 2 body))
unfolding count_digits unsigned strip_by strip
content-IsShort = (omega arith, (omega arith, tt))

content_run : parse_csv content ≡ (codes "n" ∷ codes "name" ∷ []) ∷ body
unfolding parse_csv scan step
content_run = refl
