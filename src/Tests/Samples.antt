-- ===== src/Tests/Samples.antt =====
-- The interpreter, the settings and the server of the tests.
use postgre_data_migration_a.Prelude.{
  ℕ, ◌+◌, ◌-◌, true, false, ◌&&◌, Option, none, some, [], map, Text, codes, leb, same,
  if◌then◌else◌,
}
use postgre_data_migration_a.Python.{Runtime}
use postgre_data_migration_a.Config.{Settings}
use postgre_data_migration_a.Registry.{CsvFile, dynamic, Db, Server, Others}

abbrev lower_ascii : ℕ → ℕ
lower_ascii c = if leb b'A' c && leb c b'Z' then c + 32 else c

abbrev decimal_ascii : ℕ → Option ℕ
decimal_ascii c = if leb b'0' c && leb c b'9' then some (c - b'0') else none

-- Dates of ten characters are all the timestamps that there are, and a text is its own hash.
abbrev pub ascii : Runtime
ascii = record {
  lower = map lower_ascii;
  decimal = decimal_ascii;
  is_digit = λ c. leb b'0' c && leb c b'9';
  int_limit = 4300;
  Stamp = Text;
  fromisoformat =
      λ s. if same (map (λ c. 0) s) (map (λ c. 0) (codes "2024-01-01")) then some s else none;
  is_naive = λ s. true;
  with_utc = λ s. s;
  isoformat = λ s. s;
  sha256 = λ s. s;
}

abbrev pub settings : Settings
settings = record {
  uploads_schema = codes "csv_uploads";
  te_schema = codes "test_evaluation";
  max_upload_bytes = 1000;
  max_rows = 100;
  max_row_errors = 1;
  allow_destructive = true;
  api_key = [];
  rate_limit_reads = 2;
  rate_limit_writes = 1;
  login_max_failures = 3;
  login_lockout = 900;
  session_ttl = 3600;
}

abbrev pub server : Server
server = record { can_create = λ columns types. true; fits = λ t v. true }

abbrev pub nobody : Others
nobody = record { registered = []; creates_table = false }

abbrev pub no_files : Db
no_files = record { files = []; tables = []; next_id = 1 }

-- A file that is registered under another name and hash.
abbrev pub other_file : CsvFile
other_file = record {
  id = 1;
  file_name = codes "old.csv";
  file_hash = codes "abc";
  table_name = codes "csv_abc";
  mode = dynamic;
  row_count = 0;
  column_names = [];
  total_rows = 0;
  duplicate_rows_skipped = 0;
  failed_rows = 0;
}
