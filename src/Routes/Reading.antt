-- ===== src/Routes/Reading.antt =====
-- api/routers/csv_routes.py: the routes that read: the originals, the rows of a table and the preview.
use postgre_data_migration_a.Prelude.{
  ℕ, ◌||◌, not, Option, none, some, List, any, take, drop, length, min, max, Text, same,
  starts_with, ltb, if◌then◌else◌,
}
use postgre_data_migration_a.CsvParse.Cast.{ℤ, pos, negsuc}
use postgre_data_migration_a.CsvParse.Preview.{Preview, build_preview}
use postgre_data_migration_a.Registry.{Table, find_table, csv_prefix}
use postgre_data_migration_a.DynamicLoader.Rows
use postgre_data_migration_a.TeLoader.Insert.{TeServer}
use postgre_data_migration_a.TeLoader.{match_te_table}
use postgre_data_migration_a.Auth.{Http, ok, http, crashed}
use postgre_data_migration_a.Originals.{utf8, Original, find_original}
use postgre_data_migration_a.Routes.{Env, World}

-- `max(1, min(limit, most))` and `max(0, offset)`.
abbrev pub clamp : ℕ → ℤ → ℕ
clamp most (pos n) = max 1 (min n most)
clamp most (negsuc n) = 1

abbrev pub from_zero : ℤ → ℕ
from_zero (pos n) = n
from_zero (negsuc n) = 0

-- `list_uploads`: the newest first.
unfoldable pub list_uploads : ℤ → ℤ → World → List Original
list_uploads limit offset w = take (clamp 500 limit) (drop (from_zero offset) w.originals)

abbrev pub or_404 {ℓ} : {A : Type ℓ} → Option A → Http A
or_404 none = http 404
or_404 (some a) = ok a

-- `upload_detail`, before it picks its keys.
unfoldable pub upload_detail : ℕ → World → Http Original
unfolding find_original
upload_detail id w = or_404 (find_original id w.originals)

-- The name, the digest and the bytes of the response.
abbrev pub download : Http Original → Http (Text × Text × List ℕ)
download (ok o) = ok (o.file_name, o.sha256, o.content)
download (http status) = http status
download crashed = crashed

-- `upload_original`.
unfoldable pub upload_original : ℕ → World → Http (Text × Text × List ℕ)
upload_original id w = download (or_404 (find_original id w.originals))

-- A table that a registered upload names and the schema lacks is a database error.
abbrev pub rows_of : ℕ → Option Table → Http (List Rows.Row)
rows_of limit none = crashed
rows_of limit (some t) = ok (take limit t.rows)

-- `table_rows`; the rows of a table are in the order of `_id`.
unfoldable pub table_rows : Text → ℤ → World → Http (List Rows.Row)
table_rows table_name limit w =
    if not (starts_with table_name csv_prefix) || ltb 64 (length table_name)
    then http 422
    else if any (λ f. same f.table_name table_name) w.loaded.db.files
    then rows_of (clamp 200 limit) (find_table table_name w.loaded.db.tables)
    else http 404

-- The preview with `teTableMatch`.
abbrev pub with_match : TeServer → Preview → Preview × Option Text
with_match server (Preview.invalid_structure reason) = (Preview.invalid_structure reason, none)
with_match server (Preview.ok t) = (Preview.ok t, match_te_table server t.columns)

abbrev pub preview_bytes : Env → Text → Option (List ℕ) → Http (Preview × Option Text)
preview_bytes env content none = crashed
preview_bytes env content (some bytes) =
    if ltb env.settings.max_upload_bytes (length bytes)
    then http 413
    else ok (with_match env.te_server (build_preview env.rt 10 200 content))

-- `preview`, where `match_te_table` does not raise.
unfoldable pub preview : Env → Text → Http (Preview × Option Text)
preview env content = preview_bytes env content (utf8 content)
