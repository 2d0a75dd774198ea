-- ===== src/Startup.antt =====
-- api/main.py and api/db.py: the check of the API key at the start, the connection to the database,
-- the privileges of the runtime role, and the order of the middlewares.
pub mod Pool
pub mod Borrow
pub mod Grants
pub mod Layers
pub mod Closed
use postgre_data_migration_a.Prelude.{
  ℕ, zero, suc, ◌+◌, ◌-◌, ◌*◌, ◌^◌, min, Bool, true, false, ◌&&◌, ◌||◌, not, Option, none, some,
  List, [], ◌∷◌, map, any, Text, codes, same, member, leb, if◌then◌else◌,
}
use postgre_data_migration_a.Config.{Settings}
use postgre_data_migration_a.Registry.{CsvFile, is_dynamic}
use postgre_data_migration_a.RateLimit.{Answer, next, too_many, Request}

abbrev pub is_empty : Text → Bool
is_empty [] = true
is_empty (c ∷ s) = false

-- `assert_auth_configured`: false is the RuntimeError.
unfoldable pub assert_auth_configured : Text → Text → Bool
assert_auth_configured api_env api_key = not (is_empty api_key && not (same api_env (codes "dev")))

-- How `init_pool` ends: with the attempt that connected, with the last OperationalError, with the
-- OverflowError of the delay, or with the AssertionError of no attempt at all; and the milliseconds
-- it slept.
pub data Ending : Type 0 where
  connected : ℕ → ℕ → Ending
  unreachable : ℕ → Ending
  overflowed : ℕ → Ending
  never_tried : Ending

-- `min(base_delay * (2 ** (attempt - 1)), 10.0)`, in milliseconds.
abbrev pub delay_of : ℕ → ℕ → ℕ
delay_of base_delay attempt = min (base_delay * 2 ^ (attempt - 1)) 10000

-- `base_delay` is a float: an integer from 2 ** 1024 on is none, and raises the OverflowError.
abbrev pub overflows : ℕ → Bool
overflows attempt = leb 1025 attempt

-- `for attempt in range(…)`, with `left` attempts to go behind `waited` milliseconds of sleep.
unfoldable pub connect_from : (ℕ → Bool) → ℕ → ℕ → ℕ → ℕ → Ending
connect_from answers base_delay attempt zero waited = unreachable waited
connect_from answers base_delay attempt (suc left) waited =
    let later =
      connect_from answers base_delay (attempt + 1) left (waited + delay_of base_delay attempt) in
    if answers attempt
    then connected attempt waited
    else if overflows attempt
    then overflowed waited
    else later

-- `init_pool`, where `answers` tells at which attempts the server takes the connection.
unfoldable pub init_pool : (ℕ → Bool) → ℕ → ℕ → Ending
unfolding connect_from
init_pool answers zero base_delay = never_tried
init_pool answers (suc n) base_delay = connect_from answers base_delay 1 (suc n) 0

-- `APPEND_ONLY`.
abbrev pub append_only : List Text
append_only =
    codes "audit_log"
    ∷ codes "uploads"
    ∷ codes "upload_blobs"
    ∷ codes "source_rows"
    ∷ codes "row_decisions"
    ∷ codes "cell_edits"
    ∷ codes "alembic_version"
    ∷ []

-- What the runtime role may do with a table.
pub record Privileges : Type 0 where
  pub select : Bool
  pub insert : Bool
  pub update : Bool
  pub delete : Bool
  pub truncate : Bool

pub record Relation : Type 0 where
  pub name : Text
  pub owner : Text
  pub privileges : Privileges

-- A schema of the database, with its privileges for the runtime role. `files` is the registry
-- `csv_files`, if the schema has one.
pub record Schema : Type 0 where
  pub usage : Bool
  pub create : Bool
  pub relations : List Relation
  pub files : Option (List CsvFile)

-- GRANT SELECT, INSERT, UPDATE, DELETE.
abbrev pub grant_changes : Relation → Relation
grant_changes r = record r {
  privileges = record (r.privileges) { select = true; insert = true; update = true; delete = true };
}

-- REVOKE UPDATE, DELETE, TRUNCATE on an append-only table.
abbrev pub revoke_changes : Relation → Relation
revoke_changes r =
    if member r.name append_only
    then record r {
      privileges = record (r.privileges) { update = false; delete = false; truncate = false };
    }
    else r

abbrev pub is_file_table : List CsvFile → Text → Bool
is_file_table files name = any (λ f. is_dynamic f.mode && same f.table_name name) files

-- ALTER TABLE … OWNER TO the role, for the table of a dynamic upload.
abbrev pub hand_over : Text → Bool → Option (List CsvFile) → Relation → Relation
hand_over role create none r = r
hand_over role create (some files) r =
    if create && is_file_table files r.name then record r { owner = role } else r

abbrev pub granted : Text → Bool → Schema → Relation → Relation
granted role create s r = hand_over role create s.files (revoke_changes (grant_changes r))

-- `grant_runtime`. The role and the schema, if it exists; the sequences are left out.
unfoldable pub grant_runtime : Text → Bool → Option Schema → Option Schema
grant_runtime [] create o = o
grant_runtime (c ∷ role) create none = none
grant_runtime (c ∷ role) create (some s) = some (record s {
  usage = true;
  create = create || s.create;
  relations = map (granted (c ∷ role) create s) s.relations;
})

-- A response, and whether it has the CORS headers.
pub record Response : Type 0 where
  pub status : ℕ
  pub cors : Bool

abbrev pub Handler : Type 0
Handler = Request → Response

-- The layers of the application, the outermost first.
abbrev pub build : List (Handler → Handler) → Handler → Handler
build [] routes = routes
build (layer ∷ layers) routes = layer (build layers routes)

-- `add_middleware`: the layer that is added last is the outermost.
abbrev pub add_middleware :
    (Handler → Handler) → List (Handler → Handler) → List (Handler → Handler)
add_middleware layer layers = layer ∷ layers

abbrev pub limited : Answer → Response → Response
limited next response = response
limited (too_many seconds) response = record { status = 429; cors = false }

-- `rate_limit_middleware` as a layer; `answer` is what the limiter says of a request.
abbrev pub rate_limit : (Request → Answer) → Handler → Handler
rate_limit answer call_next r = limited (answer r) (call_next r)

-- `app` of api/main.py: CORSMiddleware is added first, and the limiter behind it.
unfoldable pub app : (Handler → Handler) → (Request → Answer) → Handler → Handler
app cors_middleware answer routes =
    build (add_middleware (rate_limit answer) (add_middleware cors_middleware [])) routes
