-- ===== src/Lib.antt =====
-- The CSV migration service of the repository (api): it reads a CSV file, proposes a typed table,
-- and loads the rows into PostgreSQL in one transaction, behind a rate limiter; the validator of the
-- build; and the evaluations that deploy the system and judge it.
--
--   CsvParse      api/services/csv_parse.py. Lexer: `parse_csv` as a fold of `step` over the
--                 characters. Columns: `sanitize_columns`. Types, Patterns, Cast: the column types,
--                 the regular expressions, `cast_value` and `infer_type`. Preview: `build_preview`.
--                 Ragged: `extra_cells`, `ragged_row_reason`.
--   Config        api/config.py: the settings that the code reads.
--   Registry      the tables of the database: the registry `csv_files` with its UNIQUE indexes, the
--                 tables of the uploads, and the SQL statements as functions on them.
--   DynamicLoader api/services/dynamic_loader.py. Rows: the loop that casts the rows. Result: the
--                 results. Checks: what comes in front of the INSERTs. `prepare` makes the transaction up
--                 to the INSERT into the registry, `fill` its part behind CREATE TABLE, and
--                 `do_upload` commits it or rolls it back. Session: the same on a connection, with
--                 each statement, the commit and the rollbacks.
--   TeLoader      api/services/te_loader.py. Rows: the casts. Insert: the chunks with their savepoints
--                 and the fallback to single rows. `upload_te` is the whole load.
--   Accounts      api/services/accounts.py: passwords, logins with the lockout, sessions, and (Creation) new
--                 accounts, on the tables of the control schema.
--   Audit         api/services/audit.py: the audit log with its hash chain (the trigger and the
--                 function of alembic/versions/0006), `write_audit` and `verify_chain`.
--   Review        api/services/review.py and `_run` of api/routers/review_routes.py. Rows: the view of a
--                 stored row under the decisions and edits. `decide` and `edit` add to them.
--   Tenancy, Auth api/tenancy.py and api/auth.py: the schemas of a request, the API key, bearer tokens,
--                 `tenant_scope` and the roles. Provision: `provision_te_tables`.
--   SignIn        api/routers/auth_routes.py: signing in and out, and the routes that set a password.
--   Originals     api/services/originals.py: the outcome of an upload, its bytes and its parsed rows.
--   Routes        api/routers/csv_routes.py: `upload` with the loader, the original and the audit row,
--                 `delete_file`; Reading: downloads, previews and the rows of a table.
--   Startup       api/main.py and api/db.py: `assert_auth_configured`, `init_pool`, `grant_runtime` and
--                 the order of the middlewares. Borrow: `Conn` and `_borrow_with_timeout` as steps.
--   Validator     build/csv/validator.py: the loop that parts the rows of a file.
--   GapReport     evals/gap_report.py: the catalogue, `compute_status` and the text of the report.
--   Runner        evals/runner.py: the totals and the exit code of a run, and its summary.
--   Tiers         evals/runner.py: the scenarios of the five tiers, with a child for each, and
--                 `TIER_RUNNERS`; Runner/Run is `main` over them.
--   Signatures    evals/runner.py: `_diff_signatures`, the comparison of two deployed structures.
--   RateLimit     api/ratelimit.py: `SlidingWindowLimiter.check` as `check`, and the middleware.
--   Prelude, Python  shared helpers, and what the interpreter and its library do.
--   Tests         runs and examples.
--
-- A text is the list of its code points. `Runtime` is a parameter for what is no code of the
-- repository: `str.lower`, the Unicode digits, `datetime.fromisoformat`, the limit of `int` and
-- SHA-256; `Crypto` is scrypt and the hash of tokens; `Digest` is the hash and the JSON of an audit
-- row. `Server` and `TeServer` are what the database server decides, and `Others` what other sessions
-- commit while a request runs. `Psql` is psql with the servers behind it, `Lab` what the evaluations
-- find on the machine. The log entries of results are left out.
--
-- Fuel: `fresh` looks for a free column name, with one step for each assigned name and one more; a
-- suffix is tried once, so by the pigeonhole principle a free one comes in time. `insert_chunks` has
-- one step for each row, and each chunk takes a row at least.
--
-- Not modelled: the front end, the shell scripts, the infrastructure, the DDL of the migrations, the
-- subprocesses that the evaluation runner starts, the command-line scripts, the feed of the audit
-- log, the list of T&E tables, the single sign-on, `migrate_tenant`, and the connection pool of the
-- driver.
pub mod Prelude
pub mod Python
pub mod CsvParse
pub mod Config
pub mod Registry
pub mod DynamicLoader
pub mod TeLoader
pub mod Accounts
pub mod Audit
pub mod Review
pub mod Tenancy
pub mod Auth
pub mod SignIn
pub mod Originals
pub mod Routes
pub mod RateLimit
pub mod Startup
pub mod Validator
pub mod GapReport
pub mod Runner
pub mod Signatures
pub mod Tiers
pub mod Tests
