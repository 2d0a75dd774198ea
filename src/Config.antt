-- ===== src/Config.antt =====
-- api/config.py: the settings that the modelled code reads, and `TE_TABLES`. For code that runs in
-- the scope of a request `uploads_schema` and `te_schema` are those of `scoped_settings` in Tenancy.
use postgre_data_migration_a.Prelude.{ℕ, Bool, List, [], ◌∷◌, Text, codes}

pub record Settings : Type 0 where
  pub uploads_schema : Text
  pub te_schema : Text
  pub max_upload_bytes : ℕ
  pub max_rows : ℕ
  pub max_row_errors : ℕ
  pub allow_destructive : Bool
  pub api_key : Text
  pub rate_limit_reads : ℕ
  pub rate_limit_writes : ℕ
  pub login_max_failures : ℕ
  pub login_lockout : ℕ
  pub session_ttl : ℕ

abbrev pub te_tables : List Text
te_tables =
    codes "organisations"
    ∷ codes "personnel"
    ∷ codes "test_programs"
    ∷ codes "temp_documents"
    ∷ codes "test_phases"
    ∷ codes "requirements"
    ∷ codes "test_cases"
    ∷ codes "vcrm_entries"
    ∷ codes "test_events"
    ∷ codes "test_results"
    ∷ codes "defect_reports"
    ∷ codes "evidence_artifacts"
    ∷ []
