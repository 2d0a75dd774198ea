-- ===== src/GapReport/Catalogue.antt =====
-- `BR_CATALOGUE` of evals/gap_report.py.
use postgre_data_migration_a.Prelude.{List, [], ◌∷◌, ◌++◌, codes, true, false}
use postgre_data_migration_a.GapReport.Types.{full, partial, gap, deferred, Br}

-- The functional requirements.
unfoldable pub functional_brs : List Br
functional_brs =
    record {
      id = codes "BR-01";
      title = codes "Multi-environment deployment (Dev/Test/Staging/Prod isolated)";
      category = codes "Functional";
      covering_evals = ((codes "s", (codes "01_fresh_deploy_then_all_tests_pass" ∷ [])) ∷ []);
      baseline = partial;
      notes = codes "Test/Staging/Prod structural parity not asserted (Tier E gap)";
      oob_layers = [];
      implicitly_verified = false;
      skip_means_verified = false;
    }
    ∷ record {
      id = codes "BR-02";
      title = codes "Six DB engines supported via adapters";
      category = codes "Functional";
      covering_evals = [];
      baseline = gap;
      notes = codes "No non-PG engine has any test coverage (Tier X gap)";
      oob_layers = [];
      implicitly_verified = false;
      skip_means_verified = false;
    }
    ∷ record {
      id = codes "BR-03";
      title = codes "Schema is fully parameterised via \\set";
      category = codes "Functional";
      covering_evals = ((codes "s", (codes "01_fresh_deploy_then_all_tests_pass" ∷ [])) ∷ []);
      baseline = full;
      notes = codes "Tier S passes --set overrides; if those resolve, parameterisation works";
      oob_layers = [];
      implicitly_verified = false;
      skip_means_verified = false;
    }
    ∷ record {
      id = codes "BR-04";
      title = codes "12-table T&E data model present";
      category = codes "Functional";
      covering_evals =
          ((codes "i", (codes "01_deploy_dev_twice" ∷ []))
            ∷ (codes "s", (codes "01_fresh_deploy_then_all_tests_pass" ∷ []))
            ∷ []);
      baseline = full;
      notes = codes "Tier I counts 11 of 12 tables (evidence_artifacts is schema-only)";
      oob_layers = [];
      implicitly_verified = false;
      skip_means_verified = false;
    }
    ∷ record {
      id = codes "BR-05";
      title = codes "100% VCRM coverage for CYB9131 + gap detection for LAND400";
      category = codes "Functional";
      covering_evals = ((codes "s", (codes "01_fresh_deploy_then_all_tests_pass" ∷ [])) ∷ []);
      baseline = full;
      notes = codes "SQL suite 03 contains 23 assertions dedicated to this";
      oob_layers = [];
      implicitly_verified = false;
      skip_means_verified = false;
    }
    ∷ record {
      id = codes "BR-06";
      title = codes "TEMP versioning (draft -> approved -> superseded)";
      category = codes "Functional";
      covering_evals = ((codes "s", (codes "01_fresh_deploy_then_all_tests_pass" ∷ [])) ∷ []);
      baseline = full;
      notes = codes "SQL suite 02 sequencing assertions";
      oob_layers = [];
      implicitly_verified = false;
      skip_means_verified = false;
    }
    ∷ record {
      id = codes "BR-07";
      title = codes "Test result verdict enum + linkage";
      category = codes "Functional";
      covering_evals = ((codes "s", (codes "01_fresh_deploy_then_all_tests_pass" ∷ [])) ∷ []);
      baseline = full;
      notes = codes "SQL suite 04 verdict assertions";
      oob_layers = [];
      implicitly_verified = false;
      skip_means_verified = false;
    }
    ∷ record {
      id = codes "BR-08";
      title = codes "DR severity + resolved_at lifecycle";
      category = codes "Functional";
      covering_evals = ((codes "s", (codes "01_fresh_deploy_then_all_tests_pass" ∷ [])) ∷ []);
      baseline = full;
      notes = codes "SQL suite 04 DR assertions";
      oob_layers = [];
      implicitly_verified = false;
      skip_means_verified = false;
    }
    ∷ record {
      id = codes "BR-09";
      title = codes "Idempotent deployment";
      category = codes "Functional";
      covering_evals =
          ((codes "i", (codes "01_deploy_dev_twice" ∷ []))
            ∷ (codes "s", (codes "01_fresh_deploy_then_all_tests_pass" ∷ []))
            ∷ []);
      baseline = full;
      notes = codes "Tier I is the canonical verifier";
      oob_layers = [];
      implicitly_verified = false;
      skip_means_verified = false;
    }
    ∷ record {
      id = codes "BR-10";
      title = codes "CSV pre-ingestion validation rejects malformed input";
      category = codes "Functional";
      covering_evals =
          ((
            codes "p",
            (codes "02_empty_file"
                ∷ codes "03_empty_header_only_newline"
                ∷ codes "04_no_valid_rows"
                ∷ codes "07_column_mismatch_short"
                ∷ codes "08_column_mismatch_long"
                ∷ codes "19_missing_env_vars"
                ∷ codes "20_missing_csv_file"
                ∷ codes "23_invalid_utf8_bytes"
                ∷ []),
          )
            ∷ []);
      baseline = full;
      notes = codes "8 Tier P scenarios + Python unit tests 1, 2, 4, 8 (out-of-band)";
      oob_layers = (codes "PU" ∷ []);
      implicitly_verified = false;
      skip_means_verified = false;
    }
    ∷ record {
      id = codes "BR-11";
      title = codes "Valid / skip row separation with reasons";
      category = codes "Functional";
      covering_evals =
          ((
            codes "p",
            (codes "05_mixed_valid_skipped"
                ∷ codes "09_empty_row"
                ∷ codes "16_whitespace_only_row"
                ∷ []),
          )
            ∷ []);
      baseline = full;
      notes = codes "3 Tier P scenarios + Python unit test 3 (out-of-band)";
      oob_layers = (codes "PU" ∷ []);
      implicitly_verified = false;
      skip_means_verified = false;
    }
    ∷ record {
      id = codes "BR-12";
      title = codes "Clearance enum {baseline,NV1,NV2,PV}";
      category = codes "Functional";
      covering_evals = ((codes "s", (codes "01_fresh_deploy_then_all_tests_pass" ∷ [])) ∷ []);
      baseline = full;
      notes = codes "SQL suite 01 personnel assertions";
      oob_layers = [];
      implicitly_verified = false;
      skip_means_verified = false;
    }
    ∷ record {
      id = codes "BR-13";
      title = codes "ISM classification marking enum";
      category = codes "Functional";
      covering_evals = ((codes "s", (codes "01_fresh_deploy_then_all_tests_pass" ∷ [])) ∷ []);
      baseline = full;
      notes = codes "SQL suite 02 test_programs assertions";
      oob_layers = [];
      implicitly_verified = false;
      skip_means_verified = false;
    }
    ∷ record {
      id = codes "BR-14";
      title = codes "Phase type enum (DT&E/AT&E/OT&E/...)";
      category = codes "Functional";
      covering_evals = ((codes "s", (codes "01_fresh_deploy_then_all_tests_pass" ∷ [])) ∷ []);
      baseline = full;
      notes = codes "SQL suite 02 phase_type assertions";
      oob_layers = [];
      implicitly_verified = false;
      skip_means_verified = false;
    }
    ∷ record {
      id = codes "BR-15";
      title = codes "Per-environment connection limits enforced";
      category = codes "Functional";
      covering_evals = [];
      baseline = gap;
      notes = codes "No test asserts pg_roles.rolconnlimit. 1-hour fix available.";
      oob_layers = [];
      implicitly_verified = false;
      skip_means_verified = false;
    }
    ∷ []

-- The others: quality, and out of scope.
unfoldable pub other_brs : List Br
other_brs =
    record {
      id = codes "BR-16";
      title = codes "Automated single-command regression";
      category = codes "Quality";
      covering_evals =
          ((codes "p", (codes "__any__" ∷ []))
            ∷ (codes "i", (codes "__any__" ∷ []))
            ∷ (codes "s", (codes "__any__" ∷ []))
            ∷ []);
      baseline = full;
      notes = codes "If the runner produced any per-tier output, this BR is met";
      oob_layers = [];
      implicitly_verified = false;
      skip_means_verified = false;
    }
    ∷ record {
      id = codes "BR-17";
      title = codes "Graceful degradation when PG unavailable";
      category = codes "Quality";
      covering_evals =
          ((codes "i", (codes "01_deploy_dev_twice" ∷ []))
            ∷ (codes "s", (codes "01_fresh_deploy_then_all_tests_pass" ∷ []))
            ∷ []);
      baseline = full;
      notes = codes "A clean SKIP outcome IS the verification - SKIPPED counts as verified here";
      oob_layers = [];
      implicitly_verified = false;
      skip_means_verified = true;
    }
    ∷ record {
      id = codes "BR-18";
      title = codes "Machine-readable JSON report per run";
      category = codes "Quality";
      covering_evals = [];
      baseline = full;
      notes = codes "Implicitly verified: if you're reading this file, summary.json was written";
      oob_layers = (codes "PU" ∷ []);
      implicitly_verified = true;
      skip_means_verified = false;
    }
    ∷ record {
      id = codes "BR-19";
      title = codes "Build/tests/evals physically segregated";
      category = codes "Quality";
      covering_evals = [];
      baseline = full;
      notes = codes "Verified by Inspection (docs/ARCHITECTURE.md + folder layout)";
      oob_layers = (codes "Inspection" ∷ []);
      implicitly_verified = true;
      skip_means_verified = false;
    }
    ∷ record {
      id = codes "BR-20";
      title = codes "85/85 SQL assertions pass";
      category = codes "Quality";
      covering_evals = ((codes "s", (codes "01_fresh_deploy_then_all_tests_pass" ∷ [])) ∷ []);
      baseline = full;
      notes = codes "Tier S asserts min_total_assertions=85 and pass_rate=100%";
      oob_layers = [];
      implicitly_verified = false;
      skip_means_verified = false;
    }
    ∷ record {
      id = codes "BR-21";
      title = codes "Cross-engine schema equivalence";
      category = codes "Out of scope";
      covering_evals = [];
      baseline = deferred;
      notes = codes "Deferred per evals/FAILURE_MODES.md";
      oob_layers = [];
      implicitly_verified = false;
      skip_means_verified = false;
    }
    ∷ record {
      id = codes "BR-22";
      title = codes "Performance at >= 1M rows";
      category = codes "Out of scope";
      covering_evals = [];
      baseline = deferred;
      notes = codes "Deferred per evals/HANDOFF.md";
      oob_layers = [];
      implicitly_verified = false;
      skip_means_verified = false;
    }
    ∷ []

unfoldable pub br_catalogue : List Br
unfolding functional_brs other_brs
br_catalogue = functional_brs ++ other_brs
