-- ===== src/GapReport/Markdown.antt =====
-- `generate_markdown` of evals/gap_report.py. The time and the text that `json.dumps` makes of the
-- totals are arguments.
use postgre_data_migration_a.Prelude.{
  ℕ, ◌+◌, Bool, true, false, List, [], ◌∷◌, ◌++◌, Text, codes, if◌then◌else◌,
}
use postgre_data_migration_a.Python.Decimal.{str}
use postgre_data_migration_a.GapReport.Types.{
  Outcome, Br, Status, verified, partly, regression, skipped, unverified, out_of_band, out_of_scope,
  status_icon, Verdict,
}
use postgre_data_migration_a.GapReport.Catalogue.{br_catalogue}
use postgre_data_migration_a.GapReport.{join, compute_status, Scenario, outcomes_by_tier}

abbrev pub is_status : Status → Status → Bool
is_status verified verified = true
is_status partly partly = true
is_status regression regression = true
is_status skipped skipped = true
is_status unverified unverified = true
is_status out_of_band out_of_band = true
is_status out_of_scope out_of_scope = true
is_status _ _ = false

abbrev pub statuses : List Status
statuses = verified ∷ partly ∷ regression ∷ skipped ∷ unverified ∷ out_of_band ∷ out_of_scope ∷ []

-- `{k: 0 for k in STATUS_ICONS}`.
abbrev pub no_counts : List Status → List (Status × ℕ)
no_counts [] = []
no_counts (s ∷ ss) = (s, 0) ∷ no_counts ss

-- `counts[s] += 1`.
abbrev pub add_one : Status → List (Status × ℕ) → List (Status × ℕ)
add_one s [] = []
add_one s (c ∷ cs) =
    let rest = add_one s cs in if is_status c.0 s then (c.0, c.1 + 1) ∷ cs else c ∷ rest

-- `counts.get(s, 0)`.
abbrev pub count_of : Status → List (Status × ℕ) → ℕ
count_of s [] = 0
count_of s (c ∷ cs) = let rest = count_of s cs in if is_status c.0 s then c.1 else rest

-- `rows` of `generate_markdown`.
unfoldable pub rows_of : List (Text × List (Text × Outcome)) → List Br → List (Br × Verdict)
rows_of by_tier [] = []
rows_of by_tier (br ∷ brs) = (br, compute_status br by_tier) ∷ rows_of by_tier brs

-- `counts` behind the loop.
unfoldable pub counts_from : List (Status × ℕ) → List (Br × Verdict) → List (Status × ℕ)
counts_from counts [] = counts
counts_from counts (row ∷ rows) = counts_from (add_one row.1.status counts) rows

unfoldable pub with_status : Status → List (Br × Verdict) → List (Br × Verdict)
with_status s [] = []
with_status s (row ∷ rows) =
    let rest = with_status s rows in if is_status row.1.status s then row ∷ rest else rest

abbrev pub count_line : Text → Status → Text → List (Status × ℕ) → Text
count_line label s meaning counts =
    codes "| "
    ++ label
    ++ codes " | "
    ++ str (count_of s counts)
    ++ codes " | "
    ++ meaning
    ++ codes " |"

abbrev pub summary_lines : List (Status × ℕ) → List Text
summary_lines counts =
    codes "## Summary"
    ∷ []
    ∷ codes "| Status | Count | Meaning |"
    ∷ codes "|--------|------:|---------|"
    ∷ count_line (codes "VERIFIED   ") verified (codes "Baseline=full and >=1 covering eval passed")
        counts
    ∷ count_line (codes "PARTIAL    ") partly (codes "Baseline=partial; some aspects verified")
        counts
    ∷ count_line (codes "REGRESSION ") regression
        (codes "A covering eval FAILED this run - investigate") counts
    ∷ count_line (codes "SKIPPED    ") skipped
        (codes "All covering evals skipped (e.g. PG unavailable)") counts
    ∷ count_line (codes "UNVERIFIED ") unverified (codes "No covering eval - this is a real gap")
        counts
    ∷ count_line (codes "OUT-OF-BAND") out_of_band (codes "Verified by PU/SQL suites, not by evals")
        counts
    ∷ count_line (codes "DEFERRED   ") out_of_scope (codes "Out-of-scope by project decision")
        counts
    ∷ []
    ∷ []

abbrev pub title_line : Br → Text
title_line br = codes "- **" ++ br.id ++ codes "** " ++ br.title

abbrev pub indented : List Text → List Text
indented [] = []
indented (d ∷ ds) = (codes "  - " ++ d) ∷ indented ds

abbrev pub regression_lines : List (Br × Verdict) → List Text
regression_lines [] = []
regression_lines (row ∷ rows) = (title_line row.0 ∷ indented row.1.details) ++ regression_lines rows

abbrev pub unverified_lines : List (Br × Verdict) → List Text
unverified_lines [] = []
unverified_lines (row ∷ rows) =
    title_line row.0 ∷ (codes "  - " ++ row.0.notes) ∷ unverified_lines rows

abbrev pub skipped_lines : List (Br × Verdict) → List Text
skipped_lines [] = []
skipped_lines (row ∷ rows) = title_line row.0 ∷ skipped_lines rows

-- A section is left out where it has no lines.
abbrev pub section : Text → List Text → List Text
section title [] = []
section title (line ∷ lines) = title ∷ [] ∷ (line ∷ lines) ++ ([] ∷ [])

abbrev pub evidence_of : List Text → Text
evidence_of [] = codes "-"
evidence_of (d ∷ details) = join (codes "; ") (d ∷ details)

abbrev pub table_lines : List (Br × Verdict) → List Text
table_lines [] = []
table_lines (row ∷ rows) =
    (codes "| "
      ++ row.0.id
      ++ codes " | "
      ++ status_icon row.1.status
      ++ codes " | "
      ++ row.0.title
      ++ codes " | "
      ++ evidence_of row.1.details
      ++ codes " |")
    ∷ table_lines rows

-- What `generate_markdown` reads of summary.json and of the clock.
pub record Summary : Type 0 where
  pub run_id : Text
  pub started_at : Text
  pub totals : Text
  pub now : Text
  pub scenarios : List Scenario

abbrev pub head_lines : Summary → List Text
head_lines summary =
    (codes "# VCRM Gap Report - run " ++ summary.run_id)
    ∷ []
    ∷ (codes "Generated: " ++ summary.now)
    ∷ (codes "Run started: " ++ summary.started_at)
    ∷ (codes "Tier eval totals: " ++ summary.totals)
    ∷ []
    ∷ codes "Auto-generated by `evals/gap_report.py` at the end of `evals/runner.py`."
    ∷ codes
        "Reflects this run's outcomes only. For the static catalogue see `docs/VCRM.md` and `docs/VCRM_GAPS.md`."
    ∷ []
    ∷ codes "---"
    ∷ []
    ∷ []

abbrev pub summary_rows : Summary → List (Br × Verdict)
summary_rows summary = rows_of (outcomes_by_tier summary.scenarios) br_catalogue

abbrev pub summary_counts : Summary → List (Status × ℕ)
summary_counts summary = counts_from (no_counts statuses) (summary_rows summary)

unfoldable pub markdown_lines : Summary → List Text
unfolding rows_of counts_from with_status
markdown_lines summary =
    let rows = summary_rows summary in
    head_lines summary
    ++ summary_lines (summary_counts summary)
    ++ section (codes "## REGRESSIONS - investigate before release")
        (regression_lines (with_status regression rows))
    ++ section (codes "## Unverified - no eval coverage")
        (unverified_lines (with_status unverified rows))
    ++ section (codes "## Skipped this run - re-run with PG to verify")
        (skipped_lines (with_status skipped rows))
    ++ (codes "## Per-requirement status (all 22 BRs)"
        ∷ []
        ∷ codes "| ID | Status | Title | Evidence (this run) |"
        ∷ codes "|----|--------|-------|---------------------|"
        ∷ table_lines rows)
    ++ ([]
        ∷ codes "---"
        ∷ []
        ∷ codes
            "Companion: `docs/VCRM.md` (catalogue), `docs/VCRM_GAPS.md` (static gap analysis), `docs/TEST_CONDITIONS.md` (every test)."
        ∷ [])

unfoldable pub generate_markdown : Summary → Text
unfolding markdown_lines
generate_markdown summary = join (b'\n' ∷ []) (markdown_lines summary) ++ (b'\n' ∷ [])
