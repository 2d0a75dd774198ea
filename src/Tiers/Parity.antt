-- ===== src/Tiers/Parity.antt =====
-- Tier E of evals/runner.py: the deployments of the four environments, compared.
pub mod Clean
pub mod Identical
use postgre_data_migration_a.Prelude.{
  ℕ, ◌-◌, drop, Bool, true, false, ◌&&◌, not, Option, none, some, List, [], ◌∷◌, ◌++◌, map, Text,
  codes, same, member, length, ltb, ◌==◌, if◌then◌else◌,
}
use postgre_data_migration_a.Python.{strip}
use postgre_data_migration_a.Python.Lines.{splitlines, split_on}
use postgre_data_migration_a.GapReport.{put}
use postgre_data_migration_a.Signatures.{Signature, sorted, diff_signatures}
use postgre_data_migration_a.Tiers.{
  Code, exited, same_code, success, Process, Report, refuse, conclude, unless, Psql, ◌>>=◌,
}

-- `ENV_TARGETS`: the environment, its database and its schema.
pub record Target : Type 0 where
  pub env : Text
  pub db : Text
  pub schema : Text

abbrev pub env_targets : List Target
env_targets =
    record { env = codes "dev"; db = codes "te_mgmt_dev"; schema = codes "te_dev" }
    ∷ record { env = codes "test"; db = codes "te_mgmt_test"; schema = codes "te_test" }
    ∷ record { env = codes "staging"; db = codes "te_mgmt_staging"; schema = codes "te_staging" }
    ∷ record { env = codes "prod"; db = codes "te_mgmt_prod"; schema = codes "te_prod" }
    ∷ []

-- An expected file of the tier. The three flags and the number are those of its `expected`.
pub record Expected : Type 0 where
  pub envs_under_test : Option (List Text)
  pub reference_env : Option Text
  pub all_envs_deploy_exit_zero : Bool
  pub column_signature_identical_across_envs : Bool
  pub min_tables_per_env : Option ℕ

pub data Problem : Type 0 where
  no_expected_file : Problem
  not_reachable : Problem
  unknown_scenario : Text → Problem
  query_failed : Text → Text → Problem
  deploy_failed : Text → Option Code → Problem
  few_tables : Text → ℕ → Problem
  no_reference : Text → Problem
  different : Text → Problem

abbrev pub launcher_of : Text → Text
launcher_of env = codes "build/environments/env_" ++ (env ++ codes ".sql")

abbrev pub example_of : Text → Text
example_of env = codes "build/environments/env_" ++ (env ++ codes ".example.sql")

-- `column + ":" + dtype + ":" + nullable` of a line of four parts, with its table.
abbrev pub column_of : List Text → Option (Text × Text)
column_of (table ∷ column ∷ dtype ∷ nullable ∷ []) =
    some
      (strip table, strip column ++ (codes ":" ++ (strip dtype ++ (codes ":" ++ strip nullable))))
column_of _ = none

-- `sig.setdefault(table, []).append(…)`.
abbrev pub add_column : Option (Text × Text) → Signature → Signature
add_column none sig = sig
add_column (some (table, column)) sig = put table [] (λ columns. columns ++ (column ∷ [])) sig

unfoldable pub read_columns : List Text → Signature → Signature
unfolding split_on strip
read_columns [] sig = sig
read_columns (line ∷ lines) sig =
    read_columns lines (add_column (column_of (split_on b'|' line)) sig)

-- `_column_signature`, of the finished query: a failed one is the RuntimeError.
unfoldable pub column_signature : Process → Option Signature
unfolding read_columns splitlines
column_signature r =
    if same_code r.code success then some (read_columns (splitlines r.stdout) []) else none

-- `text[-300:]`.
abbrev pub last_300 : Text → Text
last_300 text = drop (length text - 300) text

-- A deployment: the environment and its exit code, if there was a launcher.
abbrev pub Deploy : Type 0
Deploy = Text × Option Code

abbrev pub is_success : Option Code → Bool
is_success none = false
is_success (some code) = same_code code success

-- `if d.get("exit_code") != 0`, for each deployment.
unfoldable pub deploy_problems : List Deploy → List Problem
deploy_problems [] = []
deploy_problems (d ∷ deploys) =
    unless (is_success d.1) (deploy_failed d.0 d.1) ++ deploy_problems deploys

-- A signature, or what the failed query wrote; in that case the signature is empty.
pub record Queried : Type 0 where
  pub env : Text
  pub signature : Signature
  pub error : Option Text

abbrev pub query_problem : Queried → List Problem
query_problem q = elim q.error [ none ↦ [] | some text ↦ query_failed q.env text ∷ [] ]

unfoldable pub query_problems : List Queried → List Problem
query_problems [] = []
query_problems (q ∷ qs) = query_problem q ++ query_problems qs

-- The entry of an environment.
abbrev pub signature_of : Text → List Queried → Option Signature
signature_of env [] = none
signature_of env (q ∷ qs) =
    let rest = signature_of env qs in if same env q.env then some q.signature else rest

abbrev pub or_empty : Option Signature → Signature
or_empty none = []
or_empty (some s) = s

-- The loop over `sorted(table_counts.items())`.
unfoldable pub count_problems : ℕ → List Queried → List Text → List Problem
count_problems n qs [] = []
count_problems n qs (env ∷ envs) =
    let count = length (or_empty (signature_of env qs)) in
    unless (not (ltb count n)) (few_tables env count) ++ count_problems n qs envs

-- `errors.extend(_diff_signatures(…))`, for each other environment.
unfoldable pub compare_problems : Text → Signature → List Queried → List Text → List Problem
unfolding diff_signatures
compare_problems ref_env ref qs [] = []
compare_problems ref_env ref qs (env ∷ envs) =
    let diffs = map different (diff_signatures ref_env ref env (or_empty (signature_of env qs))) in
    (if same env ref_env then [] else diffs) ++ compare_problems ref_env ref qs envs

-- `if not ref`.
abbrev pub reference_problems : Text → Option Signature → List Queried → List Text → List Problem
reference_problems ref_env none qs envs = no_reference ref_env ∷ []
reference_problems ref_env (some []) qs envs = no_reference ref_env ∷ []
reference_problems ref_env (some (e ∷ ref)) qs envs = compare_problems ref_env (e ∷ ref) qs envs

abbrev pub or_else {ℓ} : {A : Type ℓ} → Option A → A → A
or_else none a = a
or_else (some b) a = b

abbrev pub if_wanted : Bool → List Problem → List Problem
if_wanted wanted problems = if wanted then problems else []

unfoldable pub problems_of : Expected → List Deploy → List Queried → List Problem
unfolding deploy_problems query_problems count_problems compare_problems sorted
problems_of exp deploys qs =
    let envs = sorted (map (λ q. q.env) qs) in
    let ref_env = or_else exp.reference_env (codes "dev") in
    query_problems qs
    ++ (if_wanted exp.all_envs_deploy_exit_zero (deploy_problems deploys)
        ++ (count_problems (or_else exp.min_tables_per_env 12) qs envs
            ++ if_wanted exp.column_signature_identical_across_envs
                (reference_problems ref_env (signature_of ref_env qs) qs envs)))

abbrev pub targets_of : Option (List Text) → List Target → List Target
targets_of none targets = targets
targets_of (some envs) [] = []
targets_of (some envs) (t ∷ targets) =
    let rest = targets_of (some envs) targets in if member t.env envs then t ∷ rest else rest

abbrev pub error_of : Process → Option Signature → Option Text
error_of r none = some (last_300 (strip r.stderr))
error_of r (some sig) = none

-- The `try` around `_column_signature`.
abbrev pub queried : Text → Process → Queried
queried env r = record {
  env = env;
  signature = or_empty (column_signature r);
  error = error_of r (column_signature r);
}

module _ {W : Type 0} (psql : Psql W) where
  abbrev pub launch : Text → Text → W → Option (Deploy × W)
  launch env script w = do r ← psql.run_file script w; some ((env, some r.0.code), r.1)

  -- `_deploy_env`.
  abbrev pub deploy_env : Text → W → Option (Deploy × W)
  deploy_env env w =
      let own = launch env (launcher_of env) w in
      let example = launch env (example_of env) w in
      if psql.exists (launcher_of env)
      then own
      else if psql.exists (example_of env)
      then example
      else some ((env, none), w)

  unfoldable pub deploy_all : List Target → W → Option (List Deploy × W)
  deploy_all [] w = some ([], w)
  deploy_all (t ∷ targets) w = do
    d ← deploy_env t.env w
    rest ← deploy_all targets d.1
    some (d.0 ∷ rest.0, rest.1)

  unfoldable pub query_all : List Target → W → Option (List Queried)
  unfolding column_signature strip
  query_all [] w = some []
  query_all (t ∷ targets) w = do
    r ← psql.columns t.db t.schema w
    rest ← query_all targets w
    some (queried t.env r ∷ rest)

  -- `_run_envs_have_identical_structure`.
  unfoldable pub envs_have_identical_structure : Expected → W → Option (Report Problem × W)
  unfolding deploy_all query_all problems_of
  envs_have_identical_structure exp w = do
    deployed ← deploy_all (targets_of exp.envs_under_test env_targets) w
    qs ← query_all (targets_of exp.envs_under_test env_targets) deployed.1
    some (conclude (problems_of exp deployed.0 qs), deployed.1)

  -- `run_tier_e_scenario`; `none` is an exception.
  unfoldable pub run_tier_e_scenario : Option Expected → Text → W → Option (Report Problem × W)
  unfolding envs_have_identical_structure
  run_tier_e_scenario none name w = some (refuse no_expected_file, w)
  run_tier_e_scenario (some exp) name w =
      let ran = envs_have_identical_structure exp w in
      if not (psql.connects w)
      then some (refuse not_reachable, w)
      else if same name (codes "01_envs_have_identical_structure")
      then ran
      else some (refuse (unknown_scenario name), w)
