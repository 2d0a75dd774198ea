-- ===== src/Tiers/Together.antt =====
-- `TIER_RUNNERS` of evals/runner.py: the scenarios of all tiers, and `main` over them.
use postgre_data_migration_a.Prelude.{
  ℕ, Bool, true, Option, none, some, ◌⊎◌, List, ◌≡◌, subst, Text, codes, same, member,
  if◌then◌else◌,
}
use postgre_data_migration_a.Python.{Runtime}
use postgre_data_migration_a.Signatures.{Signature}
use postgre_data_migration_a.Runner.Run.{tiers_of, discover_scenarios, main}
use postgre_data_migration_a.Runner.Run.Passing.{main-Passes, Passes-member}
use postgre_data_migration_a.Tiers.{Report, Psql, ◌>>=◌, bind-some, some_pair}
use postgre_data_migration_a.Tiers.Validation
use postgre_data_migration_a.Tiers.Validation.{run_tier_p_scenario}
use postgre_data_migration_a.Tiers.Twice
use postgre_data_migration_a.Tiers.Twice.{run_tier_i_scenario}
use postgre_data_migration_a.Tiers.Suite
use postgre_data_migration_a.Tiers.Suite.{Floats, run_tier_s_scenario}
use postgre_data_migration_a.Tiers.Parity
use postgre_data_migration_a.Tiers.Parity.{run_tier_e_scenario}
use postgre_data_migration_a.Tiers.Parity.Identical.{Alike, run_tier_e_scenario-Alike}
use postgre_data_migration_a.Tiers.Engine
use postgre_data_migration_a.Tiers.Engine.{run_tier_x_scenario}

-- What the scenarios find: the expected files, the inputs, the DDL of SQLite, and the programs.
pub record Lab (W : Type 0) : Type 1 where
  pub rt : Runtime
  pub floats : Floats
  pub psql : Psql W
  pub launch : Validation.Setup → Option Validation.Run
  pub sqlite : Text → Text ⊎ Signature
  pub ddl : Option Text
  pub input : Text → Option (List ℕ)
  pub expected_p : Text → Option Validation.Expected
  pub expected_i : Text → Option Twice.Expected
  pub expected_s : Text → Option (Suite.Expected floats)
  pub expected_e : Text → Option Parity.Expected
  pub expected_x : Text → Option Engine.Expected

module _ {W : Type 0} where
  abbrev pub passed_of {ℓ} : {E : Type ℓ} → Option (Report E × W) → Option (Bool × W)
  passed_of o = do r ← o; some (r.0.passed, r.1)

  -- Of tier P, which does not reach the databases.
  abbrev pub passed_p : Option (Report Validation.Problem) → W → Option (Bool × W)
  passed_p o w = do r ← o; some (r.passed, w)

  -- `TIER_RUNNERS[t](s)`; another tier is the KeyError that `main` prevents.
  unfoldable pub run_scenario : Lab W → Text → Text → W → Option (Bool × W)
  unfolding run_tier_p_scenario run_tier_i_scenario run_tier_s_scenario run_tier_e_scenario
      run_tier_x_scenario
  run_scenario lab tier name w =
      let p = run_tier_p_scenario lab.launch (lab.expected_p name) (lab.input name) in
      let i = run_tier_i_scenario lab.rt lab.psql (lab.expected_i name) name w in
      let s = run_tier_s_scenario lab.rt lab.floats lab.psql (lab.expected_s name) name w in
      let e = run_tier_e_scenario lab.psql (lab.expected_e name) name w in
      let x = run_tier_x_scenario lab.sqlite (lab.expected_x name) name lab.ddl in
      if same tier (codes "p")
      then passed_p p w
      else if same tier (codes "i")
      then passed_of i
      else if same tier (codes "s")
      then passed_of s
      else if same tier (codes "e")
      then passed_of e
      else if same tier (codes "x")
      then some (x.passed, w)
      else none

  -- If `main` exits with 0, tier E was asked for, and a scenario of it that was discovered expects
  -- equal structures, then there were deployments of the environments under test whose structures
  -- were seen to be alike, as its expected file wants.
  pub main-Alike :
      (lab : Lab W) (validator : Bool) (folders : Text → List Text) (tiers name : Text)
      (only : Option Text) (exp : Parity.Expected) (w v : W)
      → main (run_scenario lab) lab.rt validator folders tiers only w ≡ some (0, v)
      → member (codes "e") (tiers_of lab.rt tiers) ≡ true
      → member name (discover_scenarios folders (codes "e") only) ≡ true
      → lab.expected_e name ≡ some exp
      → exp.column_signature_identical_across_envs ≡ true
      → (before : W) × (behind : W) × Alike lab.psql exp before behind
  unfolding run_scenario
  main-Alike lab validator folders tiers name only exp w v ended asked discovered expected wanted =
      let passing = main-Passes (run_scenario lab) lab.rt validator folders tiers only w v ended in
      let (before, behind, executed) =
        Passes-member (run_scenario lab) (λ tier. discover_scenarios folders tier only) (codes "e")
          name (tiers_of lab.rt tiers) w v asked discovered passing in
      let (report, ran, e1) =
        bind-some (run_tier_e_scenario lab.psql (lab.expected_e name) name before) _ executed in
      let known =
        subst (λ o. run_tier_e_scenario lab.psql o name before ≡ some report) expected ran in
      (
        before,
        report.1,
        run_tier_e_scenario-Alike lab.psql exp name before report.1 report.0 wanted known
            (some_pair e1).0,
      )
