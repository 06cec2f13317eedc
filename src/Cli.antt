-- ===== src/Cli.antt =====
-- poc/cli.py: `_run`, less what it prints. The engine that is asked for is a parameter.
pub mod Failures
pub mod Engines
use flink_control_plane_poc.Prelude.{
  ℕ, String, Bool, true, false, Option, none, some, List, [], ◌∷◌, if◌then◌else◌,
}
use flink_control_plane_poc.Prelude.Equality.{◌==◌, string_eq}
use flink_control_plane_poc.Exec.{Result, ok, err}
use flink_control_plane_poc.Cluster.{MockCluster, blank, seed, set_chaos}
use flink_control_plane_poc.Scenarios.{Scenario, scenarios, seed_families}

-- `SCENARIOS.get(name)`
unfoldable pub find_scenario : String → List Scenario → Option Scenario
find_scenario name [] = none
find_scenario name (scenario ∷ rest) =
    let later = find_scenario name rest in if name == scenario.name then some scenario else later

-- 1 if the run ended against the scenario's expectation
unfoldable exit_code : Bool → Bool → ℕ
exit_code true true = 0
exit_code false false = 0
exit_code true false = 1
exit_code false true = 1

abbrev is_error : {E A : Type 0} → Result E A → Bool
is_error (ok _) = false
is_error (err _) = true

-- `if root.exists(): shutil.rmtree(root)`
unfoldable pub remove_existing : Option MockCluster → Option MockCluster
remove_existing none = none
remove_existing (some c) = none

-- `MockCluster(root)`
unfoldable pub open_root : Option MockCluster → MockCluster
open_root none = blank
open_root (some c) = c

-- The directory that the workflow of a scenario finds, after what `root` was before.
unfoldable pub prepare : Scenario → Option MockCluster → MockCluster
unfolding remove_existing open_root
prepare scenario root =
    let cluster = open_root (remove_existing root) in
    set_chaos scenario.chaos (seed seed_families cluster)

-- The exit code, with what the run of a known scenario leaves; nothing is touched for another.
unfoldable pub run_scenario :
    {S E : Type 0}
    → (Scenario → MockCluster → Result E (List String) × S)
    → String
    → Option MockCluster
    → ℕ × Option S
unfolding find_scenario prepare exit_code
run_scenario workflow name root = elim (find_scenario name scenarios) [
  | none ↦ (2, none)
  | some scenario ↦
      (let (r, s) = workflow scenario (prepare scenario root) in
        (exit_code scenario.expect_failure (is_error r), some s))
]
