-- ===== src/Evidence/Independence.antt =====
-- The runs of the scenarios one after another in one directory, by the command line of Cli on no engine.
use flink_control_plane_poc.Prelude.{
  String, ◌≡◌, ◌≢◌, refl, ap, ◌∙◌, Option, none, some, List, [], ◌∷◌, map, inl, inr, Option-cases,
}
use flink_control_plane_poc.Prelude.Lists.{All}
use flink_control_plane_poc.Cluster.{MockCluster}
use flink_control_plane_poc.Scenarios.{Scenario, scenarios}
use flink_control_plane_poc.Cli.{find_scenario, prepare, remove_existing, run_scenario}
use flink_control_plane_poc.Cli.Engines.{plain_workflow}
use flink_control_plane_poc.Evidence.{WorkflowEngine, run_engine}

-- what a run leaves in its directory, if there is such a scenario
unfoldable pub left_by : String → Option MockCluster → Option MockCluster
unfolding run_scenario
left_by name root = (run_scenario plain_workflow name root).1

-- the directory after a run of `poc.cli`, which touches it for a known scenario only
unfoldable pub run_cli : String → Option MockCluster → Option MockCluster
unfolding left_by
run_cli name root = elim (left_by name root) [ none ↦ root | some c ↦ some c ]

prepare-anew :
    (scenario : Scenario) (root : Option MockCluster)
    → prepare scenario root ≡ prepare scenario none
unfolding prepare remove_existing
prepare-anew scenario none = refl
prepare-anew scenario (some c) = refl

known-left_by :
    (name : String) (root : Option MockCluster)
    → find_scenario name scenarios ≢ none
    → run_cli name root ≡ left_by name none
unfolding run_cli left_by run_scenario
known-left_by name root known = elim (Option-cases (find_scenario name scenarios)) [
  | inl missing ↦ absurd (known missing)
  | inr (scenario, found) ↦
      rw (run_cli, left_by, run_scenario, found, prepare-anew scenario root) refl
]

-- Whatever has run in the directory before, the evidence of each scenario on no engine is what its own
-- run leaves where there was no directory at all, if all names are those of scenarios.
pub run_engine-run_cli :
    (names : List String) (root : Option MockCluster)
    → All (λ name. find_scenario name scenarios ≢ none) names
    → (run_engine (λ engine. run_cli) WorkflowEngine.plain names root).0
      ≡ map (λ name. left_by name none) names
unfolding run_engine
run_engine-run_cli [] root known = refl
run_engine-run_cli (name ∷ rest) root (first, known) =
    ap (λ copies. run_cli name root ∷ copies) (run_engine-run_cli rest (run_cli name root) known)
    ∙ ap (λ copy. copy ∷ map (λ name. left_by name none) rest) (known-left_by name root first)
