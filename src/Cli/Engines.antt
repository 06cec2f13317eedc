-- ===== src/Cli/Engines.antt =====
-- The `_run_workflow` of each engine: poc/baseline/cli.py, poc/temporal/cli.py, poc/restate/cli.py
-- and poc/restate/client.py, less the connection to the engine.
use flink_control_plane_poc.Prelude.{String, ◌<>◌, List, [], ◌∷◌}
use flink_control_plane_poc.Exec.{Result}
use flink_control_plane_poc.Domain.{ClusterError}
use flink_control_plane_poc.Cluster.{MockCluster}
use flink_control_plane_poc.Scenarios.{Scenario, request, source, target}
use flink_control_plane_poc.Saga.{Failed}
use flink_control_plane_poc.Baseline.Saga as PlainSaga
use flink_control_plane_poc.Temporal.Engine.{Service}
use flink_control_plane_poc.Temporal.Proxy.{World}
use flink_control_plane_poc.Temporal.Saga as TemporalSaga
use flink_control_plane_poc.Restate.Steps.{Engine}
use flink_control_plane_poc.Restate.Actor.{Store}
use flink_control_plane_poc.Restate.Saga as RestateSaga

-- on no engine
unfoldable pub plain_workflow :
    Scenario → MockCluster → Result (Failed ClusterError) (List String) × MockCluster
plain_workflow scenario c = PlainSaga.run request c

-- `for family in SEED`
abbrev pub seeded : List String
seeded = source ∷ target ∷ []

module _ (service : Service) (terminate : String → World → World) where
  -- `_clear_actors`, where `terminate` ends the actor of a family or, as what it raises is dropped,
  -- does nothing
  unfoldable pub clear_actors : List String → World → World
  clear_actors [] w = w
  clear_actors (family ∷ rest) w = clear_actors rest (terminate family w)

  -- on Temporal, after the runs that have left `w`
  unfoldable pub temporal_workflow :
      String → World → Scenario → MockCluster → Result TemporalSaga.Raised (List String) × World
  unfolding clear_actors
  temporal_workflow run_id w scenario c =
      TemporalSaga.run service ("move-" <> scenario.name) run_id request
        (clear_actors seeded (record w { files = c }))

module _ (engine : Engine) (call_reset : String → Store → Store) where
  -- `_clear_actors`, where `call_reset` runs the handler `reset` or does nothing
  unfoldable pub clear_states : List String → Store → Store
  clear_states [] s = s
  clear_states (family ∷ rest) s = clear_states rest (call_reset family s)

  -- on Restate, after the runs that have left `s`
  unfoldable pub restate_workflow :
      Store → Scenario → MockCluster → Result RestateSaga.Raised (List String) × Store
  unfolding clear_states
  restate_workflow s scenario c =
      RestateSaga.run engine request (clear_states seeded (record s { files = c }))
