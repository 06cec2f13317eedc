-- ===== src/Restate/Actor.antt =====
-- poc/restate/actor.py. A handler runs under the key of its family, so it takes the name. The
-- results that the saga does not use are dropped.
use flink_control_plane_poc.Prelude.{
  String, Bool, true, false, Option, none, some, List, ◌||◌, if◌then◌else◌,
}
use flink_control_plane_poc.Prelude.Equality.{◌==◌, string_eq, list_eq}
use flink_control_plane_poc.Exec.{Exec, pure, modify, ◌>>=◌, ◌>>◌}
use flink_control_plane_poc.Domain.{FamilyState, running, suspended, state_eq, FamilyStatus}
use flink_control_plane_poc.Cluster.{MockCluster}
use flink_control_plane_poc.Restate.Steps.{Step, Engine}
use flink_control_plane_poc.Restate.Steps

-- The files of the cluster, and the value under `STATE_KEY` of each object.
pub record Store : Type 0 where
  pub files : MockCluster
  pub cache : String → Option FamilyState

abbrev pub Handler : Type 0 → Type 0
Handler A = Exec Store String A

abbrev pub set : String → FamilyState → Store → Store
set key state s = record s { cache = λ other. if other == key then some state else s.cache other }

module _ (engine : Engine) where
  -- `ctx.run_typed` with `CLUSTER_RUN_OPTIONS`
  unfoldable pub run_typed : {A : Type 0} → Step A → Handler A
  run_typed fn s = let (r, c) = engine.run_typed 4 fn s.files in (r, record s { files = c })

  unfoldable pub fill : String → Handler FamilyState
  unfolding run_typed
  fill key = do
    status ← run_typed (Steps.read_status key)
    modify (set key status.state)
    pure status.state

  -- `_cached_state`
  unfoldable pub cached_state : String → Handler FamilyState
  unfolding fill
  cached_state key s = elim (s.cache key) [ some state ↦ pure state s | none ↦ fill key s ]

  unfoldable pub suspend : String → Handler (Unit {0})
  unfolding run_typed
  suspend key = do
    run_typed (Steps.trigger_savepoint key)
    run_typed (Steps.suspend_job key)
    modify (set key FamilyState.suspended)

  unfoldable pub start : String → Handler (Unit {0})
  unfolding run_typed
  start key = do run_typed (Steps.resume_job key); modify (set key FamilyState.running)

  unfoldable pub pause_from : String → FamilyState → Handler (Unit {0})
  pause_from key suspended = pure tt
  pause_from key running = suspend key

  unfoldable pub pause : String → Handler (Unit {0})
  unfolding cached_state pause_from
  pause key = do state ← cached_state key; pause_from key state

  unfoldable pub resume_from : String → FamilyState → Handler (Unit {0})
  resume_from key running = pure tt
  resume_from key suspended = start key

  unfoldable pub resume : String → Handler (Unit {0})
  unfolding cached_state resume_from
  resume key = do state ← cached_state key; resume_from key state

  unfoldable pub patch_config : String → List String → Handler (Unit {0})
  unfolding run_typed
  patch_config key datatypes = run_typed (Steps.patch_configmap key datatypes)

  -- the repair of the state
  unfoldable pub enter : String → FamilyState → Handler (Unit {0})
  enter key suspended = suspend key
  enter key running = start key

  unfoldable pub restore_state : String → FamilyStatus → Option FamilyState → Handler Bool
  unfolding enter
  restore_state key status none = pure false
  restore_state key status (some desired) =
      if status.state == desired then pure false else (do enter key desired; pure true)

  unfoldable pub restore_datatypes : String → FamilyStatus → Option (List String) → Handler Bool
  restore_datatypes key status none = pure false
  restore_datatypes key status (some datatypes) =
      if status.datatypes == datatypes
      then pure false
      else (do patch_config key datatypes; pure true)

  -- `restore`, with the fresh read that refills the cache
  unfoldable pub restore : String → Option FamilyState → Option (List String) → Handler Bool
  unfolding restore_state restore_datatypes run_typed
  restore key desired_state datatypes = do
    status ← run_typed (Steps.read_status key)
    modify (set key status.state)
    state_changed ← restore_state key status desired_state
    datatypes_changed ← restore_datatypes key status datatypes
    pure (state_changed || datatypes_changed)

-- `reset`
unfoldable pub reset : String → Handler (Unit {0})
reset key = modify (λ s. record s { cache = λ other. if other == key then none else s.cache other })

-- `current_state`
unfoldable pub current_state : String → Handler FamilyState
current_state key s = elim (s.cache key) [ some state ↦ pure state s | none ↦ pure running s ]
