-- ===== src/Temporal/Actor.antt =====
-- poc/temporal/actor.py: the entity workflow of a job family. A handler runs under the actor's lock
-- and once the actor is ready, so that it is one step of the actor.
use flink_control_plane_poc.Prelude.{
  String, ◌<>◌, Bool, true, false, Option, none, some, List, [], ◌∷◌, ◌||◌, if◌then◌else◌,
}
use flink_control_plane_poc.Prelude.Equality.{◌==◌, string_eq, list_eq}
use flink_control_plane_poc.Exec.{Result, ok, err, Exec, pure, modify, ◌>>=◌, ◌>>◌}
use flink_control_plane_poc.Domain.{FamilyState, running, suspended, state_eq, FamilyStatus}
use flink_control_plane_poc.Cluster.{MockCluster}
use flink_control_plane_poc.Temporal.Engine.{
  Activity, RetryPolicy, Failure, Service, UpdateResult, uri, changed, nothing,
}
use flink_control_plane_poc.Temporal.Activities

-- `CLUSTER_RETRY`
abbrev pub cluster_retry : RetryPolicy
cluster_retry = record {
  maximum_attempts = some 4;
  non_retryable_error_types = "PermanentClusterError" ∷ [];
}

-- `actor_id`
unfoldable pub actor_id : String → String
actor_id family = "family:" <> family

-- The actor's `_family` and `_state`, once it is ready.
pub record FlinkJobFamilyActor : Type 0 where
  pub family : String
  pub state : FamilyState

-- What a handler works on: the files of the cluster and its own actor.
pub record Site : Type 0 where
  pub files : MockCluster
  pub actor : FlinkJobFamilyActor

abbrev pub Handler : Type 0 → Type 0
Handler A = Exec Site Failure A

abbrev pub set_state : FamilyState → Site → Site
set_state state s = record s { actor = record s.actor { state = state } }

module _ (service : Service) where
  unfoldable pub execute : {A : Type 0} → (String → Activity MockCluster A) → Handler A
  execute activity s =
      let (r, c) = service.execute_activity cluster_retry (activity s.actor.family) s.files in
      (r, record s { files = c })

  -- `run`, up to the point where the actor is ready: adopt the stored state, or the one that was
  -- carried across `continue_as_new`
  unfoldable pub start :
      String → Option FamilyState → MockCluster → Result Failure FlinkJobFamilyActor × MockCluster
  start family (some state) c = (ok (record { family = family; state = state }), c)
  start family none c =
      let (r, c') = service.execute_activity cluster_retry (Activities.read_status family) c in
      elim r [
        | ok status ↦ (ok (record { family = family; state = status.state }), c')
        | err e ↦ (err e, c')
      ]

  unfoldable pub suspend : Handler String
  unfolding execute
  suspend = do
    savepoint ← execute Activities.trigger_savepoint
    execute Activities.suspend_job
    modify (set_state FamilyState.suspended)
    pure savepoint

  unfoldable pub wake : Handler (Unit {0})
  unfolding execute
  wake = do execute Activities.resume_job; modify (set_state FamilyState.running)

  unfoldable pub pause_from : FamilyState → Handler UpdateResult
  unfolding suspend
  pause_from suspended = pure (uri none)
  pause_from running = do savepoint ← suspend; pure (uri (some savepoint))

  unfoldable pub pause : Handler UpdateResult
  unfolding pause_from
  pause s = pause_from s.actor.state s

  unfoldable pub resume_from : FamilyState → Handler UpdateResult
  unfolding wake
  resume_from running = pure (changed false)
  resume_from suspended = do wake; pure (changed true)

  unfoldable pub resume : Handler UpdateResult
  unfolding resume_from
  resume s = resume_from s.actor.state s

  unfoldable pub patch : List String → Handler (Unit {0})
  unfolding execute
  patch datatypes = execute (λ family. Activities.patch_configmap family datatypes)

  unfoldable pub patch_config : List String → Handler UpdateResult
  unfolding patch
  patch_config datatypes = do patch datatypes; pure nothing

  -- the repair of the state
  unfoldable pub enter : FamilyState → Handler (Unit {0})
  unfolding suspend wake
  enter suspended = do suspend; pure tt
  enter running = wake

  unfoldable pub restore_state : FamilyStatus → Option FamilyState → Handler Bool
  unfolding enter
  restore_state status none = pure false
  restore_state status (some desired) =
      if status.state == desired then pure false else (do enter desired; pure true)

  unfoldable pub restore_datatypes : FamilyStatus → Option (List String) → Handler Bool
  unfolding patch
  restore_datatypes status none = pure false
  restore_datatypes status (some datatypes) =
      if status.datatypes == datatypes then pure false else (do patch datatypes; pure true)

  unfoldable pub restore : Option FamilyState → Option (List String) → Handler UpdateResult
  unfolding restore_state restore_datatypes execute
  restore desired_state datatypes = do
    status ← execute Activities.read_status
    modify (set_state status.state)
    state_changed ← restore_state status desired_state
    datatypes_changed ← restore_datatypes status datatypes
    pure (changed (state_changed || datatypes_changed))

-- the arguments of `continue_as_new`
unfoldable pub roll_over : FlinkJobFamilyActor → String × Option FamilyState
roll_over actor = (actor.family, some actor.state)

-- `current_state`
unfoldable pub current_state : FlinkJobFamilyActor → FamilyState
current_state actor = actor.state
