-- ===== src/Temporal/Effort.antt =====
-- How many attempts at the cluster a whole run on Temporal makes at most.
mod Handlers
use flink_control_plane_poc.Prelude.{
  ℕ, ◌+◌, ◌≤◌, String, ◌≡◌, refl, ap, Bool, true, Option, none, some, List, arith, ◌||◌,
}
use flink_control_plane_poc.Prelude.Lists.{length}
use flink_control_plane_poc.Prelude.Equality.{string_eq, list_eq}
use flink_control_plane_poc.Exec.{Result, ok, err, pure, modify, ◌>>=◌, ◌>>◌}
use flink_control_plane_poc.Exec.Cost.{Adds, Adds-bind}
use flink_control_plane_poc.Domain.{
  ClusterError, FamilyState, running, suspended, FamilyStatus, state_eq, MoveDatatypeRequest,
}
use flink_control_plane_poc.Cluster.{MockCluster, ClusterAction, audit}
use flink_control_plane_poc.Cluster
use flink_control_plane_poc.Cluster.Attempt.Entries.{entries, Attempt-Adds}
use flink_control_plane_poc.Cluster.Attempt.Operations.{
  trigger_savepoint-Attempt, suspend_job-Attempt, resume_job-Attempt, patch_configmap-Attempt,
}
use flink_control_plane_poc.Actors.{Command, Compensation}
use flink_control_plane_poc.Actors.Steps.{step_key}
use flink_control_plane_poc.Saga.{Failed}
use flink_control_plane_poc.Saga.Effort.{IsFrugal, run-Adds}
use flink_control_plane_poc.Temporal.Engine.{
  Activity, ActivityError, RetryPolicy, Attempts, Failure, Service, UpdateResult, uri, changed,
  nothing,
}
use flink_control_plane_poc.Temporal.Activities.{on_cluster}
use flink_control_plane_poc.Temporal.Activities
use flink_control_plane_poc.Temporal.Actor.{
  Site, Handler, set_state, cluster_retry, actor_id, execute, suspend, wake, pause_from,
  resume_from, patch, patch_config, enter, restore_state, restore_datatypes, restore, start,
  FlinkJobFamilyActor,
}
use flink_control_plane_poc.Temporal.Actor
use flink_control_plane_poc.Temporal.Proxy.{
  World, FamilyCommand, CommandRequest, CommandResult, on_actor, serve, handler,
}
use flink_control_plane_poc.Temporal.Ids.{update_id}
use flink_control_plane_poc.Temporal.Executions.{Reads, execute_activity-Reads}
use flink_control_plane_poc.Temporal.Once.{Once, Replays, send-Once, send-Replays}
use flink_control_plane_poc.Temporal.Saga.{
  temporal_actors, saga, Raised, raised, read_status, send, call, run, default_retry,
}
use flink_control_plane_poc.Temporal.Saga
use flink_control_plane_poc.Temporal.Effort.Handlers.{
  site_entries, pause-Adds, resume-Adds, patch_config-Adds, restore-Adds,
}

abbrev pub world_entries : World → ℕ
world_entries w = entries w.files

module _ (service : Service) where
  -- A handler behind the proxy: the start of the actor, if it needs one, only reads.
  module _ (n : ℕ) (family : String) (fn : Handler UpdateResult)
      (each : (s : Site) → Adds site_entries n s (fn s)) where
    on_actor-Adds :
        (state : FamilyState) (w : World)
        → Adds world_entries n w (on_actor service fn family state w)
    unfolding on_actor
    on_actor-Adds state w =
        each (record { files = w.files; actor = record { family = family; state = state } })

    serve-Adds : (w : World) → Adds world_entries n w (serve service fn family w)
    unfolding serve start
    serve-Adds w = go (w.actors family)
      where
        started :
            {r : Result Failure FamilyStatus × MockCluster}
            → Reads family cluster_retry w.files r
            → Adds {E = Failure} {A = UpdateResult} world_entries n w (
                let p : Result Failure FlinkJobFamilyActor × MockCluster = elim r.0 [
                  | ok status ↦ (ok (record { family = family; state = status.state }), r.1)
                  | err e ↦ (err e, r.1)
                ] in
                let q : Result Failure UpdateResult × World = elim p.0 [
                  | ok actor ↦ on_actor service fn family actor.state (record w { files = p.1 })
                  | err e ↦ (err e, record w { files = p.1 })
                ] in
                q)
        started (Reads.known status found) = on_actor-Adds status.state w
        started (Reads.failed e missing) = omega arith

        go :
            (found : Option FamilyState)
            → Adds {E = Failure} {A = UpdateResult} world_entries n w (elim found [
              | some state ↦ on_actor service fn family state w
              | none ↦
                  (let p : Result Failure FlinkJobFamilyActor × MockCluster =
                      start service family none w.files in
                    let q : Result Failure UpdateResult × World = elim p.0 [
                      | ok actor ↦ on_actor service fn family actor.state (record w { files = p.1 })
                      | err e ↦ (err e, record w { files = p.1 })
                    ] in
                    q)
            ])
        go none = started (execute_activity-Reads family cluster_retry service w.files)
        go (some state) = on_actor-Adds state w

  -- A command, new or not, costs no more than one run of its handler.
  send-Adds :
      (n : ℕ) (request : CommandRequest)
      → ((s : Site) → Adds site_entries n s (handler service request s))
      → (w : World) → Adds world_entries n w (send service request w)
  send-Adds n request each w = go (w.updates (actor_id request.family) request.update_id) refl
    where
      once :
          {p : Result Failure CommandResult × World}
          → Once service request w p
          → Adds world_entries n w p
      once (Once.not_run e) = omega arith
      once (Once.answered a t ran) = omega (
        arith,
        serve-Adds n request.family (handler service request) each w,
        ap (λ r. world_entries r.1) ran,
      )
      once (Once.unanswered r t e ran) = omega (
        arith,
        serve-Adds n request.family (handler service request) each w,
        ap (λ r. world_entries r.1) ran,
      )

      replayed :
          {r : Result Failure UpdateResult} {p : Result Failure CommandResult × World}
          → Replays service request r w p
          → Adds world_entries n w p
      replayed (Replays.failed e) = omega arith
      replayed (Replays.repeated a is) = omega arith

      go :
          (before : Option (Result Failure UpdateResult))
          → w.updates (actor_id request.family) request.update_id ≡ before
          → Adds world_entries n w (send service request w)
      go none fresh = once (send-Once service request w fresh)
      go (some r) old = replayed (send-Replays service request r w old)

  read_status-Adds :
      (family : String) (w : World) → Adds world_entries 0 w (read_status service family w)
  unfolding read_status
  read_status-Adds family w = go (execute_activity-Reads family default_retry service w.files)
    where
      go :
          {r : Result Failure FamilyStatus × MockCluster}
          → Reads family default_retry w.files r
          → entries r.1 ≤ entries w.files + 0
      go (Reads.known status found) = omega arith
      go (Reads.failed e why) = omega arith

  module _ (workflow_id run_id : String) where
    call-Adds :
        (n : ℕ) (command : FamilyCommand) (family : String) (step : Command)
        (datatypes : Option (List String))
        → ((id : String) (s : Site)
            → Adds site_entries n s (
                handler service
                  (record {
                    family = family;
                    command = command;
                    update_id = id;
                    datatypes = datatypes;
                    desired_state = none;
                  })
                  s))
        → (w : World)
        → Adds world_entries n w (call service workflow_id run_id command family step datatypes w)
    unfolding call
    call-Adds n command family step datatypes each w =
        let id = update_id workflow_id run_id (step_key step) in
        let request : CommandRequest = record {
          family = family;
          command = command;
          update_id = id;
          datatypes = datatypes;
          desired_state = none;
        } in
        omega (
          arith,
          Adds-bind world_entries n 0 (send service request) (λ _. pure tt) w
              (send-Adds n request (each id) w) (λ _ t. omega arith),
        )

    restore_command-Adds :
        (index : ℕ) (item : Compensation) (w : World)
        → Adds world_entries 12 w (Saga.restore service workflow_id run_id index item w)
    unfolding Saga.restore handler
    restore_command-Adds index item w =
        let request : CommandRequest = record {
          family = item.family;
          command = FamilyCommand.restore;
          update_id = update_id workflow_id run_id (step_key (Command.restore index item.label));
          datatypes = item.datatypes;
          desired_state = item.desired_state;
        } in
        Adds-bind world_entries 12 0 (send service request) (λ result. pure result.changed) w
          (send-Adds 12 request (restore-Adds service item.desired_state item.datatypes) w)
          (λ _ t. omega arith)

    temporal_actors-IsFrugal : IsFrugal (temporal_actors service workflow_id run_id) world_entries
    unfolding handler
    temporal_actors-IsFrugal = record {
      reads = read_status-Adds;
      pauses = λ family.
          call-Adds 8 FamilyCommand.pause family (Command.pause family) none
            (λ _. pause-Adds service);
      patches = λ family datatypes.
          call-Adds 4 FamilyCommand.patch_config family (Command.patch family) (some datatypes)
            (λ _. patch_config-Adds service datatypes);
      resumes = λ family.
          call-Adds 4 FamilyCommand.resume family (Command.resume family) none
            (λ _. resume-Adds service);
      restores = restore_command-Adds;
    }

    -- Whatever the fault rules are and whichever attempts and answers the service loses, a run on
    -- Temporal adds at most 104 entries to the audit log. No actor rolls over in the course of the run.
    pub run_limit :
        (request : MoveDatatypeRequest) (w : World)
        → length (audit (run service workflow_id run_id request w).1.files)
          ≤ length (audit w.files) + 104
    unfolding run saga
    run_limit request w = go _ (
        run-Adds (temporal_actors service workflow_id run_id) world_entries temporal_actors-IsFrugal
          request w)
      where
        go :
            (r : Result (Failed Failure) (List String) × World)
            → Adds world_entries 104 w r
            → Adds {E = Raised} {A = List String} world_entries 104 w
                (elim r.0 [ ok steps ↦ (ok steps, r.1) | err e ↦ (err (raised e), r.1) ])
        go (ok steps, t) h = h
        go (err e, t) h = h
