-- ===== src/Temporal/Effort/Handlers.antt =====
-- How many attempts at the cluster a handler of an actor makes at most.
use flink_control_plane_poc.Prelude.{
  ℕ, ◌+◌, ◌≤◌, String, refl, ap, Bool, true, Option, none, some, List, arith, ◌||◌,
}
use flink_control_plane_poc.Prelude.Equality.{string_eq, list_eq}
use flink_control_plane_poc.Exec.{Result, ok, err, pure, modify, ◌>>=◌, ◌>>◌}
use flink_control_plane_poc.Exec.Cost.{Adds, Adds-bind}
use flink_control_plane_poc.Domain.{
  ClusterError, FamilyState, running, suspended, FamilyStatus, state_eq,
}
use flink_control_plane_poc.Cluster.{MockCluster, ClusterAction, audit}
use flink_control_plane_poc.Cluster
use flink_control_plane_poc.Cluster.Attempt.Entries.{entries, Attempt-Adds}
use flink_control_plane_poc.Cluster.Attempt.Operations.{
  trigger_savepoint-Attempt, suspend_job-Attempt, resume_job-Attempt, patch_configmap-Attempt,
}
use flink_control_plane_poc.Temporal.Engine.{
  Activity, ActivityError, RetryPolicy, Attempts, Failure, Service, uri, changed, nothing,
}
use flink_control_plane_poc.Temporal.Activities.{on_cluster}
use flink_control_plane_poc.Temporal.Activities
use flink_control_plane_poc.Temporal.Actor.{
  Site, Handler, set_state, cluster_retry, actor_id, execute, suspend, wake, pause_from,
  resume_from, patch, patch_config, enter, restore_state, restore_datatypes, restore, start,
  FlinkJobFamilyActor,
}
use flink_control_plane_poc.Temporal.Actor
use flink_control_plane_poc.Temporal.Executions.{Reads, execute_activity-Reads}

-- As many as the attempts that were made.
Attempts-Adds :
    {A : Type 0} (policy : RetryPolicy) (fn : Activity MockCluster A)
    → ((c : MockCluster) → Adds entries 1 c (fn c))
    → {n : ℕ} {c : MockCluster} {r : Result Failure A × MockCluster} → Attempts policy fn n c r
    → Adds entries n c r
Attempts-Adds policy fn each (Attempts.returned a c t h) =
    omega (arith, each c, ap (λ r. entries r.1) h)
Attempts-Adds policy fn each (Attempts.gave_up e c t h why) =
    omega (arith, each c, ap (λ r. entries r.1) h)
Attempts-Adds policy fn each (Attempts.unanswered x text c t h limited) =
    omega (arith, each c, ap (λ r. entries r.1) h)
Attempts-Adds policy fn each (Attempts.unstarted text c limited) = omega arith
Attempts-Adds policy fn each (Attempts.going_on e c t h more unlimited) =
    omega (arith, each c, ap (λ r. entries r.1) h)
Attempts-Adds policy fn each (Attempts.again e n c t r h more rest) =
    omega (arith, each c, ap (λ r. entries r.1) h, Attempts-Adds policy fn each rest)
Attempts-Adds policy fn each (Attempts.lost x n c t r h rest) =
    omega (arith, each c, ap (λ r. entries r.1) h, Attempts-Adds policy fn each rest)
Attempts-Adds policy fn each (Attempts.missed n c r rest) =
    omega (arith, Attempts-Adds policy fn each rest)

on_cluster-Adds :
    {A : Type 0} (operation : ClusterAction A)
    → ((c : MockCluster) → Adds entries 1 c (operation c))
    → (c : MockCluster) → Adds entries 1 c (on_cluster operation c)
unfolding on_cluster
on_cluster-Adds {A} operation each c = go (operation c) (each c)
  where
    go :
        (r : Result ClusterError A × MockCluster)
        → Adds entries 1 c r
        → Adds {E = ActivityError} {A = A} entries 1 c
            (elim r.0 [ ok a ↦ (ok a, r.1) | err e ↦ (err (Activities.raised e), r.1) ])
    go (ok a, t) h = h
    go (err e, t) h = h

abbrev pub site_entries : Site → ℕ
site_entries s = entries s.files

module _ (service : Service) where
  -- An activity on the cluster is attempted at most four times.
  execute-Adds :
      {A : Type 0} (activity : String → Activity MockCluster A)
      → ((family : String) (c : MockCluster) → Adds entries 1 c (activity family c))
      → (s : Site) → Adds site_entries 4 s (execute service activity s)
  unfolding execute
  execute-Adds activity each s =
      let run = service.execute_activity-Executed cluster_retry (activity s.actor.family) s.files in
      omega (
        arith,
        Attempts-Adds cluster_retry (activity s.actor.family) (each s.actor.family) run.attempts,
        run.allowed 4 (omega arith) refl,
      )

  savepoint-Adds :
      (s : Site) → Adds site_entries 4 s (execute service Activities.trigger_savepoint s)
  unfolding Activities.trigger_savepoint
  savepoint-Adds = execute-Adds Activities.trigger_savepoint (λ f.
      on_cluster-Adds (Cluster.trigger_savepoint f)
        (λ c. Attempt-Adds (trigger_savepoint-Attempt f c)))

  suspend_job-Adds : (s : Site) → Adds site_entries 4 s (execute service Activities.suspend_job s)
  unfolding Activities.suspend_job
  suspend_job-Adds =
      execute-Adds Activities.suspend_job
        (λ f. on_cluster-Adds (Cluster.suspend_job f) (λ c. Attempt-Adds (suspend_job-Attempt f c)))

  resume_job-Adds : (s : Site) → Adds site_entries 4 s (execute service Activities.resume_job s)
  unfolding Activities.resume_job
  resume_job-Adds =
      execute-Adds Activities.resume_job
        (λ f. on_cluster-Adds (Cluster.resume_job f) (λ c. Attempt-Adds (resume_job-Attempt f c)))

  patch-Adds :
      (datatypes : List String) (s : Site) → Adds site_entries 4 s (patch service datatypes s)
  unfolding patch Activities.patch_configmap
  patch-Adds datatypes =
      execute-Adds (λ f. Activities.patch_configmap f datatypes)
        (λ f.
          on_cluster-Adds (Cluster.patch_configmap f datatypes)
            (λ c. Attempt-Adds (patch_configmap-Attempt f datatypes c)))

  read-Adds : (s : Site) → Adds site_entries 0 s (execute service Activities.read_status s)
  unfolding execute
  read-Adds s = go (execute_activity-Reads s.actor.family cluster_retry service s.files)
    where
      go :
          {r : Result Failure FamilyStatus × MockCluster}
          → Reads s.actor.family cluster_retry s.files r
          → entries r.1 ≤ entries s.files + 0
      go (Reads.known status found) = omega arith
      go (Reads.failed e why) = omega arith

  suspend-Adds : (s : Site) → Adds site_entries 8 s (suspend service s)
  unfolding suspend
  suspend-Adds s =
      let leave =
        λ (savepoint : String). (do modify (set_state FamilyState.suspended); pure savepoint) in
      Adds-bind site_entries 4 4 (execute service Activities.trigger_savepoint)
        (λ savepoint. execute service Activities.suspend_job >> leave savepoint) s
        (savepoint-Adds s)
        (λ savepoint t.
          Adds-bind site_entries 4 0 (execute service Activities.suspend_job) (λ _. leave savepoint)
            t (suspend_job-Adds t) (λ _ u. omega arith))

  wake-Adds : (s : Site) → Adds site_entries 4 s (wake service s)
  unfolding wake
  wake-Adds s =
      Adds-bind site_entries 4 0 (execute service Activities.resume_job)
        (λ _. modify (set_state FamilyState.running)) s (resume_job-Adds s) (λ _ t. omega arith)

  pub pause-Adds : (s : Site) → Adds site_entries 8 s (Actor.pause service s)
  unfolding Actor.pause pause_from
  pause-Adds s = go s.actor.state
    where
      go : (state : FamilyState) → Adds site_entries 8 s (pause_from service state s)
      go suspended = omega arith
      go running =
          Adds-bind site_entries 8 0 (suspend service) (λ savepoint. pure (uri (some savepoint))) s
            (suspend-Adds s) (λ _ t. omega arith)

  pub resume-Adds : (s : Site) → Adds site_entries 4 s (Actor.resume service s)
  unfolding Actor.resume resume_from
  resume-Adds s = go s.actor.state
    where
      go : (state : FamilyState) → Adds site_entries 4 s (resume_from service state s)
      go running = omega arith
      go suspended =
          Adds-bind site_entries 4 0 (wake service) (λ _. pure (changed true)) s (wake-Adds s)
            (λ _ t. omega arith)

  pub patch_config-Adds :
      (datatypes : List String) (s : Site)
      → Adds site_entries 4 s (patch_config service datatypes s)
  unfolding patch_config
  patch_config-Adds datatypes s =
      Adds-bind site_entries 4 0 (patch service datatypes) (λ _. pure nothing) s
        (patch-Adds datatypes s) (λ _ t. omega arith)

  enter-Adds : (state : FamilyState) (s : Site) → Adds site_entries 8 s (enter service state s)
  unfolding enter
  enter-Adds suspended s =
      Adds-bind site_entries 8 0 (suspend service) (λ _. pure tt) s (suspend-Adds s)
        (λ _ t. omega arith)
  enter-Adds running s = omega (arith, wake-Adds s)

  restore_state-Adds :
      (status : FamilyStatus) (desired : Option FamilyState) (s : Site)
      → Adds site_entries 8 s (restore_state service status desired s)
  unfolding restore_state
  restore_state-Adds status none s = omega arith
  restore_state-Adds status (some desired) s = ground (
    arith,
    Adds-bind site_entries 8 0 (enter service desired) (λ _. pure true) s (enter-Adds desired s)
        (λ _ t. omega arith),
  )

  restore_datatypes-Adds :
      (status : FamilyStatus) (datatypes : Option (List String)) (s : Site)
      → Adds site_entries 4 s (restore_datatypes service status datatypes s)
  unfolding restore_datatypes
  restore_datatypes-Adds status none s = omega arith
  restore_datatypes-Adds status (some datatypes) s = ground (
    arith,
    Adds-bind site_entries 4 0 (patch service datatypes) (λ _. pure true) s (patch-Adds datatypes s)
        (λ _ t. omega arith),
  )

  pub restore-Adds :
      (desired : Option FamilyState) (datatypes : Option (List String)) (s : Site)
      → Adds site_entries 12 s (restore service desired datatypes s)
  unfolding restore
  restore-Adds desired datatypes s =
      let last = λ (status : FamilyStatus) (first : Bool). (do
        second ← restore_datatypes service status datatypes
        pure (changed (first || second))) in
      let rest = λ (status : FamilyStatus). restore_state service status desired >>= last status in
      Adds-bind site_entries 0 12 (execute service Activities.read_status)
        (λ status. modify (set_state status.state) >> rest status) s (read-Adds s)
        (λ status t.
          Adds-bind site_entries 0 12 (modify (set_state status.state)) (λ _. rest status) t
            (omega arith)
            (λ _ u.
              Adds-bind site_entries 8 4 (restore_state service status desired) (last status) u
                (restore_state-Adds status desired u)
                (λ first v.
                  Adds-bind site_entries 4 0 (restore_datatypes service status datatypes)
                    (λ second. pure (changed (first || second))) v
                    (restore_datatypes-Adds status datatypes v) (λ _ x. omega arith))))
