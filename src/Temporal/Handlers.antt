-- ===== src/Temporal/Handlers.antt =====
-- What the handlers of an actor change, and what they have reached when they return.
pub mod Restores
use mathlib.Core.Path.{subst}
use flink_control_plane_poc.Prelude.{String, ◌≡◌, refl, sym, ◌∙◌, true, false, none, some, List}
use flink_control_plane_poc.Exec.{Result, pure, modify, ◌>>◌, Ensures, Ensures-bind}
use flink_control_plane_poc.Domain.{FamilyState, running, suspended}
use flink_control_plane_poc.Cluster.{MockCluster}
use flink_control_plane_poc.Cluster
use flink_control_plane_poc.Cluster.Attempt.Operations.{
  trigger_savepoint-Attempt, suspend_job-Attempt, resume_job-Attempt, patch_configmap-Attempt,
}
use flink_control_plane_poc.Cluster.Frame.{state_of, datatypes_of}
use flink_control_plane_poc.Cluster.Changes.{
  OnlyState, OnlyDatatypes, savepoint-Ensures, suspend-Ensures, resume-Ensures, patch-Ensures,
}
use flink_control_plane_poc.Temporal.Engine.{Activity, Failure, Service, uri, changed, nothing}
use flink_control_plane_poc.Temporal.Activities
use flink_control_plane_poc.Temporal.Actor.{
  Site, set_state, cluster_retry, execute, suspend, wake, pause_from, pause, resume_from, resume,
  patch, patch_config,
}
use flink_control_plane_poc.Temporal.Executions.{execute_activity-Ensures, on_cluster-Ensures}

module _ (service : Service) (family : String) (c₀ : MockCluster) where
  -- The actor of the family has changed its state in the files at most.
  abbrev pub ChangesState : Site → Type 0
  ChangesState s = OnlyState family c₀ s.files × (s.actor.family ≡ family)

  abbrev pub ChangesDatatypes : Site → Type 0
  ChangesDatatypes s = OnlyDatatypes family c₀ s.files × (s.actor.family ≡ family)

  pub execute-Ensures :
      {A : Type 0} {I Q : MockCluster → Type 0} (activity : String → Activity MockCluster A)
      → ((c : MockCluster) → I c → Ensures I Q (activity family c))
      → (s : Site) → I s.files × (s.actor.family ≡ family)
      → Ensures
          (λ t. I t.files × (t.actor.family ≡ family))
          (λ t. Q t.files × (t.actor ≡ s.actor))
          (execute service activity s)
  unfolding execute
  execute-Ensures {A} {I} {Q} activity each s (i, mine) = go (
      execute_activity-Ensures cluster_retry (activity s.actor.family)
        (subst (λ f. (c : MockCluster) → I c → Ensures I Q (activity f c)) (sym mine) each) service
        s.files i)
    where
      go :
          {r : Result Failure A × MockCluster}
          → Ensures I Q r
          → Ensures
              (λ t. I t.files × (t.actor.family ≡ family))
              (λ t. Q t.files × (t.actor ≡ s.actor))
              (r.0, record s { files = r.1 })
      go (Ensures.returned a c j q) = Ensures.returned a _ (j, mine) (q, refl)
      go (Ensures.raised e c j) = Ensures.raised e _ (j, mine)

  pub suspend-returns :
      (s : Site)
      → ChangesState s
      → Ensures ChangesState
          (λ t. (state_of t.files family ≡ some suspended) × (t.actor.state ≡ suspended))
          (suspend service s)
  unfolding suspend Activities.trigger_savepoint Activities.suspend_job
  suspend-returns s i =
      let finish = λ (savepoint : String). (do
        modify {S = Site} {E = Failure} (set_state suspended)
        pure savepoint) in
      let job = execute service Activities.suspend_job in
      Ensures-bind (execute service Activities.trigger_savepoint)
        (λ savepoint. job >> finish savepoint) s
        (execute-Ensures Activities.trigger_savepoint
          (λ c h.
            on_cluster-Ensures (Cluster.trigger_savepoint family) c
              (savepoint-Ensures c₀ (trigger_savepoint-Attempt family c) h))
          s i)
        (λ savepoint t j _.
          Ensures-bind job (λ _. finish savepoint) t
            (execute-Ensures Activities.suspend_job
              (λ c h.
                on_cluster-Ensures (Cluster.suspend_job family) c
                  (suspend-Ensures c₀ (suspend_job-Attempt family c) h))
              t j)
            (λ _ u k reached. Ensures.returned savepoint _ k (reached.0, refl)))

  pub wake-returns :
      (s : Site)
      → ChangesState s
      → Ensures ChangesState
          (λ t. (state_of t.files family ≡ some running) × (t.actor.state ≡ running))
          (wake service s)
  unfolding wake Activities.resume_job
  wake-returns s i =
      Ensures-bind (execute service Activities.resume_job)
        (λ _. modify {S = Site} {E = Failure} (set_state running)) s
        (execute-Ensures Activities.resume_job
          (λ c h.
            on_cluster-Ensures (Cluster.resume_job family) c
              (resume-Ensures c₀ (resume_job-Attempt family c) h))
          s i)
        (λ _ t j reached. Ensures.returned tt _ j (reached.0, refl))

  -- A pause that returns has left the actor suspended, whether it wrote or not.
  pub pause_lem :
      (s : Site)
      → ChangesState s
      → Ensures ChangesState (λ t. t.actor.state ≡ suspended) (pause service s)
  unfolding pause pause_from
  pause_lem s i = from s.actor.state refl
    where
      from :
          (state : FamilyState)
          → s.actor.state ≡ state
          → Ensures ChangesState (λ t. t.actor.state ≡ suspended) (pause_from service state s)
      from suspended is = Ensures.returned (uri none) s i is
      from running is =
          Ensures-bind (suspend service) (λ savepoint. pure (uri (some savepoint))) s
            (suspend-returns s i) (λ savepoint t j q. Ensures.returned _ t j q.1)

  -- A resume that returns has started the family, if the actor was suspended.
  pub resume_lem :
      (s : Site)
      → ChangesState s
      → Ensures ChangesState
          (λ t. s.actor.state ≡ suspended → state_of t.files family ≡ some running)
          (resume service s)
  unfolding resume resume_from
  resume_lem s i = from s.actor.state refl
    where
      from :
          (state : FamilyState)
          → s.actor.state ≡ state
          → Ensures ChangesState
              (λ t. s.actor.state ≡ suspended → state_of t.files family ≡ some running)
              (resume_from service state s)
      from running is =
          Ensures.returned (changed false) s i
            (λ paused. absurd (let clash : suspended ≡ running = sym paused ∙ is in cc))
      from suspended is =
          Ensures-bind (wake service) (λ _. pure (changed true)) s (wake-returns s i)
            (λ _ t j reached. Ensures.returned _ t j (λ _. reached.0))

  pub patch-returns :
      (datatypes : List String) (s : Site)
      → ChangesDatatypes s
      → Ensures ChangesDatatypes
          (λ t. (datatypes_of t.files family ≡ some datatypes) × (t.actor ≡ s.actor))
          (patch service datatypes s)
  unfolding patch Activities.patch_configmap
  patch-returns datatypes s i =
      execute-Ensures (λ f. Activities.patch_configmap f datatypes)
        (λ c h.
          on_cluster-Ensures (Cluster.patch_configmap family datatypes) c
            (patch-Ensures c₀ datatypes (patch_configmap-Attempt family datatypes c) h))
        s i

  pub patch_config_lem :
      (datatypes : List String) (s : Site)
      → ChangesDatatypes s
      → Ensures ChangesDatatypes
          (λ t. (datatypes_of t.files family ≡ some datatypes) × (t.actor ≡ s.actor))
          (patch_config service datatypes s)
  unfolding patch_config
  patch_config_lem datatypes s i =
      Ensures-bind (patch service datatypes) (λ _. pure nothing) s (patch-returns datatypes s i)
        (λ _ t j reached. Ensures.returned nothing t j reached)
