-- ===== src/Temporal/Handlers/Restores.antt =====
-- What a restore changes, and what it has reached when it returns.
use mathlib.Core.Logic.{if_pos, if_neg}
use mathlib.Core.Path.{subst}
use flink_control_plane_poc.Prelude.{
  String, ◌≡◌, sym, ap, ◌∙◌, ◌||◌, Bool, true, false, none, some, List,
}
use flink_control_plane_poc.Prelude.Equality.{list_eq, string_eq}
use flink_control_plane_poc.Prelude.Dict.{lookup}
use flink_control_plane_poc.Exec.{Result, ok, err, pure, ◌>>=◌, Ensures, Ensures-bind}
use flink_control_plane_poc.Domain.{FamilyState, running, suspended, state_eq, FamilyStatus}
use flink_control_plane_poc.Cluster.{MockCluster}
use flink_control_plane_poc.Cluster.Frame.{state_of, datatypes_of}
use flink_control_plane_poc.Cluster.Changes.{view_found}
use flink_control_plane_poc.Temporal.Engine.{Failure, Service, UpdateResult, changed}
use flink_control_plane_poc.Temporal.Activities
use flink_control_plane_poc.Temporal.Actor.{
  Site, Handler, set_state, cluster_retry, execute, suspend, patch, enter, restore_state,
  restore_datatypes, restore,
}
use flink_control_plane_poc.Temporal.Executions.{Reads, execute_activity-Reads}
use flink_control_plane_poc.Temporal.Handlers.{
  ChangesState, ChangesDatatypes, suspend-returns, wake-returns, patch-returns,
}

module _ (service : Service) (family : String) (c₀ : MockCluster) where
  pub enter-returns :
      (desired : FamilyState) (s : Site)
      → ChangesState service family c₀ s
      → Ensures
          (ChangesState service family c₀)
          (λ t. (state_of t.files family ≡ some desired) × (t.actor.state ≡ desired))
          (enter service desired s)
  unfolding enter
  enter-returns suspended s i =
      Ensures-bind (suspend service) (λ _. pure tt) s (suspend-returns service family c₀ s i)
        (λ _ t j q. Ensures.returned tt t j q)
  enter-returns running s i = wake-returns service family c₀ s i

  restore_state-returns :
      (desired : FamilyState) (status : FamilyStatus) (s : Site)
      → lookup family s.files.families ≡ some status
      → ChangesState service family c₀ s
      → Ensures
          (ChangesState service family c₀)
          (λ t. state_of t.files family ≡ some desired)
          (restore_state service status (some desired) s)
  unfolding restore_state
  restore_state-returns desired status s found i = elim (state_eq.dec status.state desired) [
    | yes same ↦ rw (if_pos _ same) (
        Ensures.returned false s i
          (view_found (λ x. x.state) family status s.files found ∙ ap some same))
    | no other ↦ rw (if_neg _ other) (
        Ensures-bind (enter service desired) (λ _. pure true) s (enter-returns desired s i)
          (λ _ t j reached. Ensures.returned true t j reached.0))
  ]

  restore_datatypes-returns :
      (datatypes : List String) (status : FamilyStatus) (s : Site)
      → lookup family s.files.families ≡ some status
      → ChangesDatatypes service family c₀ s
      → Ensures
          (ChangesDatatypes service family c₀)
          (λ t. datatypes_of t.files family ≡ some datatypes)
          (restore_datatypes service status (some datatypes) s)
  unfolding restore_datatypes
  restore_datatypes-returns datatypes status s found i =
      elim ((list_eq {A = String}).dec status.datatypes datatypes) [
        | yes same ↦ rw (if_pos _ same) (
            Ensures.returned false s i
              (view_found (λ x. x.datatypes) family status s.files found ∙ ap some same))
        | no other ↦ rw (if_neg _ other) (
            Ensures-bind (patch service datatypes) (λ _. pure true) s
              (patch-returns service family c₀ datatypes s i)
              (λ _ t j reached. Ensures.returned true t j reached.0))
      ]

  -- A handler that starts with the read of the stored status.
  pub after_read :
      {I Q : Site → Type 0} (rest : FamilyStatus → Handler UpdateResult) (s : Site)
      → s.actor.family ≡ family
      → I s
      → ((status : FamilyStatus)
          → lookup family s.files.families ≡ some status
          → Ensures I Q (rest status s))
      → Ensures I Q ((execute service Activities.read_status >>= rest) s)
  unfolding execute
  after_read {I} {Q} rest s mine i go = cases (
      subst
        (λ f.
          Reads family cluster_retry s.files
            (service.execute_activity cluster_retry (Activities.read_status f) s.files))
        (sym mine) (execute_activity-Reads family cluster_retry service s.files))
    where
      cases :
          {r : Result Failure FamilyStatus × MockCluster}
          → Reads family cluster_retry s.files r
          → Ensures {E = Failure} {A = UpdateResult} I Q (elim r.0 [
            | ok status ↦ rest status (record s { files = r.1 })
            | err e ↦ (err e, record s { files = r.1 })
          ])
      cases (Reads.known status found) = go status found
      cases (Reads.failed e missing) = Ensures.raised e s i

  pub restore-state-lem :
      (desired : FamilyState) (s : Site)
      → ChangesState service family c₀ s
      → Ensures
          (ChangesState service family c₀)
          (λ t. state_of t.files family ≡ some desired)
          (restore service (some desired) none s)
  unfolding restore restore_datatypes
  restore-state-lem desired s i =
      let last = λ (a : Bool). pure {S = Site} {E = Failure} (changed (a || false)) in
      after_read
        (λ status t.
          (restore_state service status (some desired) >>= last) (set_state status.state t))
        s i.1 i
        (λ status found.
          Ensures-bind (restore_state service status (some desired)) last (set_state status.state s)
            (restore_state-returns desired status (set_state status.state s) found i)
            (λ a t j reached. Ensures.returned _ t j reached))

  pub restore-datatypes-lem :
      (datatypes : List String) (s : Site)
      → ChangesDatatypes service family c₀ s
      → Ensures
          (ChangesDatatypes service family c₀)
          (λ t. datatypes_of t.files family ≡ some datatypes)
          (restore service none (some datatypes) s)
  unfolding restore restore_state
  restore-datatypes-lem datatypes s i =
      let last = λ (b : Bool). pure {S = Site} {E = Failure} (changed (false || b)) in
      after_read
        (λ status t.
          (restore_datatypes service status (some datatypes) >>= last) (set_state status.state t))
        s i.1 i
        (λ status found.
          Ensures-bind (restore_datatypes service status (some datatypes)) last
            (set_state status.state s)
            (restore_datatypes-returns datatypes status (set_state status.state s) found i)
            (λ a t j reached. Ensures.returned _ t j reached))
