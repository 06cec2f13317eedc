-- ===== src/Temporal/Verdicts.antt =====
-- What the saga and the actors do on Temporal that they do not do elsewhere.
use mathlib.Core.Path.{subst}
use flink_control_plane_poc.Prelude.{String, ◌≡◌, refl, sym, ◌∙◌, true, none, ap, arith, List}
use flink_control_plane_poc.Prelude.Dict.{lookup}
use flink_control_plane_poc.Exec.{Result, ok, err}
use flink_control_plane_poc.Domain.{MoveDatatypeRequest, saga_error_type}
use flink_control_plane_poc.Cluster.{MockCluster}
use flink_control_plane_poc.Saga
use flink_control_plane_poc.Saga.{Failed, unhandled, saga_error, expected_steps}
use flink_control_plane_poc.Saga.Contract.{IsMoved, IsUnknown, Promises, AllOrNothing}
use flink_control_plane_poc.Saga.Outcomes.{run-AllOrNothing}
use flink_control_plane_poc.Actors.{Actors, Command}
use flink_control_plane_poc.Cluster.WellFormed.{IsWellFormed}
use flink_control_plane_poc.Temporal.Ids.{update_id}
use flink_control_plane_poc.Actors.Steps.{step_key}
use flink_control_plane_poc.Saga.Unhandled.{Passes, run-Passes}
use flink_control_plane_poc.Temporal.Lawful.Reads.{ReadEnds, read_status-ReadEnds, read-cases}
use flink_control_plane_poc.Temporal.Lawful.{temporal_actors-IsLawful}
use flink_control_plane_poc.Temporal.Engine.{Service, Failure, endless}
use flink_control_plane_poc.Temporal.Actor.{actor_id}
use flink_control_plane_poc.Temporal.Proxy.{World}
use flink_control_plane_poc.Temporal.Saga.{
  temporal_actors, read_status, saga, run, default_retry, Raised, raised, application_error,
}
use flink_control_plane_poc.Temporal.Executions.{execute_activity_endless}

module _ (service : Service) where
  read_status_endless :
      (family : String) (w : World)
      → lookup family w.files.families ≡ none
      → read_status service family w ≡ (err endless, w)
  unfolding read_status
  read_status_endless family w missing =
      ap (λ (p : Result Failure _ × MockCluster). (p.0, record w { files = p.1 }))
        (execute_activity_endless family default_retry service w.files refl refl missing)

module _ (service : Service) (workflow_id run_id : String) (request : MoveDatatypeRequest)
    (w : World) where
  abbrev actors : Actors
  actors = temporal_actors service workflow_id run_id

  -- What a run promises, by how it ends: a verdict is an error that is not retried, of the type that
  -- belongs to its outcome, and the only other failure stands for a read that never ends.
  abbrev pub Settled : Result Raised (List String) × World → Type 0
  Settled (ok steps, t) =
      (steps ≡ expected_steps request) × IsWellFormed t.files × IsMoved request w.files t.files
  Settled (err (Raised.activity_error e), t) = (e ≡ endless) × (t ≡ w) × IsUnknown actors request w
  Settled (err (Raised.verdict e), t) =
      (e.type ≡ saga_error_type e.details.outcome)
      × (e.non_retryable ≡ true)
      × Promises actors request e.details.outcome e.details.compensation_errors w t

  read-endless :
      (family : String) (s t : World) (e : Failure)
      → read_status service family s ≡ (err e, t)
      → e ≡ endless
  read-endless family s t e h =
      let (_, _, missing) =
        read-cases service family s _
          (subst (ReadEnds service family s) h (read_status-ReadEnds service family s)) in
      let never = read_status_endless service family s (missing e refl) in
      let same : err e ≡ err endless = ap (λ r. r.0) (sym h ∙ never) in cc

  -- A run whose update ids no actor has finished an update with, on well-formed files, returns the
  -- six steps, with the datatype moved; or never ends, in the read of a family of the move that has
  -- no file, with nothing changed; or raises an error that is not retried and has the type of its
  -- outcome: REJECTED with nothing changed, as the stored datatypes do not allow the move,
  -- COMPENSATED with every family as it was, or COMPENSATION_INCOMPLETE with a compensation error.
  -- No actor rolls over in the course of the run.
  pub run-Guarantees :
      ((command : Command) (family : String)
        → w.updates (actor_id family) (update_id workflow_id run_id (step_key command)) ≡ none)
      → IsWellFormed w.files
      → Settled (run service workflow_id run_id request w)
  unfolding run saga raised application_error
  run-Guarantees fresh formed =
      go (Saga.run actors request w)
        (run-AllOrNothing actors (temporal_actors-IsLawful service workflow_id run_id) request w
          fresh formed)
        (run-Passes actors (λ e. e ≡ endless) read-endless request w)
    where
      go :
          (r : Result (Failed Failure) (List String) × World)
          → AllOrNothing actors request w r
          → Passes actors (λ e. e ≡ endless) r.0
          → Settled (elim r.0 [ ok steps ↦ (ok steps, r.1) | err e ↦ (err (raised e), r.1) ])
      go (ok steps, t) h never = h
      go (err (saga_error e), t) h never = (refl, refl, h)
      go (err (unhandled e), t) h never = (never, h.0, h.1)

module _ (service : Service) where
  -- A move from a family that has no file never ends: the read is retried for ever, without a
  -- verdict and with nothing changed.
  pub run_endless :
      (workflow_id run_id : String) (request : MoveDatatypeRequest) (w : World)
      → lookup request.source_family w.files.families ≡ none
      → run service workflow_id run_id request w ≡ (err (Raised.activity_error endless), w)
  unfolding run saga raised Saga.run Saga.read_all
  run_endless workflow_id run_id request w missing =
      ground (arith, read_status_endless service request.source_family w missing)
