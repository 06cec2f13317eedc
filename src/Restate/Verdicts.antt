-- ===== src/Restate/Verdicts.antt =====
-- What a client of the Restate workflow can rely on: by the steps, or by the HTTP status.
use flink_control_plane_poc.Prelude.{String, ◌≡◌, ◌≢◌, refl, [], List, arith}
use flink_control_plane_poc.Exec.{Result, ok, err}
use flink_control_plane_poc.Domain.{
  MoveDatatypeRequest, SagaFailure, SagaOutcome, rejected, compensated, compensation_incomplete,
}
use flink_control_plane_poc.Cluster.{snapshot}
use flink_control_plane_poc.Cluster.WellFormed.{IsWellFormed}
use flink_control_plane_poc.Saga.{Failed, saga_error, unhandled, expected_steps}
use flink_control_plane_poc.Saga.Contract.{IsMoved, AllOrNothing, Promises}
use flink_control_plane_poc.Saga.Outcomes.{run-AllOrNothing}
use flink_control_plane_poc.Restate.Steps.{Engine}
use flink_control_plane_poc.Restate.Actor.{Store}
use flink_control_plane_poc.Restate.Saga.{
  Raised, TerminalError, raised, run, restate_actors, saga_http_status, saga_terminal_error,
}
use flink_control_plane_poc.Restate.Lawful.{restate_actors-IsLawful}

-- What each status says of the files.
abbrev pub StatusPromises : TerminalError → Store → Store → Type 0
StatusPromises e s t =
    (e.status_code ≡ 400 → t ≡ s)
    × (e.status_code ≡ 409 → (family : String) → snapshot t.files family ≡ snapshot s.files family)
    × (e.status_code ≡ 500 → e.payload.compensation_errors ≢ [])
    × (e.status_code ≡ saga_http_status e.payload.outcome)

abbrev pub Settled : MoveDatatypeRequest → Store → Result Raised (List String) × Store → Type 0
Settled request s (ok steps, t) = (steps ≡ expected_steps request) × IsMoved request s.files t.files
Settled request s (err (Raised.verdict e), t) = StatusPromises e s t
Settled request s (err (Raised.read_error text), t) = t ≡ s

module _ (engine : Engine) where
  verdict_lem :
      (request : MoveDatatypeRequest) (failure : SagaFailure) (s t : Store)
      → Promises (restate_actors engine) request failure.outcome failure.compensation_errors s t
      → StatusPromises (saga_terminal_error failure) s t
  unfolding saga_terminal_error saga_http_status
  verdict_lem request failure s t = go failure.outcome
    where
      go :
          (outcome : SagaOutcome)
          → Promises (restate_actors engine) request outcome failure.compensation_errors s t
          → (saga_http_status outcome ≡ 400 → t ≡ s)
            × (saga_http_status outcome ≡ 409
                → (family : String) → snapshot t.files family ≡ snapshot s.files family)
            × (saga_http_status outcome ≡ 500 → failure.compensation_errors ≢ [])
            × (saga_http_status outcome ≡ saga_http_status outcome)
      go rejected h =
          ((λ _. h.0), (λ e. absurd (omega (arith, e))), (λ e. absurd (omega (arith, e))), refl)
      go compensated h =
          ((λ e. absurd (omega (arith, e))), (λ _. h.2), (λ e. absurd (omega (arith, e))), refl)
      go compensation_incomplete h =
          ((λ e. absurd (omega (arith, e))), (λ e. absurd (omega (arith, e))), (λ _. h.0), refl)

  -- A run of the Restate workflow from well-formed files either returns the six steps, with the
  -- datatype moved; or raises the error of a read, with nothing changed; or raises a terminal error
  -- whose status is that of its verdict, where 400 means that nothing has changed, 409 that every
  -- family has the state and the datatypes that it had, and 500 that there are compensation errors.
  pub run-Settled :
      (request : MoveDatatypeRequest) (s : Store)
      → IsWellFormed s.files
      → Settled request s (run engine request s)
  unfolding run raised
  run-Settled request s formed = go _ (
      run-AllOrNothing (restate_actors engine) (restate_actors-IsLawful engine) request s (λ _. tt)
        formed)
    where
      go :
          (r : Result (Failed String) (List String) × Store)
          → AllOrNothing (restate_actors engine) request s r
          → Settled request s
              (elim r.0 [ ok steps ↦ (ok steps, r.1) | err e ↦ (err (raised e), r.1) ])
      go (ok steps, t) h = (h.0, h.2)
      go (err (saga_error e), t) h = verdict_lem request e.failure s t h
      go (err (unhandled text), t) h = h.0
