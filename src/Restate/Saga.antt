-- ===== src/Restate/Saga.antt =====
-- poc/restate/saga.py and poc/restate/errors.py: the saga as a Restate workflow, whose failures are
-- terminal errors with the verdict as payload.
use flink_control_plane_poc.Prelude.{◌≡◌, some, ℕ, String, ◌<>◌, List}
use flink_control_plane_poc.Exec.{Result, ok, err}
use flink_control_plane_poc.Domain.{
  suspended, SagaOutcome, rejected, compensated, compensation_incomplete, MoveDatatypeRequest,
  SagaFailure, outcome_value, saga_error_type,
}
use flink_control_plane_poc.Actors.{Actors}
use flink_control_plane_poc.Saga
use flink_control_plane_poc.Saga.{Failed, saga_error, unhandled}
use flink_control_plane_poc.Restate.Steps.{Engine}
use flink_control_plane_poc.Restate.Steps
use flink_control_plane_poc.Restate.Actor.{Store, run_typed}
use flink_control_plane_poc.Restate.Actor

-- The arguments that the saga gives `TerminalError`; of the metadata, the payload.
pub record TerminalError : Type 0 where
  pub message : String
  pub status_code : ℕ
  pub payload : SagaFailure

-- `encode_saga_failure`
unfoldable pub encode_saga_failure : SagaFailure → String
unfolding outcome_value saga_error_type
encode_saga_failure failure =
    "RESTATE_SAGA_V1:" <> outcome_value failure.outcome <> ":" <> saga_error_type failure.outcome

-- `SAGA_HTTP_STATUS`
unfoldable pub saga_http_status : SagaOutcome → ℕ
saga_http_status rejected = 400
saga_http_status compensated = 409
saga_http_status compensation_incomplete = 500

-- `saga_terminal_error`
unfoldable pub saga_terminal_error : SagaFailure → TerminalError
unfolding encode_saga_failure saga_http_status
saga_terminal_error failure = record {
  message = encode_saga_failure failure;
  status_code = saga_http_status failure.outcome;
  payload = failure;
}

-- What the workflow ends with: a verdict, or the terminal error of a read, by its message.
pub data Raised : Type 0 where
  verdict : TerminalError → Raised
  read_error : String → Raised

unfoldable pub raised : Failed String → Raised
unfolding saga_terminal_error
raised (saga_error e) = Raised.verdict (saga_terminal_error e.failure)
raised (unhandled text) = Raised.read_error text

module _ (engine : Engine) where
  -- What `ctx.object_call` reaches, with the saga's own durable read of a status.
  abbrev pub restate_actors : Actors
  restate_actors = record {
    S = Store;
    E = String;
    cluster = λ s. s.files;
    text = λ message. message;
    read_status = λ family. run_typed engine (Steps.read_status family);
    pause = Actor.pause engine;
    patch_config = Actor.patch_config engine;
    resume = Actor.resume engine;
    restore = λ _ item. Actor.restore engine item.family item.desired_state item.datatypes;
    IsPaused = λ s family. s.cache family ≡ some suspended;
    IsFresh = λ _ _. Unit {0};
  }

  -- `run`
  unfoldable pub run : MoveDatatypeRequest → Store → Result Raised (List String) × Store
  unfolding Saga.run raised
  run request s =
      let (r, t) = Saga.run restate_actors request s in
      elim r [ ok steps ↦ (ok steps, t) | err e ↦ (err (raised e), t) ]
