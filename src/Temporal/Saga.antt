-- ===== src/Temporal/Saga.antt =====
-- poc/temporal/saga.py: the saga as a workflow execution, whose commands go through the proxy.
use flink_control_plane_poc.Prelude.{true, ℕ, String, ◌≡◌, Bool, Option, none, some, List, []}
use flink_control_plane_poc.Exec.{Result, ok, err, Exec, pure, ◌>>=◌, ◌>>◌}
use flink_control_plane_poc.Domain.{
  suspended, FamilyStatus, MoveDatatypeRequest, SagaFailure, SagaError, saga_error_type,
}
use flink_control_plane_poc.Actors.{Actors, Compensation, Command}
use flink_control_plane_poc.Saga
use flink_control_plane_poc.Saga.{Failed, saga_error, unhandled}
use flink_control_plane_poc.Temporal.Engine.{RetryPolicy, Failure, Service}
use flink_control_plane_poc.Temporal.Activities
use flink_control_plane_poc.Temporal.Actor.{actor_id}
use flink_control_plane_poc.Temporal.Proxy.{
  World, FamilyCommand, CommandRequest, CommandResult, execute_family_command,
}
use flink_control_plane_poc.Temporal.Ids.{update_id}
use flink_control_plane_poc.Actors.Steps.{step_key}

-- `PROXY_RETRY`
abbrev pub proxy_retry : RetryPolicy
proxy_retry = record { maximum_attempts = some 3; non_retryable_error_types = [] }

-- the policy of an activity that names none
abbrev pub default_retry : RetryPolicy
default_retry = record { maximum_attempts = none; non_retryable_error_types = [] }

-- The arguments that `_failure` gives `ApplicationError`.
pub record ApplicationError : Type 0 where
  pub message : String
  pub details : SagaFailure
  pub type : String
  pub non_retryable : Bool

-- `_failure`, around the message and the report that all engines share
unfoldable pub application_error : SagaError → ApplicationError
unfolding saga_error_type
application_error e = record {
  message = e.message;
  details = e.failure;
  type = saga_error_type e.failure.outcome;
  non_retryable = true;
}

-- What the workflow ends with: a verdict, or the failure of a read.
pub data Raised : Type 0 where
  verdict : ApplicationError → Raised
  activity_error : Failure → Raised

unfoldable pub raised : Failed Failure → Raised
unfolding application_error
raised (saga_error e) = Raised.verdict (application_error e)
raised (unhandled e) = Raised.activity_error e

module _ (service : Service) where
  -- one read of `_read_all`
  unfoldable pub read_status : String → Exec World Failure FamilyStatus
  read_status family w =
      let (r, c) = service.execute_activity default_retry (Activities.read_status family) w.files in
      (r, record w { files = c })

  unfoldable pub send : CommandRequest → Exec World Failure CommandResult
  send request = service.execute_activity proxy_retry (execute_family_command service request)

  module _ (workflow_id run_id : String) where
    -- `_call`
    unfoldable pub call :
        FamilyCommand → String → Command → Option (List String) → Exec World Failure (Unit {0})
    unfolding send update_id
    call command family step datatypes = do
      send (record {
        family = family;
        command = command;
        update_id = update_id workflow_id run_id (step_key step);
        datatypes = datatypes;
        desired_state = none;
      })
      pure tt

    -- one restore of `_compensate`
    unfoldable pub restore : ℕ → Compensation → Exec World Failure Bool
    unfolding send update_id
    restore index item = do
      result ← send (record {
        family = item.family;
        command = FamilyCommand.restore;
        update_id = update_id workflow_id run_id (step_key (Command.restore index item.label));
        datatypes = item.datatypes;
        desired_state = item.desired_state;
      })
      pure result.changed

    -- The execution's view of the actors. A command is fresh while no actor has finished an update
    -- with its id.
    abbrev pub temporal_actors : Actors
    temporal_actors = record {
      S = World;
      E = Failure;
      cluster = λ w. w.files;
      text = service.error_text;
      read_status = read_status;
      pause = λ family. call FamilyCommand.pause family (Command.pause family) none;
      patch_config = λ family datatypes.
          call FamilyCommand.patch_config family (Command.patch family) (some datatypes);
      resume = λ family. call FamilyCommand.resume family (Command.resume family) none;
      restore = restore;
      IsPaused = λ w family. w.actors family ≡ some suspended;
      IsFresh = λ w command.
          (family : String)
          → w.updates (actor_id family) (update_id workflow_id run_id (step_key command)) ≡ none;
    }

    -- the saga's verdict as it leaves the common code
    unfoldable pub saga :
        MoveDatatypeRequest → World → Result (Failed Failure) (List String) × World
    unfolding Saga.run
    saga = Saga.run temporal_actors

    -- `MoveDatatypeWorkflow.run`
    unfoldable pub run : MoveDatatypeRequest → World → Result Raised (List String) × World
    unfolding saga raised
    run request w =
        let (r, t) = saga request w in
        elim r [ ok steps ↦ (ok steps, t) | err e ↦ (err (raised e), t) ]
