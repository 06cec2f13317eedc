-- ===== src/Saga.antt =====
-- The move saga, whose text is the same in poc/baseline/saga.py, poc/restate/saga.py and
-- poc/temporal/saga.py: over any actors.
pub mod Undo
pub mod Unhandled
pub mod Unwinding
pub mod Tracking
pub mod Forward
pub mod Contract
pub mod Validation
pub mod Outcomes
pub mod Completion
pub mod Effort
pub mod Report
use mathlib.Core.List.{reverse}
use flink_control_plane_poc.Prelude.{
  ℕ, ◌+◌, String, ◌<>◌, Bool, true, false, Option, none, some, List, [], ◌∷◌, ◌++◌, map, not,
  decimal, if◌then◌else◌,
}
use flink_control_plane_poc.Prelude.Equality.{◌==◌, string_eq, contains, without}
use flink_control_plane_poc.Prelude.Lists.{length}
use flink_control_plane_poc.Exec.{Result, ok, err, Exec, pure, raise, modify, ◌>>=◌, ◌>>◌}
use flink_control_plane_poc.Domain.{
  FamilyState, suspended, FamilyStatus, SagaOutcome, rejected, compensated, compensation_incomplete,
  MoveDatatypeRequest, families, SagaFailure, SagaError, outcome_value, saga_error_type,
}
use flink_control_plane_poc.Actors.{Actors, Compensation}

-- The dict of the statuses that were read, keyed by the request's two families.
pub record Statuses : Type 0 where
  pub source : FamilyStatus
  pub target : FamilyStatus

-- `statuses[family]` for a family of the request; the later key of the dict wins
unfoldable pub status_of : MoveDatatypeRequest → Statuses → String → FamilyStatus
status_of request statuses family =
    if family == request.target_family then statuses.target else statuses.source

-- `_validation_error`
unfoldable pub validation_error : MoveDatatypeRequest → Statuses → Option String
unfolding status_of
validation_error request statuses =
    if request.source_family == request.target_family
    then some "source and target family are the same"
    else if not
        (contains request.datatype (status_of request statuses request.source_family).datatypes)
    then some (request.datatype <> " is not owned by " <> request.source_family)
    else if contains request.datatype (status_of request statuses request.target_family).datatypes
    then some (request.datatype <> " is already owned by " <> request.target_family)
    else none

-- `new_config`
unfoldable pub new_config : MoveDatatypeRequest → Statuses → String → List String
unfolding status_of
new_config request statuses family =
    if family == request.target_family
    then (status_of request statuses request.target_family).datatypes ++ request.datatype ∷ []
    else without request.datatype (status_of request statuses request.source_family).datatypes

unfoldable pub pause_restore : MoveDatatypeRequest → Statuses → String → Compensation
unfolding status_of
pause_restore request statuses family = record {
  label = "resume:" <> family;
  family = family;
  datatypes = none;
  desired_state = some (status_of request statuses family).state;
}

unfoldable pub config_restore : MoveDatatypeRequest → Statuses → String → Compensation
unfolding status_of
config_restore request statuses family = record {
  label = "revert:" <> family;
  family = family;
  datatypes = some (status_of request statuses family).datatypes;
  desired_state = none;
}

unfoldable pub resume_restore : String → Compensation
resume_restore family = record {
  label = "pause:" <> family;
  family = family;
  datatypes = none;
  desired_state = some suspended;
}

-- the steps in order
unfoldable pub expected_steps : MoveDatatypeRequest → List String
unfolding families
expected_steps request =
    map (λ f. "pause:" <> f) (families request)
    ++ map (λ f. "patch:" <> f) (families request)
    ++ map (λ f. "resume:" <> f) (families request)

pub first_missing : List String → List String → String
first_missing [] finished = "unknown"
first_missing (step ∷ steps) finished =
    let later = first_missing steps finished in if contains step finished then later else step

-- `_next_step`: the first step that is not in `done`
unfoldable pub next_step : MoveDatatypeRequest → List String → String
unfolding first_missing expected_steps
next_step request finished = first_missing (expected_steps request) finished

-- the three lists that `_compensate` returns
pub record Unwound : Type 0 where
  pub applied : List String
  pub noops : List String
  pub errors : List String

abbrev pub nothing_unwound : Unwound
nothing_unwound = record { applied = []; noops = []; errors = [] }

-- `_failure`
unfoldable pub failure : MoveDatatypeRequest → SagaOutcome → String → String → Unwound → SagaError
unfolding outcome_value saga_error_type
failure request outcome failed_step reason unwound = record {
  message = elim outcome [
    | rejected ↦
        outcome_value rejected
        <> ": move of "
        <> request.datatype
        <> " rejected at "
        <> failed_step
        <> ": "
        <> reason
    | other ↦
        outcome_value other
        <> ": move of "
        <> request.datatype
        <> " failed at "
        <> failed_step
        <> ": "
        <> reason
        <> "; rollback applied="
        <> decimal (length unwound.applied)
        <> " no_op="
        <> decimal (length unwound.noops)
        <> " failed="
        <> decimal (length unwound.errors)
  ];
  failure = record {
    outcome = outcome;
    failed_step = failed_step;
    reason = reason;
    compensated = unwound.applied;
    compensation_noops = unwound.noops;
    compensation_errors = unwound.errors;
  };
  type = saga_error_type outcome;
}

-- How a run ends without a result: by the saga's own verdict, or by what a read raised.
pub data Failed (E : Type 0) : Type 0 where
  saga_error : SagaError → Failed E
  unhandled : E → Failed E

-- The local variables of the `try` block beside the actors' state.
pub record Run (S : Type 0) : Type 0 where
  pub store : S
  pub done : List String
  pub stack : List Compensation

module _ (A : Actors) where
  open A use {S, E, text}

  abbrev pub Body : Type 0
  Body = Exec (Run S) E (Unit {0})

  -- a command of an actor, inside the `try` block
  unfoldable pub call : Exec S E (Unit {0}) → Body
  call command run = let (r, s) = command run.store in (r, record run { store = s })

  -- `stack.append(…)`, the command, `done.append(…)`
  unfoldable pub step : Compensation → Exec S E (Unit {0}) → String → Body
  unfolding call
  step compensation command label = do
    modify (λ run. record run { stack = run.stack ++ compensation ∷ [] })
    call command
    modify (λ run. record run { done = run.done ++ label ∷ [] })

  -- one `for family in request.families` loop
  unfoldable pub phase :
      (String → Compensation)
      → (String → Exec S E (Unit {0}))
      → (String → String)
      → List String
      → Body
  phase restore command label [] = pure tt
  phase restore command label (f ∷ fs) = do
    step (restore f) (command f) (label f)
    phase restore command label fs

  unfoldable pub forward : MoveDatatypeRequest → Statuses → Body
  forward request statuses = do
    phase (pause_restore request statuses) A.pause (λ f. "pause:" <> f) (families request)
    phase (config_restore request statuses) (λ f. A.patch_config f (new_config request statuses f))
        (λ f. "patch:" <> f) (families request)
    phase resume_restore A.resume (λ f. "resume:" <> f) (families request)

  -- one item of the unwinding: a failed restore is noted, and the rest goes on
  unfoldable pub tally : Compensation → Result E Bool → Unwound → Unwound
  tally item (ok true) unwound = record unwound { applied = unwound.applied ++ item.label ∷ [] }
  tally item (ok false) unwound = record unwound { noops = unwound.noops ++ item.label ∷ [] }
  tally item (err e) unwound = record unwound {
    errors = unwound.errors ++ (item.label <> ": " <> text e) ∷ [];
  }

  -- the items from the n-th one on
  unfoldable pub unwind : ℕ → List Compensation → Unwound → S → Unwound × S
  unwind index [] unwound s = (unwound, s)
  unwind index (item ∷ items) unwound s =
      let (r, s') = A.restore index item s in unwind (index + 1) items (tally item r unwound) s'

  -- `_compensate`
  unfoldable pub compensate : List Compensation → S → Unwound × S
  unfolding unwind tally
  compensate stack = unwind 0 (reverse stack) nothing_unwound

  -- `_read_all`
  unfoldable pub read_all : MoveDatatypeRequest → Exec S E Statuses
  read_all request = do
    source ← A.read_status request.source_family
    target ← A.read_status request.target_family
    pure (record { source = source; target = target })

  abbrev pub outcome_of : List String → SagaOutcome
  outcome_of [] = compensated
  outcome_of (_ ∷ _) = compensation_incomplete

  -- the `except` block
  unfoldable pub roll_back : MoveDatatypeRequest → E → Run S → Result (Failed E) (List String) × S
  unfolding compensate next_step
  roll_back request e run =
      let (unwound, s) = compensate run.stack run.store in
      (
        err (
            saga_error (
              failure request (outcome_of unwound.errors) (next_step request run.done) (text e)
                unwound)),
        s,
      )

  -- the `try` block
  unfoldable pub transact : MoveDatatypeRequest → Statuses → S → Result (Failed E) (List String) × S
  transact request statuses s =
      let (r, run) = forward request statuses (record { store = s; done = []; stack = [] }) in
      elim r [ ok _ ↦ (ok run.done, run.store) | err e ↦ roll_back request e run ]

  unfoldable pub judge : MoveDatatypeRequest → Statuses → S → Result (Failed E) (List String) × S
  judge request statuses s = elim (validation_error request statuses) [
    | some reason ↦
        (err (saga_error (failure request rejected "validate" reason nothing_unwound)), s)
    | none ↦ transact request statuses s
  ]

  -- `run`
  unfoldable pub run : MoveDatatypeRequest → S → Result (Failed E) (List String) × S
  run request s =
      let (r, s') = read_all request s in
      elim r [ ok statuses ↦ judge request statuses s' | err e ↦ (err (unhandled e), s') ]
