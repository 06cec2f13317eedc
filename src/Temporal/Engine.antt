-- ===== src/Temporal/Engine.antt =====
-- What poc/temporal asks of the Temporal service: activities that are retried by a policy, and
-- updates that are carried out once for each id in one run of a workflow. The service is a parameter.
use flink_control_plane_poc.Prelude.{
  ℕ, suc, ◌≤◌, ◌<◌, String, ◌≡◌, ◌≢◌, ◌⊎◌, Bool, true, false, not, ◌||◌, Option, none, some, List,
  if◌then◌else◌,
}
use flink_control_plane_poc.Prelude.Equality.{◌==◌, string_eq, contains}
use flink_control_plane_poc.Exec.{Result, ok, err, Exec}

-- An exception that leaves an activity: the name of its type, its text, and whether it is an
-- `ApplicationError` that says `non_retryable`.
pub record ActivityError : Type 0 where
  pub type : String
  pub text : String
  pub non_retryable : Bool

abbrev pub Activity : Type 0 → Type 0 → Type 0
Activity S A = Exec S ActivityError A

-- The fields of `RetryPolicy` that decide whether there is another attempt. `none` attempts is the
-- default: no limit.
pub record RetryPolicy : Type 0 where
  pub maximum_attempts : Option ℕ
  pub non_retryable_error_types : List String

abbrev pub is_retried : RetryPolicy → ActivityError → Bool
is_retried policy e = not (e.non_retryable || contains e.type policy.non_retryable_error_types)

-- How a workflow sees an activity fail: with the text of the last cause, or never, where the
-- policy has no limit and the attempts go on.
pub data Failure : Type 0 where
  failed : String → Failure
  endless : Failure

-- The attempts at an activity, by their number. An attempt may never start, and the answer of one
-- that has run to its end may be lost: the service then tries again, or gives up at the limit.
pub data Attempts {S A : Type 0} (policy : RetryPolicy) (fn : Activity S A)
    : ℕ → S → Result Failure A × S → Type 0 where
  returned : (a : A) (s t : S) → fn s ≡ (ok a, t) → Attempts policy fn 1 s (ok a, t)
  gave_up :
      (e : ActivityError) (s t : S)
      → fn s ≡ (err e, t)
      → (is_retried policy e ≡ false) ⊎ (policy.maximum_attempts ≢ none)
      → Attempts policy fn 1 s (err (failed e.text), t)
  unanswered :
      (r : Result ActivityError A) (text : String) (s t : S)
      → fn s ≡ (r, t)
      → policy.maximum_attempts ≢ none
      → Attempts policy fn 1 s (err (failed text), t)
  unstarted :
      (text : String) (s : S)
      → policy.maximum_attempts ≢ none
      → Attempts policy fn 1 s (err (failed text), s)
  going_on :
      (e : ActivityError) (s t : S)
      → fn s ≡ (err e, t)
      → is_retried policy e ≡ true
      → policy.maximum_attempts ≡ none
      → Attempts policy fn 1 s (err endless, t)
  again :
      (e : ActivityError) (n : ℕ) (s t : S) (r : Result Failure A × S)
      → fn s ≡ (err e, t)
      → is_retried policy e ≡ true
      → Attempts policy fn n t r
      → Attempts policy fn (suc n) s r
  lost :
      (a : Result ActivityError A) (n : ℕ) (s t : S) (r : Result Failure A × S)
      → fn s ≡ (a, t)
      → Attempts policy fn n t r
      → Attempts policy fn (suc n) s r
  missed :
      (n : ℕ) (s : S) (r : Result Failure A × S)
      → Attempts policy fn n s r
      → Attempts policy fn (suc n) s r

-- What a finished run of an activity is: its attempts, no more than the policy allows.
pub record Executed {S A : Type 0} (policy : RetryPolicy) (fn : Activity S A) (s : S)
    (r : Result Failure A × S) : Type 0 where
  pub made : ℕ
  pub attempts : Attempts policy fn made s r
  pub allowed : (limit : ℕ) → 0 < limit → policy.maximum_attempts ≡ some limit → made ≤ limit

-- What an update of an actor returns: of `pause`, of `resume` and `restore`, and of `patch_config`.
pub data UpdateResult : Type 0 where
  uri : Option String → UpdateResult
  changed : Bool → UpdateResult
  nothing : UpdateResult

-- How a client sees an update fail: `WorkflowUpdateFailedError`, by its cause, or no answer.
pub data UpdateError : Type 0 where
  update_failed : Failure → UpdateError
  no_answer : String → UpdateError

abbrev pub answer : Result Failure UpdateResult → Result UpdateError UpdateResult
answer (ok a) = ok a
answer (err e) = err (update_failed e)

-- What the service knows of the updates of a workflow that have finished in its present run, by their
-- ids.
abbrev pub Finished : Type 0
Finished = String → String → Option (Result Failure UpdateResult)

abbrev pub finish : String → String → Result Failure UpdateResult → Finished → Finished
finish workflow id r finished other_workflow other_id =
    if other_workflow == workflow
    then (if other_id == id then some r else finished other_workflow other_id)
    else finished other_workflow other_id

module _ {S : Type 0} (finished : S → Finished) (set : Finished → S → S) where
  -- `execute_update` with an id: a new id runs the handler, a known one gets the outcome that it
  -- had, and in both cases the answer may be lost.
  pub data Update (workflow id : String) (handler : Exec S Failure UpdateResult) (s : S)
      : Result UpdateError UpdateResult × S → Type 0 where
    unreached : (text : String) → Update workflow id handler s (err (no_answer text), s)
    ran :
        (r : Result Failure UpdateResult) (t : S)
        → finished s workflow id ≡ none
        → handler s ≡ (r, t)
        → Update workflow id handler s (answer r, set (finish workflow id r (finished t)) t)
    ran_unheard :
        (r : Result Failure UpdateResult) (t : S) (text : String)
        → finished s workflow id ≡ none
        → handler s ≡ (r, t)
        → Update workflow id handler s
            (err (no_answer text), set (finish workflow id r (finished t)) t)
    known :
        (r : Result Failure UpdateResult)
        → finished s workflow id ≡ some r
        → Update workflow id handler s (answer r, s)

pub record Service : Type 1 where
  -- `str` of the exception
  pub error_text : Failure → String
  pub execute_activity : {S A : Type 0} → RetryPolicy → Activity S A → S → Result Failure A × S
  pub execute_activity-Executed :
      {S A : Type 0} (policy : RetryPolicy) (fn : Activity S A) (s : S)
      → Executed policy fn s (execute_activity policy fn s)
  pub execute_update :
      {S : Type 0}
      → (S → Finished)
      → (Finished → S → S)
      → String
      → String
      → Exec S Failure UpdateResult
      → S
      → Result UpdateError UpdateResult × S
  pub execute_update-Update :
      {S : Type 0} (finished : S → Finished) (set : Finished → S → S) (workflow id : String)
      (handler : Exec S Failure UpdateResult) (s : S)
      → Update finished set workflow id handler s
          (execute_update finished set workflow id handler s)
