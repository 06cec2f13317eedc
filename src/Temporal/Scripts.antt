-- ===== src/Temporal/Scripts.antt =====
-- The handlers of poc/temporal/actor.py cut at each `await`, as the worker runs them: between two
-- steps of one handler, the worker may run others. A script is a part of a handler, by what follows
-- it.
pub mod Whole
use flink_control_plane_poc.Prelude.{
  String, Bool, true, false, ◌||◌, Option, none, some, List, if◌then◌else◌,
}
use flink_control_plane_poc.Prelude.Equality.{◌==◌, string_eq, list_eq}
use flink_control_plane_poc.Exec.{Result, ok, err, gets, modify}
use flink_control_plane_poc.Domain.{FamilyState, running, suspended, state_eq, FamilyStatus}
use flink_control_plane_poc.Temporal.Engine.{Failure, Service, UpdateResult, uri, changed, nothing}
use flink_control_plane_poc.Temporal.Activities
use flink_control_plane_poc.Temporal.Actor.{Site, Handler, set_state, execute}
use flink_control_plane_poc.Temporal.Actor
use flink_control_plane_poc.Temporal.Proxy.{CommandRequest, FamilyCommand, or_empty}

-- What is left of a handler: its outcome, or a next step, by how the handler goes on and what the
-- step leaves.
pub data Program : Type 0 where
  done : Result Failure UpdateResult → Program
  step : (Site → Program) → (Site → Site) → Program

-- The rest of a handler, run without a break.
unfoldable pub run_all : Program → Handler UpdateResult
run_all (done r) s = (r, s)
run_all (step next change) s = run_all (next s) (change s)

-- A part of a handler, by what follows it.
abbrev pub Script : Type 0 → Type 0
Script A = (A → Program) → Program

-- One step. An exception ends the handler.
unfoldable pub act : {A : Type 0} → Handler A → Script A
act h k = step (λ s. elim (h s).0 [ ok a ↦ k a | err e ↦ done (err e) ]) (λ s. (h s).1)

abbrev pub give : {A : Type 0} → A → Script A
give a k = k a

infixl 5 ◌>>=◌ ◌>>◌
abbrev pub ◌>>=◌ : {A B : Type 0} → Script A → (A → Script B) → Script B
◌>>=◌ m f k = m (λ a. f a k)

abbrev pub ◌>>◌ : {A B : Type 0} → Script A → Script B → Script B
m >> n = m >>= λ _. n

module _ (service : Service) where
  -- trigger_savepoint, then suspend_job
  unfoldable pub suspend : Script String
  unfolding act
  suspend = do
    savepoint ← act (execute service Activities.trigger_savepoint)
    act (execute service Activities.suspend_job)
    act (modify (set_state FamilyState.suspended))
    give savepoint

  unfoldable pub wake : Script (Unit {0})
  unfolding act
  wake = do
    act (execute service Activities.resume_job)
    act (modify (set_state FamilyState.running))

  unfoldable pub pause_from : FamilyState → Script UpdateResult
  unfolding suspend
  pause_from suspended = give (uri none)
  pause_from running = do savepoint ← suspend; give (uri (some savepoint))

  -- the test of `_state` comes first under the lock
  unfoldable pub pause : Script UpdateResult
  unfolding pause_from
  pause = do state ← act (gets (λ s. s.actor.state)); pause_from state

  unfoldable pub resume_from : FamilyState → Script UpdateResult
  unfolding wake
  resume_from running = give (changed false)
  resume_from suspended = do wake; give (changed true)

  unfoldable pub resume : Script UpdateResult
  unfolding resume_from
  resume = do state ← act (gets (λ s. s.actor.state)); resume_from state

  unfoldable pub patch_config : List String → Script UpdateResult
  unfolding act
  patch_config datatypes = do act (Actor.patch service datatypes); give nothing

  unfoldable pub enter : FamilyState → Script (Unit {0})
  unfolding suspend wake
  enter suspended = do suspend; give tt
  enter running = wake

  unfoldable pub restore_state : FamilyStatus → Option FamilyState → Script Bool
  unfolding enter
  restore_state status none = give false
  restore_state status (some desired) =
      if status.state == desired then give false else (do enter desired; give true)

  unfoldable pub restore_datatypes : FamilyStatus → Option (List String) → Script Bool
  unfolding act
  restore_datatypes status none = give false
  restore_datatypes status (some datatypes) =
      if status.datatypes == datatypes
      then give false
      else (do act (Actor.patch service datatypes); give true)

  unfoldable pub restore : Option FamilyState → Option (List String) → Script UpdateResult
  unfolding restore_state restore_datatypes
  restore desired_state datatypes = do
    status ← act (execute service Activities.read_status)
    act (modify (set_state status.state))
    state_changed ← restore_state status desired_state
    datatypes_changed ← restore_datatypes status datatypes
    give (changed (state_changed || datatypes_changed))

  unfoldable pub script : CommandRequest → Script UpdateResult
  script request = elim request.command [
    | FamilyCommand.pause ↦ pause
    | FamilyCommand.resume ↦ resume
    | FamilyCommand.patch_config ↦ patch_config (or_empty request.datatypes)
    | FamilyCommand.restore ↦ restore request.desired_state request.datatypes
  ]

  -- the body of the handler under `async with self._lock`
  unfoldable pub program : CommandRequest → Program
  unfolding script
  program request = script request (λ a. done (ok a))
