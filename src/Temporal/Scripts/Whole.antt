-- ===== src/Temporal/Scripts/Whole.antt =====
-- The handlers that are cut at each await, run without a break, and the handlers of Actor.
use mathlib.Core.Logic.{if_pos, if_neg}
use flink_control_plane_poc.Prelude.{
  String, ◌≡◌, refl, ◌∙◌, true, false, ◌||◌, Option, none, some, List,
}
use flink_control_plane_poc.Prelude.Equality.{string_eq, list_eq}
use flink_control_plane_poc.Exec.{Result, ok, err, pure, gets, modify}
use flink_control_plane_poc.Exec
use flink_control_plane_poc.Domain.{FamilyState, running, suspended, state_eq, FamilyStatus}
use flink_control_plane_poc.Temporal.Engine.{Failure, Service, UpdateResult, uri, changed, nothing}
use flink_control_plane_poc.Temporal.Activities
use flink_control_plane_poc.Temporal.Actor.{Site, Handler, set_state, execute}
use flink_control_plane_poc.Temporal.Actor
use flink_control_plane_poc.Temporal.Proxy.{CommandRequest, FamilyCommand, handler, or_empty}
use flink_control_plane_poc.Temporal.Scripts.{
  Program, run_all, done, Script, act, give, ◌>>=◌, suspend, wake, pause_from, pause, resume_from,
  resume, patch_config, enter, restore_state, restore_datatypes, restore, script, program,
}

-- A script that comes to the same as a handler, whatever follows.
record Runs {A : Type 0} (m : Script A) (h : Handler A) : Type 0 where
  pub same : (k : A → Program) (s : Site) → run_all (m k) s ≡ Exec.◌>>=◌ h (λ a. run_all (k a)) s

Runs-act : {A : Type 0} (h : Handler A) → Runs (act h) h
unfolding run_all act
Runs-act {A} h = record { same = λ k s. go k (h s) }
  where
    go :
        (k : A → Program) (r : Result Failure A × Site)
        → run_all (elim r.0 [ ok a ↦ k a | err e ↦ done (err e) ]) r.1
          ≡ elim r.0 [ ok a ↦ run_all (k a) r.1 | err e ↦ (err e, r.1) ]
    go k (ok a, t) = refl
    go k (err e, t) = refl

Runs-give : {A : Type 0} (a : A) → Runs (give a) (pure a)
Runs-give a = record { same = λ k s. refl }

Runs-bind :
    {A B : Type 0} {m : Script A} {h : Handler A} {f : A → Script B} {g : A → Handler B}
    → Runs m h
    → ((a : A) → Runs (f a) (g a))
    → Runs (m >>= f) (Exec.◌>>=◌ h g)
Runs-bind {A} {B} {m} {h} {f} {g} first rest = record {
  same = λ k s. first.same (λ a. f a k) s ∙ go k (h s);
}
  where
    go :
        (k : B → Program) (r : Result Failure A × Site)
        → elim r.0 [ ok a ↦ run_all (f a k) r.1 | err e ↦ (err e, r.1) ] ≡ (
            let q : Result Failure B × Site = elim r.0 [ ok a ↦ g a r.1 | err e ↦ (err e, r.1) ] in
            elim q.0 [ ok b ↦ run_all (k b) q.1 | err e ↦ (err e, q.1) ])
    go k (ok a, t) = (rest a).same k t
    go k (err e, t) = refl

module _ (service : Service) where
  suspend-Runs : Runs (suspend service) (Actor.suspend service)
  unfolding suspend Actor.suspend
  suspend-Runs = Runs-bind (Runs-act (execute service Activities.trigger_savepoint)) (λ savepoint.
      Runs-bind (Runs-act (execute service Activities.suspend_job)) (λ _.
        Runs-bind (Runs-act (modify (set_state FamilyState.suspended))) (λ _. Runs-give savepoint)))

  wake-Runs : Runs (wake service) (Actor.wake service)
  unfolding wake Actor.wake
  wake-Runs =
      Runs-bind (Runs-act (execute service Activities.resume_job))
        (λ _. Runs-act (modify (set_state FamilyState.running)))

  enter-Runs : (desired : FamilyState) → Runs (enter service desired) (Actor.enter service desired)
  unfolding enter Actor.enter
  enter-Runs suspended = Runs-bind suspend-Runs (λ _. Runs-give tt)
  enter-Runs running = wake-Runs

  pause_from-Runs :
      (state : FamilyState) → Runs (pause_from service state) (Actor.pause_from service state)
  unfolding pause_from Actor.pause_from
  pause_from-Runs suspended = Runs-give (uri none)
  pause_from-Runs running = Runs-bind suspend-Runs (λ savepoint. Runs-give (uri (some savepoint)))

  resume_from-Runs :
      (state : FamilyState) → Runs (resume_from service state) (Actor.resume_from service state)
  unfolding resume_from Actor.resume_from
  resume_from-Runs running = Runs-give (changed false)
  resume_from-Runs suspended = Runs-bind wake-Runs (λ _. Runs-give (changed true))

  pause-Runs : Runs (pause service) (Actor.pause service)
  unfolding pause Actor.pause
  pause-Runs = Runs-bind (Runs-act (gets (λ s. s.actor.state))) pause_from-Runs

  resume-Runs : Runs (resume service) (Actor.resume service)
  unfolding resume Actor.resume
  resume-Runs = Runs-bind (Runs-act (gets (λ s. s.actor.state))) resume_from-Runs

  patch_config-Runs :
      (datatypes : List String)
      → Runs (patch_config service datatypes) (Actor.patch_config service datatypes)
  unfolding patch_config Actor.patch_config
  patch_config-Runs datatypes =
      Runs-bind (Runs-act (Actor.patch service datatypes)) (λ _. Runs-give nothing)

  restore_state-Runs :
      (status : FamilyStatus) (desired : Option FamilyState)
      → Runs (restore_state service status desired) (Actor.restore_state service status desired)
  unfolding restore_state Actor.restore_state
  restore_state-Runs status none = Runs-give false
  restore_state-Runs status (some desired) = elim (state_eq.dec status.state desired) [
    | yes same ↦ rw (if_pos _ same) (Runs-give false)
    | no other ↦ rw (if_neg _ other) (Runs-bind (enter-Runs desired) (λ _. Runs-give true))
  ]

  restore_datatypes-Runs :
      (status : FamilyStatus) (datatypes : Option (List String))
      → Runs
          (restore_datatypes service status datatypes)
          (Actor.restore_datatypes service status datatypes)
  unfolding restore_datatypes Actor.restore_datatypes
  restore_datatypes-Runs status none = Runs-give false
  restore_datatypes-Runs status (some datatypes) =
      elim ((list_eq {A = String}).dec status.datatypes datatypes) [
        | yes same ↦ rw (if_pos _ same) (Runs-give false)
        | no other ↦
            rw (if_neg _ other)
              (Runs-bind (Runs-act (Actor.patch service datatypes)) (λ _. Runs-give true))
      ]

  restore-Runs :
      (desired : Option FamilyState) (datatypes : Option (List String))
      → Runs (restore service desired datatypes) (Actor.restore service desired datatypes)
  unfolding restore Actor.restore
  restore-Runs desired datatypes =
      Runs-bind (Runs-act (execute service Activities.read_status)) (λ status.
        Runs-bind (Runs-act (modify (set_state status.state))) (λ _.
          Runs-bind (restore_state-Runs status desired) (λ first.
            Runs-bind (restore_datatypes-Runs status datatypes)
              (λ second. Runs-give (changed (first || second))))))

  script-Runs : (request : CommandRequest) → Runs (script service request) (handler service request)
  unfolding script handler
  script-Runs request = go request.command
    where
      go :
          (command : FamilyCommand)
          → Runs
              (script service (record request { command = command }))
              (handler service (record request { command = command }))
      go FamilyCommand.pause = pause-Runs
      go FamilyCommand.resume = resume-Runs
      go FamilyCommand.patch_config = patch_config-Runs (or_empty request.datatypes)
      go FamilyCommand.restore = restore-Runs request.desired_state request.datatypes

  -- A handler that is not interrupted does what the handler of Actor does in one step.
  pub run_all-program :
      (request : CommandRequest) (s : Site)
      → run_all (program service request) s ≡ handler service request s
  unfolding program run_all
  run_all-program request s =
      (script-Runs request).same (λ a. done (ok a)) s ∙ go (handler service request s)
    where
      go :
          (r : Result Failure UpdateResult × Site)
          → elim r.0 [ ok a ↦ (ok a, r.1) | err e ↦ (err e, r.1) ] ≡ r
      go (ok a, t) = refl
      go (err e, t) = refl
