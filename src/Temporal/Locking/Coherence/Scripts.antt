-- ===== src/Temporal/Locking/Coherence/Scripts.antt =====
-- Each script, step by step: what it makes of the stored and of the remembered state.
use mathlib.Core.Logic.{if_pos, if_neg}
use flink_control_plane_poc.Prelude.{
  String, ◌≡◌, ◌≢◌, ◌⊎◌, inl, inr, ◌||◌, true, false, Option, none, some, List,
}
use flink_control_plane_poc.Prelude.Equality.{list_eq, string_eq}
use flink_control_plane_poc.Exec.{ok}
use flink_control_plane_poc.Domain.{FamilyState, running, suspended, state_eq, FamilyStatus}
use flink_control_plane_poc.Temporal.Engine.{Service, UpdateResult, uri, changed, nothing}
use flink_control_plane_poc.Temporal.Actor.{Site}
use flink_control_plane_poc.Temporal.Proxy.{CommandRequest, FamilyCommand, or_empty}
use flink_control_plane_poc.Temporal.Scripts.{
  done, Script, suspend, wake, pause_from, pause, resume_from, resume, patch_config, enter,
  restore_state, restore_datatypes, restore, script, program,
}
use flink_control_plane_poc.Temporal.Locking.Coherence.{
  IsCoherent, IsSound, View, At, Anything, Remembers, Keeps, Keeps-give, Keeps-bind,
  savepoint-Keeps, suspend_job-Keeps, resume_job-Keeps, set_state-Keeps, state-Keeps, patch-Keeps,
  read_status-Keeps,
}

module _ (family : String) (service : Service) (G : Type 0) where
  abbrev Keeping : {A : Type 0} → Script A → View → (A → View) → Type 0
  Keeping = Keeps family service G

  abbrev Same : View
  Same = Remembers G

  suspend-Keeps : {P : View} → Keeping (suspend service) P (λ _. Same)
  unfolding suspend
  suspend-Keeps = Keeps-bind family service G (savepoint-Keeps family service G) (λ savepoint.
      Keeps-bind family service G (suspend_job-Keeps family service G) (λ _.
        Keeps-bind family service G (set_state-Keeps family service G suspended)
          (λ _. Keeps-give family service G savepoint (λ _ _ h. h))))

  wake-Keeps : {P : View} → Keeping (wake service) P (λ _. Same)
  unfolding wake
  wake-Keeps =
      Keeps-bind family service G (resume_job-Keeps family service G)
        (λ _. set_state-Keeps family service G running)

  pause_from-Keeps : (state : FamilyState) → Keeping (pause_from service state) Same (λ _. Same)
  unfolding pause_from
  pause_from-Keeps suspended = Keeps-give family service G (uri none) (λ _ _ h. h)
  pause_from-Keeps running =
      Keeps-bind family service G suspend-Keeps
        (λ savepoint. Keeps-give family service G (uri (some savepoint)) (λ _ _ h. h))

  resume_from-Keeps : (state : FamilyState) → Keeping (resume_from service state) Same (λ _. Same)
  unfolding resume_from
  resume_from-Keeps running = Keeps-give family service G (changed false) (λ _ _ h. h)
  resume_from-Keeps suspended =
      Keeps-bind family service G wake-Keeps
        (λ _. Keeps-give family service G (changed true) (λ _ _ h. h))

  pause-Keeps : Keeping (pause service) Same (λ _. Same)
  unfolding pause
  pause-Keeps = Keeps-bind family service G (state-Keeps family service G) pause_from-Keeps

  resume-Keeps : Keeping (resume service) Same (λ _. Same)
  unfolding resume
  resume-Keeps = Keeps-bind family service G (state-Keeps family service G) resume_from-Keeps

  patch_config-Keeps :
      (datatypes : List String) → Keeping (patch_config service datatypes) Same (λ _. Same)
  unfolding patch_config
  patch_config-Keeps datatypes =
      Keeps-bind family service G (patch-Keeps family service G datatypes)
        (λ _. Keeps-give family service G nothing (λ _ _ h. h))

  enter-Keeps : (desired : FamilyState) → Keeping (enter service desired) Same (λ _. Same)
  unfolding enter
  enter-Keeps suspended =
      Keeps-bind family service G suspend-Keeps (λ _. Keeps-give family service G tt (λ _ _ h. h))
  enter-Keeps running = wake-Keeps

  restore_state-Keeps :
      (status : FamilyStatus) (desired : Option FamilyState)
      → Keeping (restore_state service status desired) Same (λ _. Same)
  unfolding restore_state
  restore_state-Keeps status none = Keeps-give family service G false (λ _ _ h. h)
  restore_state-Keeps status (some desired) = elim (state_eq.dec status.state desired) [
    | yes same ↦ rw (if_pos _ same) (Keeps-give family service G false (λ _ _ h. h))
    | no other ↦ rw (if_neg _ other) (
        Keeps-bind family service G (enter-Keeps desired)
          (λ _. Keeps-give family service G true (λ _ _ h. h)))
  ]

  restore_datatypes-Keeps :
      (status : FamilyStatus) (datatypes : Option (List String))
      → Keeping (restore_datatypes service status datatypes) Same (λ _. Same)
  unfolding restore_datatypes
  restore_datatypes-Keeps status none = Keeps-give family service G false (λ _ _ h. h)
  restore_datatypes-Keeps status (some datatypes) =
      elim ((list_eq {A = String}).dec status.datatypes datatypes) [
        | yes same ↦ rw (if_pos _ same) (Keeps-give family service G false (λ _ _ h. h))
        | no other ↦ rw (if_neg _ other) (
            Keeps-bind family service G (patch-Keeps family service G datatypes)
              (λ _. Keeps-give family service G true (λ _ _ h. h)))
      ]

  -- A restore reads the stored state first, so that it needs nothing.
  restore-Keeps :
      {P : View} (desired : Option FamilyState) (datatypes : Option (List String))
      → Keeping (restore service desired datatypes) P (λ _. Same)
  unfolding restore
  restore-Keeps desired datatypes =
      Keeps-bind family service G (read_status-Keeps family service G) (λ status.
        Keeps-bind family service G (set_state-Keeps family service G status.state) (λ _.
          Keeps-bind family service G (restore_state-Keeps status desired) (λ first.
            Keeps-bind family service G (restore_datatypes-Keeps status datatypes)
              (λ second. Keeps-give family service G (changed (first || second)) (λ _ _ h. h)))))

  ends :
      {P : View} (m : Script UpdateResult) (s : Site)
      → Keeping m P (λ _. Same)
      → s.actor.family ≡ family
      → At family P s
      → IsSound family service G (m (λ a. done (ok a))) s
  ends m s keeps mine p = keeps.sound (λ a. done (ok a)) s mine p (λ _ _ _ q. q)

-- Each command is sound: a restore from any state, and the others as far as the actor remembers the
-- stored state to begin with.
pub program-IsSound :
    (family : String) (service : Service) (clean : Type 0) (request : CommandRequest) (s : Site)
    → s.actor.family ≡ family
    → (clean → IsCoherent family s)
    → IsSound family service
        ((request.command ≡ FamilyCommand.restore) ⊎ clean)
        (program service request)
        s
unfolding program script
program-IsSound family service clean request s mine coherent = go request.command
  where
    ordinary :
        (command : FamilyCommand)
        → command ≢ FamilyCommand.restore
        → (command ≡ FamilyCommand.restore) ⊎ clean
        → IsCoherent family s
    ordinary command other (inl same) = absurd (other same)
    ordinary command other (inr ready) = coherent ready

    go :
        (command : FamilyCommand)
        → IsSound family service
            ((command ≡ FamilyCommand.restore) ⊎ clean)
            (program service (record request { command = command }))
            s
    go FamilyCommand.pause =
        ends family service _ (pause service) s (pause-Keeps family service _) mine
          (ordinary FamilyCommand.pause (λ e. cc))
    go FamilyCommand.resume =
        ends family service _ (resume service) s (resume-Keeps family service _) mine
          (ordinary FamilyCommand.resume (λ e. cc))
    go FamilyCommand.patch_config =
        ends family service _ (patch_config service (or_empty request.datatypes)) s
          (patch_config-Keeps family service _ (or_empty request.datatypes)) mine
          (ordinary FamilyCommand.patch_config (λ e. cc))
    go FamilyCommand.restore =
        ends family service _ {P = Anything}
          (restore service request.desired_state request.datatypes) s
          (restore-Keeps family service _ request.desired_state request.datatypes) mine tt
