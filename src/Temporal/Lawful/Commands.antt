-- ===== src/Temporal/Lawful/Commands.antt =====
-- The forward commands of the saga, sent through the proxy.
use flink_control_plane_poc.Prelude.{String, ◌≡◌, ◌≢◌, refl, sym, ap, ◌∙◌, Option, none, some, List}
use flink_control_plane_poc.Prelude.Equality.{string_eq}
use flink_control_plane_poc.Cluster.WellFormed.{IsWellFormed}
use flink_control_plane_poc.Exec.{pure, Ensures, Ensures-bind, Ensures-map}
use flink_control_plane_poc.Domain.{FamilyState, running, suspended}
use flink_control_plane_poc.Cluster.{MockCluster}
use flink_control_plane_poc.Cluster.Frame.{state_of, datatypes_of}
use flink_control_plane_poc.Cluster.Changes.{
  OnlyState, OnlyDatatypes, OnlyState-refl, OnlyDatatypes-refl,
}
use flink_control_plane_poc.Actors.{Command}
use flink_control_plane_poc.Temporal.Engine.{Service}
use flink_control_plane_poc.Temporal.Actor.{Site, actor_id}
use flink_control_plane_poc.Temporal.Proxy.{World, FamilyCommand, handler}
use flink_control_plane_poc.Temporal.Ids.{update_id, update_id-injective}
use flink_control_plane_poc.Actors.Steps.{step_key}
use flink_control_plane_poc.Temporal.Saga.{send, call}
use flink_control_plane_poc.Temporal.Handlers.{pause_lem, resume_lem, patch_config_lem}
use flink_control_plane_poc.Temporal.Serving.{Handled, Sent, send-Ensures}

module _ (service : Service) (workflow_id run_id : String) where
  abbrev pub IsNew : World → Command → Type 0
  IsNew w command =
      (family : String)
      → w.updates (actor_id family) (update_id workflow_id run_id (step_key command)) ≡ none

  -- The other commands of the execution are as new as before.
  pub Sent-IsNew :
      (family : String) (J : MockCluster → Type 0) (command : Command) (w t : World)
      → Sent service family J
          (λ _ _. Unit {0})
          (update_id workflow_id run_id (step_key command))
          w
          t
      → (other : Command) → other ≢ command
      → IsNew w other
      → IsNew t other
  Sent-IsNew family J command w t sent other ne new name =
      sent.2 (actor_id name) (update_id workflow_id run_id (step_key other))
        (λ e. ne (update_id-injective workflow_id run_id other command e))
      ∙ new name

  call-Ensures :
      {I K : World → Type 0} (command : FamilyCommand) (family : String) (step : Command)
      (datatypes : Option (List String)) (w : World)
      → Ensures I K (
          send service
            (record {
              family = family;
              command = command;
              update_id = update_id workflow_id run_id (step_key step);
              datatypes = datatypes;
              desired_state = none;
            })
            w)
      → Ensures I K (call service workflow_id run_id command family step datatypes w)
  unfolding call
  call-Ensures command family step datatypes w h =
      Ensures-bind (send service _) (λ _. pure tt) w h (λ _ t i k. Ensures.returned tt t i k)

  pub pause-Ensures :
      (family : String) (w : World)
      → IsNew w (Command.pause family)
      → IsWellFormed w.files
      → Ensures
          (λ t.
            OnlyState family w.files t.files
            × ((other : Command) → other ≢ Command.pause family → IsNew w other → IsNew t other)
            × ((other : String)
                → other ≢ family
                → w.actors other ≡ some suspended
                → t.actors other ≡ some suspended))
          (λ t. t.actors family ≡ some suspended)
          (call service workflow_id run_id FamilyCommand.pause family (Command.pause family) none w)
  unfolding handler
  pause-Ensures family w new formed =
      Ensures-map
        (λ t h. (
          h.0,
          Sent-IsNew family (OnlyState family w.files) (Command.pause family) w t h,
          λ other ne paused. h.1 other ne ∙ paused,
        ))
        (λ t h q. q.actor ∙ ap some q.reached)
        (call-Ensures FamilyCommand.pause family (Command.pause family) none w (
          send-Ensures service family (OnlyState family w.files)
            (λ _ site. site.actor.state ≡ suspended) _
            (λ site i. pause_lem service family w.files site i) refl w (new family)
            (OnlyState-refl family w.files formed)))

  pub resume-Ensures :
      (family : String) (w : World)
      → IsNew w (Command.resume family)
      → IsWellFormed w.files
      → Ensures
          (λ t.
            OnlyState family w.files t.files
            × ((other : Command) → other ≢ Command.resume family → IsNew w other → IsNew t other)
            × ((other : String)
                → other ≢ family
                → w.actors other ≡ some suspended
                → t.actors other ≡ some suspended))
          (λ t. w.actors family ≡ some suspended → state_of t.files family ≡ some running)
          (call service workflow_id run_id FamilyCommand.resume family
            (Command.resume family)
            none
            w)
  unfolding handler
  resume-Ensures family w new formed =
      Ensures-map
        (λ t h. (
          h.0,
          Sent-IsNew family (OnlyState family w.files) (Command.resume family) w t h,
          λ other ne paused. h.1 other ne ∙ paused,
        ))
        (λ t h q paused. ap (λ c. state_of c family) q.files ∙ q.reached (q.was suspended paused))
        (call-Ensures FamilyCommand.resume family (Command.resume family) none w (
          send-Ensures service family (OnlyState family w.files)
            (λ state site. state ≡ suspended → state_of site.files family ≡ some running) _
            (λ site i. resume_lem service family w.files site i) refl w (new family)
            (OnlyState-refl family w.files formed)))

  -- A patch leaves the actor's state alone.
  abbrev Patched : String → List String → FamilyState → Site → Type 0
  Patched family datatypes state site =
      (datatypes_of site.files family ≡ some datatypes) × (site.actor.state ≡ state)

  pub patch-Ensures :
      (family : String) (datatypes : List String) (w : World)
      → IsNew w (Command.patch family)
      → IsWellFormed w.files
      → Ensures
          (λ t.
            OnlyDatatypes family w.files t.files
            × ((other : Command) → other ≢ Command.patch family → IsNew w other → IsNew t other))
          (λ t.
            (datatypes_of t.files family ≡ some datatypes)
            × ((other : String)
                → w.actors other ≡ some suspended
                → t.actors other ≡ some suspended))
          (call service workflow_id run_id FamilyCommand.patch_config family
            (Command.patch family)
            (some datatypes)
            w)
  unfolding handler
  patch-Ensures family datatypes w new formed =
      Ensures-map
        (λ t h.
          (h.0, Sent-IsNew family (OnlyDatatypes family w.files) (Command.patch family) w t h))
        (λ t h
            (q : Handled service family (OnlyDatatypes family w.files) (Patched family datatypes) w
              t).
          (
            ap (λ c. datatypes_of c family) q.files ∙ q.reached.0,
            λ other paused. elim (string_eq.dec other family) [
              | yes same ↦
                  ap t.actors same
                  ∙ q.actor
                  ∙ ap some (q.reached.1 ∙ q.was suspended (ap w.actors (sym same) ∙ paused))
              | no ne ↦ h.1 other ne ∙ paused
            ],
          ))
        (call-Ensures FamilyCommand.patch_config family (Command.patch family) (some datatypes) w (
          send-Ensures service family (OnlyDatatypes family w.files) (Patched family datatypes) _
            (λ site i.
              Ensures-map (λ _ j. j) (λ _ _ q. (q.0, ap (λ actor. actor.state) q.1))
                (patch_config_lem service family w.files datatypes site i))
            refl w (new family) (OnlyDatatypes-refl family w.files formed)))
