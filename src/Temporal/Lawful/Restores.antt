-- ===== src/Temporal/Lawful/Restores.antt =====
-- The restores of the saga, sent through the proxy.
use mathlib.Core.Path.{subst₂}
use flink_control_plane_poc.Prelude.{ℕ, String, ◌≡◌, ◌≢◌, refl, sym, ap, ◌∙◌, none, some, List}
use flink_control_plane_poc.Prelude.Equality.{string_eq}
use flink_control_plane_poc.Cluster.WellFormed.{IsWellFormed}
use flink_control_plane_poc.Exec.{pure, Ensures, Ensures-bind, Ensures-map}
use flink_control_plane_poc.Domain.{FamilyState}
use flink_control_plane_poc.Cluster.Frame.{state_of, datatypes_of}
use flink_control_plane_poc.Cluster.Changes.{
  OnlyState, OnlyDatatypes, OnlyState-refl, OnlyDatatypes-refl,
}
use flink_control_plane_poc.Actors.{Command, Compensation}
use flink_control_plane_poc.Temporal.Engine.{Service}
use flink_control_plane_poc.Temporal.Actor
use flink_control_plane_poc.Temporal.Actor.{Site, actor_id}
use flink_control_plane_poc.Temporal.Proxy.{World, FamilyCommand, CommandResult, handler}
use flink_control_plane_poc.Temporal.Ids.{update_id}
use flink_control_plane_poc.Actors.Steps.{step_key}
use flink_control_plane_poc.Temporal.Saga.{send, restore}
use flink_control_plane_poc.Temporal.Handlers.Restores.{restore-state-lem, restore-datatypes-lem}
use flink_control_plane_poc.Temporal.Serving.{send-Ensures}
use flink_control_plane_poc.Temporal.Lawful.Commands.{IsNew, Sent-IsNew}

module _ (service : Service) (workflow_id run_id : String) where
  restore-sends :
      {I K : World → Type 0} (index : ℕ) (item : Compensation) (w : World)
      → Ensures I K (
          send service
            (record {
              family = item.family;
              command = FamilyCommand.restore;
              update_id =
                  update_id workflow_id run_id (step_key (Command.restore index item.label));
              datatypes = item.datatypes;
              desired_state = item.desired_state;
            })
            w)
      → Ensures I K (restore service workflow_id run_id index item w)
  unfolding restore
  restore-sends index item w h =
      Ensures-bind (send service _) (λ (result : CommandResult). pure result.changed) w h
        (λ result t i k. Ensures.returned result.changed t i k)

  pub restore-state-Ensures :
      (index : ℕ) (item : Compensation) (desired : FamilyState) (w : World)
      → (item.desired_state ≡ some desired)
      → (item.datatypes ≡ none)
      → IsNew service workflow_id run_id w (Command.restore index item.label)
      → IsWellFormed w.files
      → Ensures
          (λ t.
            OnlyState item.family w.files t.files
            × ((other : Command)
                → other ≢ Command.restore index item.label
                → IsNew service workflow_id run_id w other
                → IsNew service workflow_id run_id t other))
          (λ t. state_of t.files item.family ≡ some desired)
          (restore service workflow_id run_id index item w)
  unfolding handler
  restore-state-Ensures index item desired w wants rest new formed =
      Ensures-map
        (λ t h. (
          h.0,
          Sent-IsNew service workflow_id run_id item.family (OnlyState item.family w.files)
              (Command.restore index item.label) w t h,
        ))
        (λ t h q. ap (λ c. state_of c item.family) q.files ∙ q.reached)
        (restore-sends index item w (
          send-Ensures service item.family (OnlyState item.family w.files)
            (λ _ site. state_of site.files item.family ≡ some desired) _
            (λ site i.
              subst₂
                (λ x y.
                  Ensures
                    (λ t. OnlyState item.family w.files t.files × (t.actor.family ≡ item.family))
                    (λ t. state_of t.files item.family ≡ some desired)
                    (Actor.restore service x y site))
                (sym wants) (sym rest)
                (restore-state-lem service item.family w.files desired site i))
            refl w (new item.family) (OnlyState-refl item.family w.files formed)))

  pub restore-datatypes-Ensures :
      (index : ℕ) (item : Compensation) (datatypes : List String) (w : World)
      → (item.datatypes ≡ some datatypes)
      → (item.desired_state ≡ none)
      → IsNew service workflow_id run_id w (Command.restore index item.label)
      → IsWellFormed w.files
      → Ensures
          (λ t.
            OnlyDatatypes item.family w.files t.files
            × ((other : Command)
                → other ≢ Command.restore index item.label
                → IsNew service workflow_id run_id w other
                → IsNew service workflow_id run_id t other))
          (λ t. datatypes_of t.files item.family ≡ some datatypes)
          (restore service workflow_id run_id index item w)
  unfolding handler
  restore-datatypes-Ensures index item datatypes w wants rest new formed =
      Ensures-map
        (λ t h. (
          h.0,
          Sent-IsNew service workflow_id run_id item.family (OnlyDatatypes item.family w.files)
              (Command.restore index item.label) w t h,
        ))
        (λ t h q. ap (λ c. datatypes_of c item.family) q.files ∙ q.reached)
        (restore-sends index item w (
          send-Ensures service item.family (OnlyDatatypes item.family w.files)
            (λ _ site. datatypes_of site.files item.family ≡ some datatypes) _
            (λ site i.
              subst₂
                (λ x y.
                  Ensures
                    (λ t.
                      OnlyDatatypes item.family w.files t.files × (t.actor.family ≡ item.family))
                    (λ t. datatypes_of t.files item.family ≡ some datatypes)
                    (Actor.restore service x y site))
                (sym rest) (sym wants)
                (restore-datatypes-lem service item.family w.files datatypes site i))
            refl w (new item.family) (OnlyDatatypes-refl item.family w.files formed)))
