-- ===== src/Temporal/Coherence.antt =====
-- The state that an actor remembers, against the one in the files.
use mathlib.Core.Logic.{if_pos, if_neg}
use flink_control_plane_poc.Prelude.{
  String, ◌≡◌, sym, ap, ◌∙◌, ◌⊎◌, inl, inr, ◌||◌, Bool, true, false, Option, none, some, List,
}
use flink_control_plane_poc.Prelude.Equality.{list_eq, string_eq}
use flink_control_plane_poc.Exec.{pure, ◌>>=◌, Ensures, Ensures-bind, Ensures-map}
use flink_control_plane_poc.Domain.{FamilyState, running, suspended, state_eq, FamilyStatus}
use flink_control_plane_poc.Cluster.Frame.{state_of}
use flink_control_plane_poc.Cluster.WellFormed.{IsWellFormed}
use flink_control_plane_poc.Cluster.Changes.{OnlyState-refl, OnlyDatatypes-refl, view_found}
use flink_control_plane_poc.Temporal.Engine.{Failure, Service, UpdateResult, uri, changed, nothing}
use flink_control_plane_poc.Temporal.Actor.{
  Site, set_state, suspend, wake, pause_from, pause, resume_from, resume, patch, patch_config,
  enter, restore_state, restore_datatypes, restore,
}
use flink_control_plane_poc.Temporal.Proxy.{CommandRequest, FamilyCommand, handler, or_empty}
use flink_control_plane_poc.Temporal.Handlers.{suspend-returns, wake-returns, patch-returns}
use flink_control_plane_poc.Temporal.Handlers.Restores.{enter-returns, after_read}

module _ (service : Service) (family : String) where
  -- The actor of the family, on well-formed files.
  abbrev pub Serves : Site → Type 0
  Serves s = IsWellFormed s.files × (s.actor.family ≡ family)

  -- The actor remembers the state that is stored.
  abbrev pub IsCoherent : Site → Type 0
  IsCoherent s = state_of s.files family ≡ some s.actor.state

  enter-IsCoherent :
      (desired : FamilyState) (s : Site)
      → Serves s
      → Ensures Serves IsCoherent (enter service desired s)
  enter-IsCoherent desired s i =
      Ensures-map (λ t j. (let h = j.0 in h.formed, j.1)) (λ t _ q. q.0 ∙ ap some (sym q.1))
        (enter-returns service family s.files desired s (OnlyState-refl family s.files i.0, i.1))

  pause-IsCoherent :
      (s : Site) → Serves s → IsCoherent s → Ensures Serves IsCoherent (pause service s)
  unfolding pause pause_from
  pause-IsCoherent s i coherent = go s.actor.state
    where
      go : (state : FamilyState) → Ensures Serves IsCoherent (pause_from service state s)
      go suspended = Ensures.returned (uri none) s i coherent
      go running =
          Ensures-map (λ t j. (let h = j.0 in h.formed, j.1)) (λ t _ q. q.0 ∙ ap some (sym q.1))
            (Ensures-bind (suspend service) (λ savepoint. pure (uri (some savepoint))) s
              (suspend-returns service family s.files s (OnlyState-refl family s.files i.0, i.1))
              (λ savepoint t j q. Ensures.returned _ t j q))

  resume-IsCoherent :
      (s : Site) → Serves s → IsCoherent s → Ensures Serves IsCoherent (resume service s)
  unfolding resume resume_from
  resume-IsCoherent s i coherent = go s.actor.state
    where
      go : (state : FamilyState) → Ensures Serves IsCoherent (resume_from service state s)
      go running = Ensures.returned (changed false) s i coherent
      go suspended =
          Ensures-map (λ t j. (let h = j.0 in h.formed, j.1)) (λ t _ q. q.0 ∙ ap some (sym q.1))
            (Ensures-bind (wake service) (λ _. pure (changed true)) s
              (wake-returns service family s.files s (OnlyState-refl family s.files i.0, i.1))
              (λ _ t j q. Ensures.returned _ t j q))

  patch-IsCoherent :
      (datatypes : List String) (s : Site)
      → Serves s
      → IsCoherent s
      → Ensures Serves IsCoherent (patch service datatypes s)
  patch-IsCoherent datatypes s i coherent =
      Ensures-map (λ t j. (let h = j.0 in h.formed, j.1))
        (λ t j q. (let h = j.0 in h.states family) ∙ coherent ∙ ap (λ a. some a.state) (sym q.1))
        (patch-returns service family s.files datatypes s
          (OnlyDatatypes-refl family s.files i.0, i.1))

  restore_state-IsCoherent :
      (status : FamilyStatus) (desired : Option FamilyState) (s : Site)
      → Serves s
      → IsCoherent s
      → Ensures Serves IsCoherent (restore_state service status desired s)
  unfolding restore_state
  restore_state-IsCoherent status none s i coherent = Ensures.returned false s i coherent
  restore_state-IsCoherent status (some desired) s i coherent =
      elim (state_eq.dec status.state desired) [
        | yes same ↦ rw (if_pos _ same) (Ensures.returned false s i coherent)
        | no other ↦ rw (if_neg _ other) (
            Ensures-bind (enter service desired) (λ _. pure true) s (enter-IsCoherent desired s i)
              (λ _ t j q. Ensures.returned true t j q))
      ]

  restore_datatypes-IsCoherent :
      (status : FamilyStatus) (datatypes : Option (List String)) (s : Site)
      → Serves s
      → IsCoherent s
      → Ensures Serves IsCoherent (restore_datatypes service status datatypes s)
  unfolding restore_datatypes
  restore_datatypes-IsCoherent status none s i coherent = Ensures.returned false s i coherent
  restore_datatypes-IsCoherent status (some datatypes) s i coherent =
      elim ((list_eq {A = String}).dec status.datatypes datatypes) [
        | yes same ↦ rw (if_pos _ same) (Ensures.returned false s i coherent)
        | no other ↦ rw (if_neg _ other) (
            Ensures-bind (patch service datatypes) (λ _. pure true) s
              (patch-IsCoherent datatypes s i coherent) (λ _ t j q. Ensures.returned true t j q))
      ]

  -- A restore reads the stored state first, so that what the actor remembered does not matter.
  restore-IsCoherent :
      (desired : Option FamilyState) (datatypes : Option (List String)) (s : Site)
      → Serves s
      → Ensures Serves IsCoherent (restore service desired datatypes s)
  unfolding restore
  restore-IsCoherent desired datatypes s i =
      let last = λ (status : FamilyStatus) (first : Bool). (do
        second ← restore_datatypes service status datatypes
        pure (changed (first || second))) in
      after_read service family s.files
        (λ status t.
          (restore_state service status desired >>= last status) (set_state status.state t))
        s i.1 i
        (λ status found.
          Ensures-bind (restore_state service status desired) (last status)
            (set_state status.state s)
            (restore_state-IsCoherent status desired (set_state status.state s) i
              (view_found (λ x. x.state) family status s.files found))
            (λ first t j q.
              Ensures-bind (restore_datatypes service status datatypes)
                (λ second. pure (changed (first || second))) t
                (restore_datatypes-IsCoherent status datatypes t j q)
                (λ second u k r. Ensures.returned _ u k r)))

  -- On well-formed files, a handler that returns leaves an actor that remembers the stored state, if
  -- it did before or if the command is a restore; and however a handler ends, the files stay well
  -- formed and the actor keeps its family.
  pub handler-IsCoherent :
      (request : CommandRequest) (s : Site)
      → (request.command ≡ FamilyCommand.restore) ⊎ IsCoherent s
      → Serves s
      → Ensures Serves IsCoherent (handler service request s)
  unfolding handler patch_config
  handler-IsCoherent request s before i = go request.command before
    where
      go :
          (command : FamilyCommand)
          → (command ≡ FamilyCommand.restore) ⊎ IsCoherent s
          → Ensures {E = Failure} {A = UpdateResult} Serves IsCoherent
              (handler service (record request { command = command }) s)
      go FamilyCommand.pause (inl is) = absurd cc
      go FamilyCommand.pause (inr coherent) = pause-IsCoherent s i coherent
      go FamilyCommand.resume (inl is) = absurd cc
      go FamilyCommand.resume (inr coherent) = resume-IsCoherent s i coherent
      go FamilyCommand.patch_config (inl is) = absurd cc
      go FamilyCommand.patch_config (inr coherent) =
          Ensures-bind (patch service (or_empty request.datatypes)) (λ _. pure nothing) s
            (patch-IsCoherent (or_empty request.datatypes) s i coherent)
            (λ _ t j q. Ensures.returned nothing t j q)
      go FamilyCommand.restore _ = restore-IsCoherent request.desired_state request.datatypes s i
