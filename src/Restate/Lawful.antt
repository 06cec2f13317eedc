-- ===== src/Restate/Lawful.antt =====
-- The Restate actors meet the contract of the saga, whatever engine runs their durable steps.
use mathlib.Core.Logic.{if_pos, if_neg}
use mathlib.Core.Path.{subst, subst₂}
use flink_control_plane_poc.Prelude.{
  sym, String, ◌≡◌, refl, ap, ◌∙◌, ◌||◌, Bool, true, false, none, some, List,
}
use flink_control_plane_poc.Prelude.Equality.{list_eq, string_eq}
use flink_control_plane_poc.Prelude.Dict.{lookup}
use flink_control_plane_poc.Exec.{Result, ok, err, pure, ◌>>=◌, Ensures, Ensures-bind, Ensures-map}
use flink_control_plane_poc.Domain.{FamilyState, state_eq, FamilyStatus}
use flink_control_plane_poc.Cluster.Frame.{state_of, datatypes_of}
use flink_control_plane_poc.Cluster.WellFormed.{IsWellFormed}
use flink_control_plane_poc.Cluster.Changes.{
  OnlyState, OnlyDatatypes, OnlyState-refl, OnlyDatatypes-refl, view_found,
}
use flink_control_plane_poc.Actors.{IsLawful}
use flink_control_plane_poc.Restate.Steps.{Engine}
use flink_control_plane_poc.Restate.Actor.{
  Store, Handler, set, enter, patch_config, restore_state, restore_datatypes, restore,
}
use flink_control_plane_poc.Restate.Reads.{Reads, run_typed-Reads, files_of}
use flink_control_plane_poc.Restate.Contract.{
  Keeps, enter-returns, pause_lem, resume_lem, patch_config_lem,
}
use flink_control_plane_poc.Restate.Saga.{restate_actors}

module _ (engine : Engine) where
  -- A handler that starts with a read.
  after_read :
      {A : Type 0} {I Q : Store → Type 0} (family : String) (s : Store)
      (rest : FamilyStatus → Handler A)
      → I s
      → ((status : FamilyStatus)
          → lookup family s.files.families ≡ some status
          → Ensures I Q (rest status s))
      → {r : Result String FamilyStatus × Store} → Reads (files_of engine family) family s r
      → Ensures {E = String} {A = A} I Q
          (elim r.0 [ ok status ↦ rest status r.1 | err e ↦ (err e, r.1) ])
  after_read family s rest i go (Reads.known status found) = go status found
  after_read family s rest i go (Reads.unknown text missing) = Ensures.raised text s i

  restore_state-returns :
      (family : String) (desired : FamilyState) (status : FamilyStatus) (s t : Store)
      → lookup family t.files.families ≡ some status
      → Keeps engine family s.files s t
      → Ensures
          (λ u. OnlyState family s.files u.files)
          (λ u. state_of u.files family ≡ some desired)
          (restore_state engine family status (some desired) t)
  unfolding restore_state
  restore_state-returns family desired status s t found i =
      elim (state_eq.dec status.state desired) [
        | yes same ↦ rw (if_pos _ same) (
            Ensures.returned false t i.0
              (view_found (λ x. x.state) family status t.files found ∙ ap some same))
        | no other ↦ rw (if_neg _ other) (
            Ensures-bind (enter engine family desired) (λ _. pure true) t
              (Ensures-map (λ _ j. j.0) (λ _ _ q. q)
                (enter-returns engine family s.files s desired t i))
              (λ _ u j reached. Ensures.returned true u j reached))
      ]

  restore_datatypes-returns :
      (family : String) (datatypes : List String) (status : FamilyStatus) (s t : Store)
      → lookup family t.files.families ≡ some status
      → OnlyDatatypes family s.files t.files
      → Ensures
          (λ u. OnlyDatatypes family s.files u.files)
          (λ u. datatypes_of u.files family ≡ some datatypes)
          (restore_datatypes engine family status (some datatypes) t)
  unfolding restore_datatypes
  restore_datatypes-returns family datatypes status s t found i =
      elim ((list_eq {A = String}).dec status.datatypes datatypes) [
        | yes same ↦ rw (if_pos _ same) (
            Ensures.returned false t i
              (view_found (λ x. x.datatypes) family status t.files found ∙ ap some same))
        | no other ↦ rw (if_neg _ other) (
            Ensures-bind (patch_config engine family datatypes) (λ _. pure true) t
              (Ensures-map (λ _ j. j.0) (λ _ _ q. q)
                (patch_config_lem engine family datatypes s t i))
              (λ _ u j reached. Ensures.returned true u j reached))
      ]

  restore-state-lem :
      (family : String) (desired : FamilyState) (s : Store)
      → IsWellFormed s.files
      → Ensures
          (λ t. OnlyState family s.files t.files)
          (λ t. state_of t.files family ≡ some desired)
          (restore engine family (some desired) none s)
  unfolding restore restore_datatypes
  restore-state-lem family desired s formed =
      let last = λ (a : Bool). pure {S = Store} {E = String} (a || false) in
      after_read family s
        (λ status t.
          (restore_state engine family status (some desired) >>= last) (set family status.state t))
        (OnlyState-refl family s.files formed)
        (λ status found.
          Ensures-bind (restore_state engine family status (some desired)) last
            (set family status.state s)
            (restore_state-returns family desired status (set family status.state s)
              (set family status.state s) found
              (OnlyState-refl family s.files formed, λ other _ paused. paused))
            (λ a u j reached. Ensures.returned _ u j reached))
        (run_typed-Reads engine family s)

  restore-datatypes-lem :
      (family : String) (datatypes : List String) (s : Store)
      → IsWellFormed s.files
      → Ensures
          (λ t. OnlyDatatypes family s.files t.files)
          (λ t. datatypes_of t.files family ≡ some datatypes)
          (restore engine family none (some datatypes) s)
  unfolding restore restore_state
  restore-datatypes-lem family datatypes s formed =
      let last = λ (b : Bool). pure {S = Store} {E = String} (false || b) in
      after_read family s
        (λ status t.
          (restore_datatypes engine family status (some datatypes) >>= last)
            (set family status.state t))
        (OnlyDatatypes-refl family s.files formed)
        (λ status found.
          Ensures-bind (restore_datatypes engine family status (some datatypes)) last
            (set family status.state s)
            (restore_datatypes-returns family datatypes status s (set family status.state s) found
              (OnlyDatatypes-refl family s.files formed))
            (λ a u j reached. Ensures.returned _ u j reached))
        (run_typed-Reads engine family s)

  read_ok :
      (family : String) (s t : Store) (r : Result String FamilyStatus × Store)
      → Reads (files_of engine family) family s r
      → (r.1 ≡ s)
        × ((status : FamilyStatus) → r.0 ≡ ok status → lookup family s.files.families ≡ some status)
        × ((e : String) → r.0 ≡ err e → lookup family s.files.families ≡ none)
  read_ok family s t r (Reads.known status found) = (refl, (λ other e. cc), λ e same. cc)
  read_ok family s t r (Reads.unknown text missing) = (refl, (λ status e. cc), λ e same. missing)

  -- The Restate actors meet the contract of the saga over any engine that runs a durable step by
  -- attempts. An actor remembers a pause by its cached state.
  pub restate_actors-IsLawful : IsLawful (restate_actors engine)
  restate_actors-IsLawful = record {
    read-ok = λ family s t status h.
        let (same, found, _) =
          read_ok family s t _
            (subst (Reads (files_of engine family) family s) h (run_typed-Reads engine family s)) in
        (same, found status refl);
    read-err = λ family s t e h.
        let (same, _, missing) =
          read_ok family s t _
            (subst (Reads (files_of engine family) family s) h (run_typed-Reads engine family s)) in
        (same, missing e refl);
    pause-Ensures = λ family s fresh formed.
        Ensures-map (λ t h. (h.0, (λ _ _ _. tt), h.1)) (λ t _ q. q)
          (pause_lem engine family s formed);
    patch-Ensures = λ family datatypes s fresh formed.
        Ensures-map (λ t h. (h.0, λ _ _ _. tt))
          (λ t h q. (q, λ other paused. ap (λ cache. cache other) h.1 ∙ paused))
          (patch_config_lem engine family datatypes s s (OnlyDatatypes-refl family s.files formed));
    resume-Ensures = λ family s fresh formed.
        Ensures-map (λ t h. (h.0, (λ _ _ _. tt), h.1)) (λ t _ q. q)
          (resume_lem engine family s formed);
    restore-state-Ensures = λ index item desired s wants rest fresh formed.
        Ensures-map (λ t i. (i, λ _ _ _. tt)) (λ t _ q. q)
          (subst₂
            (λ x y.
              Ensures (λ t. OnlyState item.family s.files t.files)
                (λ t. state_of t.files item.family ≡ some desired)
                (restore engine item.family x y s))
            (sym wants) (sym rest) (restore-state-lem item.family desired s formed));
    restore-datatypes-Ensures = λ index item datatypes s wants rest fresh formed.
        Ensures-map (λ t i. (i, λ _ _ _. tt)) (λ t _ q. q)
          (subst₂
            (λ x y.
              Ensures (λ t. OnlyDatatypes item.family s.files t.files)
                (λ t. datatypes_of t.files item.family ≡ some datatypes)
                (restore engine item.family x y s))
            (sym rest) (sym wants) (restore-datatypes-lem item.family datatypes s formed));
  }
