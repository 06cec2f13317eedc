-- ===== src/Saga/Forward.antt =====
-- The three phases of the `try` block, step by step.
pub mod Steps
use mathlib.Core.List.{reverse, reverse-append}
use mathlib.Core.Path.{subst}
use flink_control_plane_poc.Prelude.{
  ℕ, String, ◌<>◌, ◌≡◌, refl, sym, ap, ◌∙◌, ◌≢◌, ◌⊎◌, inl, inr, true, none, some, List, [], ◌∷◌,
  ◌++◌, arith,
}
use flink_control_plane_poc.Prelude.Lists.{All, All-map, All-map₂, All-snoc}
use flink_control_plane_poc.Prelude.Dict.{lookup}
use flink_control_plane_poc.Exec.{Exec, pure, ◌>>◌, Ensures, Ensures-bind}
use flink_control_plane_poc.Domain.{FamilyState, running, suspended, MoveDatatypeRequest, families}
use flink_control_plane_poc.Cluster.Frame.{state_of, datatypes_of}
use flink_control_plane_poc.Cluster.Changes.{OnlyState, OnlyDatatypes, view_found}
use flink_control_plane_poc.Actors.{Actors, Compensation, Command, IsLawful}
use flink_control_plane_poc.Saga.{
  Statuses, Run, step, phase, forward, expected_steps, status_of, new_config, pause_restore,
  config_restore, resume_restore,
}
use flink_control_plane_poc.Saga.Undo.{mentions}
use flink_control_plane_poc.Saga.Unwinding.{state_goal}
use flink_control_plane_poc.Saga.Tracking.{
  IsTracked, IsTracked-state, IsTracked-datatypes, step-Ensures,
}
use flink_control_plane_poc.Saga.Forward.Steps.{
  subject, IsUnderway, Stage, pause_step, patch-step, resume_step,
}

module _ (A : Actors) (lawful : IsLawful A) (request : MoveDatatypeRequest) (statuses : Statuses)
    (s₀ : A.S) where
  open A use {S, E, cluster}

  abbrev pub Underway : Run S → Type 0
  Underway = IsUnderway A lawful request statuses s₀

  abbrev pub At :
      List String → List String → List String → List String → List Command → Run S → Type 0
  At = Stage A lawful request statuses s₀

  module _ (distinct : request.source_family ≢ request.target_family)
      (source_found : lookup request.source_family (cluster s₀).families
        ≡ some (status_of request statuses request.source_family))
      (target_found : lookup request.target_family (cluster s₀).families
        ≡ some (status_of request statuses request.target_family)) where
    -- A loop over the request's two families.
    two_families :
        {P Q : Run S → Type 0} (restore : String → Compensation)
        (command : String → Exec S E (Unit {0})) (label : String → String) (run : Run S)
        → (let f = request.source_family in
            Ensures Underway P (step A (restore f) (command f) (label f) run))
        → ((mid : Run S)
            → Underway mid
            → P mid
            → let f = request.target_family in
              Ensures Underway Q (step A (restore f) (command f) (label f) mid))
        → Ensures Underway Q (phase A restore command label (families request) run)
    unfolding phase families
    two_families restore command label run first second =
        let f = request.source_family in
        let g = request.target_family in
        Ensures-bind (step A (restore f) (command f) (label f))
          (λ _. phase A restore command label (g ∷ [])) run first
          (λ _ mid i p.
            Ensures-bind (step A (restore g) (command g) (label g)) (λ _. pure tt) mid
              (second mid i p) (λ _ last j q. Ensures.returned tt last j q))

    abbrev after_pause : List String
    after_pause = ("pause:" <> request.source_family) ∷ ("pause:" <> request.target_family) ∷ []

    abbrev after_patch : List String
    after_patch =
        after_pause
        ++ ("patch:" <> request.source_family) ∷ ("patch:" <> request.target_family) ∷ []

    abbrev both : List String
    both = request.source_family ∷ request.target_family ∷ []

    abbrev resumes : List Command
    resumes = Command.resume request.source_family ∷ Command.resume request.target_family ∷ []

    abbrev patches : List Command
    patches = Command.patch request.source_family ∷ Command.patch request.target_family ∷ resumes

    -- The commands of the move, in order.
    abbrev pub commands : List Command
    commands = Command.pause request.source_family ∷ Command.pause request.target_family ∷ patches

    pause_phase :
        (run : Run S)
        → Underway run
        → At [] [] [] [] commands run
        → Ensures Underway (At both [] [] after_pause patches) (
            phase A
              (pause_restore request statuses)
              A.pause
              (λ f. "pause:" <> f)
              (families request)
              run)
    pause_phase run h start =
        let f = request.source_family in
        two_families (pause_restore request statuses) A.pause (λ f. "pause:" <> f) run
          (pause_step A lawful request statuses s₀ f run (inl refl) h [] []
            (Command.pause request.target_family ∷ patches) source_found tt
            (
              (λ e. distinct (sym (ap subject e))),
              ((λ e. cc), ((λ e. cc), ((λ e. cc), ((λ e. cc), tt)))),
            )
            start)
          (λ mid i p.
            pause_step A lawful request statuses s₀ request.target_family mid (inr refl) i (f ∷ [])
              (("pause:" <> f) ∷ []) patches target_found (distinct, tt)
              ((λ e. cc), ((λ e. cc), ((λ e. cc), ((λ e. cc), tt)))) p)

    patch_phase :
        (run : Run S)
        → Underway run
        → At both [] [] after_pause patches run
        → Ensures Underway (At both both [] after_patch resumes) (
            phase A
              (config_restore request statuses)
              (λ f. A.patch_config f (new_config request statuses f))
              (λ f. "patch:" <> f)
              (families request)
              run)
    patch_phase run h start =
        let f = request.source_family in
        two_families (config_restore request statuses)
          (λ f. A.patch_config f (new_config request statuses f)) (λ f. "patch:" <> f) run
          (patch-step A lawful request statuses s₀ f run (inl refl) h both [] after_pause
            (Command.patch request.target_family ∷ resumes) source_found tt
            ((λ e. distinct (sym (ap subject e))), ((λ e. cc), ((λ e. cc), tt))) start)
          (λ mid i p.
            patch-step A lawful request statuses s₀ request.target_family mid (inr refl) i both
              (f ∷ []) (after_pause ++ ("patch:" <> f) ∷ []) resumes target_found (distinct, tt)
              ((λ e. cc), ((λ e. cc), tt)) p)

    resume_phase :
        (run : Run S)
        → Underway run
        → At both both [] after_patch resumes run
        → Ensures Underway
            (At [] both both (expected_steps request) [])
            (phase A resume_restore A.resume (λ f. "resume:" <> f) (families request) run)
    unfolding expected_steps families
    resume_phase run h start =
        let f = request.source_family in
        let g = request.target_family in
        two_families resume_restore A.resume (λ f. "resume:" <> f) run
          (resume_step A lawful request statuses s₀ f run (inl refl) h (g ∷ []) both [] after_patch
            (Command.resume g ∷ []) ((λ e. distinct (sym e)), tt) tt
            ((λ e. distinct (sym (ap subject e))), tt) start)
          (λ mid i p.
            resume_step A lawful request statuses s₀ g mid (inr refl) i [] both (f ∷ [])
              (after_patch ++ ("resume:" <> f) ∷ []) [] tt (distinct, tt) tt p)

    -- The whole `try` block, on two different families, from the stored statuses, with none of its
    -- commands sent: wherever it raises, the stack leads back and no third family has changed, and
    -- where it returns, both families have their new datatypes and run, and the six steps are done.
    pub forward-Ensures :
        (run : Run S)
        → Underway run
        → At [] [] [] [] commands run
        → Ensures Underway
            (At [] both both (expected_steps request) [])
            (forward A request statuses run)
    unfolding forward
    forward-Ensures run h start =
        let patch =
          phase A (config_restore request statuses)
            (λ f. A.patch_config f (new_config request statuses f)) (λ f. "patch:" <> f)
            (families request) in
        let resume = phase A resume_restore A.resume (λ f. "resume:" <> f) (families request) in
        Ensures-bind
          (phase A (pause_restore request statuses) A.pause (λ f. "pause:" <> f) (families request))
          (λ _. patch >> resume) run (pause_phase run h start)
          (λ _ mid i p.
            Ensures-bind patch (λ _. resume) mid (patch_phase mid i p)
              (λ _ late j q. resume_phase late j q))
