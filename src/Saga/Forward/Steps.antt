-- ===== src/Saga/Forward/Steps.antt =====
-- The invariant of the `try` block, and each of its steps.
use mathlib.Core.List.{reverse, reverse-append}
use mathlib.Core.Path.{subst}
use flink_control_plane_poc.Prelude.{
  ℕ, String, ◌<>◌, ◌≡◌, refl, sym, ap, ◌∙◌, ◌≢◌, ◌⊎◌, inl, inr, true, none, some, List, [], ◌∷◌,
  ◌++◌, arith,
}
use flink_control_plane_poc.Prelude.Lists.{All, All-map, All-map₂, All-snoc}
use flink_control_plane_poc.Prelude.Dict.{lookup}
use flink_control_plane_poc.Exec.{Ensures}
use flink_control_plane_poc.Domain.{FamilyState, running, suspended, MoveDatatypeRequest}
use flink_control_plane_poc.Cluster.Frame.{state_of, datatypes_of}
use flink_control_plane_poc.Cluster.Changes.{OnlyState, OnlyDatatypes, view_found}
use flink_control_plane_poc.Actors.{Actors, Compensation, Command, IsLawful}
use flink_control_plane_poc.Saga.{
  Statuses, Run, step, status_of, new_config, pause_restore, config_restore, resume_restore,
}
use flink_control_plane_poc.Saga.Undo.{mentions}
use flink_control_plane_poc.Saga.Unwinding.{state_goal}
use flink_control_plane_poc.Saga.Tracking.{
  IsTracked, IsTracked-state, IsTracked-datatypes, step-Ensures,
}

-- The new intent comes first in the unwinding.
reverse-snoc :
    (items : List Compensation) (item : Compensation)
    → reverse (items ++ item ∷ []) ≡ item ∷ reverse items
reverse-snoc items item = reverse-append items (item ∷ [])

-- the family of a step
abbrev pub subject : Command → String
subject (Command.pause family) = family
subject (Command.patch family) = family
subject (Command.resume family) = family
subject (Command.restore index label) = label

module _ (A : Actors) (lawful : IsLawful A) (request : MoveDatatypeRequest) (statuses : Statuses)
    (s₀ : A.S) where
  open A use {S, E, cluster, IsPaused, IsFresh}

  abbrev pub IsInvolved : String → Type 0
  IsInvolved family = (family ≡ request.source_family) ⊎ (family ≡ request.target_family)

  -- The invariant: the stack leads back to the cluster of `s₀`, and no third family has changed.
  pub record IsUnderway (run : Run S) : Type 0 where
    pub tracked : IsTracked (cluster s₀) (cluster run.store) (reverse run.stack)
    pub other_states :
        (family : String)
        → ¬ IsInvolved family
        → state_of (cluster run.store) family ≡ state_of (cluster s₀) family
    pub other_datatypes :
        (family : String)
        → ¬ IsInvolved family
        → datatypes_of (cluster run.store) family ≡ datatypes_of (cluster s₀) family
    pub can_unwind : (index : ℕ) (label : String) → IsFresh run.store (Command.restore index label)

  abbrev pub PausedIn : Run S → String → Type 0
  PausedIn run family =
      (mentions state_goal (reverse run.stack) family ≡ true) × IsPaused run.store family

  abbrev pub PatchedIn : Run S → String → Type 0
  PatchedIn run family =
      datatypes_of (cluster run.store) family ≡ some (new_config request statuses family)

  abbrev pub ResumedIn : Run S → String → Type 0
  ResumedIn run family = state_of (cluster run.store) family ≡ some running

  -- What the steps so far have achieved, their labels, and the commands to come.
  pub record Stage (paused patched resumed : List String) (steps : List String)
      (to_come : List Command) (run : Run S) : Type 0 where
    pub finished : run.done ≡ steps
    pub are_paused : All (PausedIn run) paused
    pub are_patched : All (PatchedIn run) patched
    pub are_resumed : All (ResumedIn run) resumed
    pub are_fresh : All (IsFresh run.store) to_come

  mentions-snoc :
      (items : List Compensation) (item : Compensation) (family : String)
      → mentions state_goal (reverse items) family ≡ true
      → mentions state_goal (reverse (items ++ item ∷ [])) family ≡ true
  unfolding mentions
  mentions-snoc items item family h = rw reverse-snoc (ground (arith, h))

  -- One step on the state of a family, after its intent has been pushed.
  IsUnderway-state :
      (run : Run S) (item : Compensation) (desired : FamilyState) (t : S) (steps : List String)
      → IsInvolved item.family
      → (item.desired_state ≡ some desired)
      → (item.datatypes ≡ none)
      → (mentions state_goal (reverse run.stack) item.family ≡ true)
        ⊎ (some desired ≡ state_of (cluster s₀) item.family)
      → IsUnderway run
      → OnlyState item.family (cluster run.store) (cluster t)
      → ((index : ℕ) (label : String) → IsFresh t (Command.restore index label))
      → IsUnderway (record { store = t; done = steps; stack = run.stack ++ item ∷ [] })
  IsUnderway-state run item desired t steps involved wants rest safe h change can = record {
    tracked =
        subst (IsTracked (cluster s₀) (cluster t)) (sym (reverse-snoc run.stack item))
          (IsTracked-state item desired wants rest safe h.tracked change);
    other_states = λ family apart.
        change.others family (λ e. apart (subst IsInvolved (sym e) involved))
        ∙ h.other_states family apart;
    other_datatypes = λ family apart. change.datatypes family ∙ h.other_datatypes family apart;
    can_unwind = can;
  }

  IsUnderway-datatypes :
      (run : Run S) (item : Compensation) (datatypes : List String) (t : S) (steps : List String)
      → IsInvolved item.family
      → (item.datatypes ≡ some datatypes)
      → (item.desired_state ≡ none)
      → some datatypes ≡ datatypes_of (cluster s₀) item.family
      → IsUnderway run
      → OnlyDatatypes item.family (cluster run.store) (cluster t)
      → ((index : ℕ) (label : String) → IsFresh t (Command.restore index label))
      → IsUnderway (record { store = t; done = steps; stack = run.stack ++ item ∷ [] })
  IsUnderway-datatypes run item datatypes t steps involved wants rest safe h change can = record {
    tracked =
        subst (IsTracked (cluster s₀) (cluster t)) (sym (reverse-snoc run.stack item))
          (IsTracked-datatypes item datatypes wants rest safe h.tracked change);
    other_states = λ family apart. change.states family ∙ h.other_states family apart;
    other_datatypes = λ family apart.
        change.others family (λ e. apart (subst IsInvolved (sym e) involved))
        ∙ h.other_datatypes family apart;
    can_unwind = can;
  }

  module _ (f : String) (run : Run S) (involved : IsInvolved f) (h : IsUnderway run) where
    paused_before :
        (item : Compensation) (t : S) (steps : List String) (paused : List String)
        → All (λ g. g ≢ f) paused
        → ((g : String) → g ≢ f → IsPaused run.store g → IsPaused t g)
        → All (PausedIn run) paused
        → All (PausedIn (record { store = t; done = steps; stack = run.stack ++ item ∷ [] })) paused
    paused_before item t steps paused apart keeps =
        All-map₂ (λ g. g ≢ f) (PausedIn run) _ paused
          (λ g ne p. (mentions-snoc run.stack item g p.0, keeps g ne p.1)) apart

    -- What is still fresh after another command.
    kept_fresh :
        (command : Command) (t : S) (rest : List Command)
        → ((other : Command) → other ≢ command → IsFresh run.store other → IsFresh t other)
        → All (λ c. c ≢ command) rest
        → All (IsFresh run.store) rest
        → All (IsFresh t) rest
    kept_fresh command t rest keeps =
        All-map₂ (λ c. c ≢ command) (IsFresh run.store) _ rest (λ c ne fresh. keeps c ne fresh)

    pub pause_step :
        (paused steps : List String) (rest : List Command)
        → lookup f (cluster s₀).families ≡ some (status_of request statuses f)
        → All (λ g. g ≢ f) paused
        → All (λ c. c ≢ Command.pause f) rest
        → Stage paused [] [] steps (Command.pause f ∷ rest) run
        → Ensures IsUnderway
            (Stage (paused ++ f ∷ []) [] [] (steps ++ ("pause:" <> f) ∷ []) rest)
            (step A (pause_restore request statuses f) (A.pause f) ("pause:" <> f) run)
    unfolding pause_restore mentions
    pause_step paused steps rest found apart unlike stage =
        let item = pause_restore request statuses f in
        let desired = (status_of request statuses f).state in
        let safe =
          sym (view_found (λ s. s.state) f (status_of request statuses f) (cluster s₀) found) in
        step-Ensures A item (A.pause f) ("pause:" <> f) run
          (lawful.pause-Ensures f run.store stage.are_fresh.0 h.tracked.formed)
          (λ t i.
            IsUnderway-state run item desired t _ involved refl refl (inr safe) h i.0
              (λ index label.
                i.1 (Command.restore index label) (λ e. cc) (h.can_unwind index label)))
          (λ t i q. (
            IsUnderway-state run item desired t _ involved refl refl (inr safe) h i.0
                (λ index label.
                  i.1 (Command.restore index label) (λ e. cc) (h.can_unwind index label)),
            record {
              finished = ap (λ steps. steps ++ ("pause:" <> f) ∷ []) stage.finished;
              are_fresh = kept_fresh (Command.pause f) t rest i.1 unlike stage.are_fresh.1;
              are_paused =
                  All-snoc _ paused f
                    (paused_before item t (run.done ++ ("pause:" <> f) ∷ []) paused apart i.2
                      stage.are_paused)
                    (rw reverse-snoc (ground arith), q);
              are_patched = tt;
              are_resumed = tt;
            },
          ))

    pub patch-step :
        (paused patched steps : List String) (rest : List Command)
        → lookup f (cluster s₀).families ≡ some (status_of request statuses f)
        → All (λ g. g ≢ f) patched
        → All (λ c. c ≢ Command.patch f) rest
        → Stage paused patched [] steps (Command.patch f ∷ rest) run
        → Ensures IsUnderway
            (Stage paused (patched ++ f ∷ []) [] (steps ++ ("patch:" <> f) ∷ []) rest)
            (step A
              (config_restore request statuses f)
              (A.patch_config f (new_config request statuses f))
              ("patch:" <> f)
              run)
    unfolding config_restore
    patch-step paused patched steps rest found apart unlike stage =
        let item = config_restore request statuses f in
        let old = (status_of request statuses f).datatypes in
        let safe =
          sym (view_found (λ s. s.datatypes) f (status_of request statuses f) (cluster s₀) found) in
        step-Ensures A item (A.patch_config f (new_config request statuses f)) ("patch:" <> f) run
          (lawful.patch-Ensures f (new_config request statuses f) run.store stage.are_fresh.0
            h.tracked.formed)
          (λ t i.
            IsUnderway-datatypes run item old t _ involved refl refl safe h i.0 (λ index label.
              i.1 (Command.restore index label) (λ e. cc) (h.can_unwind index label)))
          (λ t i q. (
            IsUnderway-datatypes run item old t _ involved refl refl safe h i.0 (λ index label.
                i.1 (Command.restore index label) (λ e. cc) (h.can_unwind index label)),
            record {
              finished = ap (λ steps. steps ++ ("patch:" <> f) ∷ []) stage.finished;
              are_fresh = kept_fresh (Command.patch f) t rest i.1 unlike stage.are_fresh.1;
              are_paused =
                  All-map (PausedIn run) _ paused
                    (λ g p. (mentions-snoc run.stack item g p.0, q.1 g p.1)) stage.are_paused;
              are_patched =
                  All-snoc _ patched f
                    (All-map₂ (λ g. g ≢ f) (PatchedIn run) _ patched (λ g ne p. i.0.others g ne ∙ p)
                      apart stage.are_patched)
                    q.0;
              are_resumed = tt;
            },
          ))

    pub resume_step :
        (paused patched resumed steps : List String) (rest : List Command)
        → All (λ g. g ≢ f) paused
        → All (λ g. g ≢ f) resumed
        → All (λ c. c ≢ Command.resume f) rest
        → Stage (f ∷ paused) patched resumed steps (Command.resume f ∷ rest) run
        → Ensures IsUnderway
            (Stage paused patched (resumed ++ f ∷ []) (steps ++ ("resume:" <> f) ∷ []) rest)
            (step A (resume_restore f) (A.resume f) ("resume:" <> f) run)
    unfolding resume_restore
    resume_step paused patched resumed steps rest apart others unlike stage =
        let item = resume_restore f in
        step-Ensures A item (A.resume f) ("resume:" <> f) run
          (lawful.resume-Ensures f run.store stage.are_fresh.0 h.tracked.formed)
          (λ t i.
            IsUnderway-state run item suspended t _ involved refl refl (inl stage.are_paused.0.0) h
              i.0
              (λ index label.
                i.1 (Command.restore index label) (λ e. cc) (h.can_unwind index label)))
          (λ t i q. (
            IsUnderway-state run item suspended t _ involved refl refl (inl stage.are_paused.0.0) h
                i.0
                (λ index label.
                  i.1 (Command.restore index label) (λ e. cc) (h.can_unwind index label)),
            record {
              finished = ap (λ steps. steps ++ ("resume:" <> f) ∷ []) stage.finished;
              are_fresh = kept_fresh (Command.resume f) t rest i.1 unlike stage.are_fresh.1;
              are_paused =
                  paused_before item t (run.done ++ ("resume:" <> f) ∷ []) paused apart i.2
                    stage.are_paused.1;
              are_patched =
                  All-map (PatchedIn run) _ patched (λ g p. i.0.datatypes g ∙ p) stage.are_patched;
              are_resumed =
                  All-snoc _ resumed f
                    (All-map₂ (λ g. g ≢ f) (ResumedIn run) _ resumed (λ g ne p. i.0.others g ne ∙ p)
                      others stage.are_resumed)
                    (q stage.are_paused.0.1);
            },
          ))
