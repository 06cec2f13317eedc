-- ===== src/Saga/Unwinding.antt =====
-- `_compensate`: an unwinding without errors has carried out every intent of the stack.
use flink_control_plane_poc.Prelude.{
  ℕ, ◌+◌, ◌≤◌, ◌≢◌, String, ◌≡◌, refl, ◌∙◌, ap, ◌≢◌, Bool, true, false, Option, none, some, List,
  [], ◌∷◌, ◌++◌, inl, inr, arith,
}
use flink_control_plane_poc.Prelude.Equality.{string_eq}
use flink_control_plane_poc.Prelude.Lists.{All}
use flink_control_plane_poc.Exec.{Result, Ensures, Ensures-map}
use flink_control_plane_poc.Domain.{FamilyState}
use flink_control_plane_poc.Cluster.Frame.{state_of, datatypes_of}
use flink_control_plane_poc.Cluster.WellFormed.{IsWellFormed}
use flink_control_plane_poc.Cluster.Changes.{OnlyState, OnlyDatatypes}
use flink_control_plane_poc.Actors.{Actors, Compensation, Command, IsLawful}
use flink_control_plane_poc.Saga.{Unwound, tally, unwind}
use flink_control_plane_poc.Saga.Undo.{IsIntent, undo}

abbrev pub state_goal : Compensation → Option FamilyState
state_goal item = item.desired_state

abbrev pub datatypes_goal : Compensation → Option (List String)
datatypes_goal item = item.datatypes

append-ne-nil : (xs : List String) (x : String) → xs ++ x ∷ [] ≢ []
append-ne-nil [] x e = cc
append-ne-nil (y ∷ xs) x e = cc

-- the place of a restore in the unwinding
abbrev place : Command → ℕ
place (Command.restore index label) = index
place _ = 0

module _ (A : Actors) (lawful : IsLawful A) where
  open A use {S, E, cluster}

  -- What `items` have done to the cluster between `s` and `t`.
  pub record Restored (items : List Compensation) (s t : S) : Type 0 where
    pub states :
        (family : String)
        → state_of (cluster t) family ≡ undo state_goal items family (state_of (cluster s) family)
    pub datatypes :
        (family : String)
        → datatypes_of (cluster t) family
          ≡ undo datatypes_goal items family (datatypes_of (cluster s) family)

  Restored-cons :
      (item : Compensation) (items : List Compensation) (s t u : S)
      → Restored (item ∷ []) s t
      → Restored items t u
      → Restored (item ∷ items) s u
  unfolding undo
  Restored-cons item items s t u first rest = record {
    states = λ family. rest.states family ∙ ap (undo state_goal items family) (first.states family);
    datatypes = λ family.
        rest.datatypes family ∙ ap (undo datatypes_goal items family) (first.datatypes family);
  }

  Restored-state :
      (item : Compensation) (desired : FamilyState) (s t : S)
      → (item.desired_state ≡ some desired)
      → (item.datatypes ≡ none)
      → OnlyState item.family (cluster s) (cluster t)
      → state_of (cluster t) item.family ≡ some desired
      → Restored (item ∷ []) s t
  unfolding undo
  Restored-state item desired s t wants no_datatypes change reached = record {
    states = λ family. ground (arith, wants, reached, change.others family);
    datatypes = λ family. ground (arith, no_datatypes, change.datatypes family);
  }

  Restored-datatypes :
      (item : Compensation) (datatypes : List String) (s t : S)
      → (item.datatypes ≡ some datatypes)
      → (item.desired_state ≡ none)
      → OnlyDatatypes item.family (cluster s) (cluster t)
      → datatypes_of (cluster t) item.family ≡ some datatypes
      → Restored (item ∷ []) s t
  unfolding undo
  Restored-datatypes item datatypes s t wants no_state change reached = record {
    states = λ family. ground (arith, no_state, change.states family);
    datatypes = λ family. ground (arith, wants, reached, change.others family);
  }

  -- No restore from the n-th on has been sent.
  abbrev pub FreshFrom : ℕ → S → Type 0
  FreshFrom n s = (i : ℕ) (label : String) → n ≤ i → A.IsFresh s (Command.restore i label)

  still_fresh :
      (index : ℕ) (item : Compensation) (s t : S)
      → FreshFrom index s
      → ((other : Command)
          → other ≢ Command.restore index item.label
          → A.IsFresh s other
          → A.IsFresh t other)
      → FreshFrom (index + 1) t
  still_fresh index item s t fresh keeps i label later =
      keeps (Command.restore i label) (λ e. absurd (omega (arith, ap place e)))
        (fresh i label (omega arith))

  -- A restore that returns has carried out its intent, and nothing else.
  pub intent-Ensures :
      (index : ℕ) (item : Compensation) (s : S)
      → IsIntent item
      → FreshFrom index s
      → IsWellFormed (cluster s)
      → Ensures
          (λ t. IsWellFormed (cluster t) × FreshFrom (index + 1) t)
          (λ t. Restored (item ∷ []) s t)
          (A.restore index item s)
  intent-Ensures index item s (inl (desired, wants, rest)) fresh formed =
      Ensures-map (λ t h. (h.0.formed, still_fresh index item s t fresh h.1))
        (λ t h reached. Restored-state item desired s t wants rest h.0 reached)
        (lawful.restore-state-Ensures index item desired s wants rest
          (fresh index item.label (omega arith)) formed)
  intent-Ensures index item s (inr (datatypes, wants, rest)) fresh formed =
      Ensures-map (λ t h. (h.0.formed, still_fresh index item s t fresh h.1))
        (λ t h reached. Restored-datatypes item datatypes s t wants rest h.0 reached)
        (lawful.restore-datatypes-Ensures index item datatypes s wants rest
          (fresh index item.label (omega arith)) formed)

  abbrev pub Unwinds : List Compensation → Unwound → S → Unwound × S → Type 0
  Unwinds items before s (after, t) =
      IsWellFormed (cluster t) × (after.errors ≡ [] → (before.errors ≡ []) × Restored items s t)

  -- One item, by how its restore ended.
  unwind_item :
      (index : ℕ) (item : Compensation) (items : List Compensation) (unwound : Unwound) (s : S)
      → ((u : Unwound) (t : S)
          → IsWellFormed (cluster t) × FreshFrom (index + 1) t
          → Unwinds items u t (unwind A (index + 1) items u t))
      → {r : Result E Bool × S}
      → Ensures
          (λ t. IsWellFormed (cluster t) × FreshFrom (index + 1) t)
          (λ t. Restored (item ∷ []) s t)
          r
      → Unwinds (item ∷ items) unwound s (unwind A (index + 1) items (tally A item r.0 unwound) r.1)
  unfolding tally
  unwind_item index item items unwound s ih (Ensures.returned true t formed done) =
      let (formed', restored) = ih _ t formed in
      (
        formed',
        λ none_failed.
            let (h, rest) = restored none_failed in (h, Restored-cons item items s t _ done rest),
      )
  unwind_item index item items unwound s ih (Ensures.returned false t formed done) =
      let (formed', restored) = ih _ t formed in
      (
        formed',
        λ none_failed.
            let (h, rest) = restored none_failed in (h, Restored-cons item items s t _ done rest),
      )
  unwind_item index item items unwound s ih (Ensures.raised e t formed) =
      let (formed', restored) = ih _ t formed in
      (formed', λ none_failed. absurd (append-ne-nil unwound.errors _ (restored none_failed).0))

  -- The unwinding from the n-th item on, where no such restore has been sent, keeps the cluster well
  -- formed, and if it leaves no errors, there were none before and every intent is restored.
  pub unwind-Unwinds :
      (index : ℕ) (items : List Compensation) (unwound : Unwound) (s : S)
      → All IsIntent items
      → FreshFrom index s
      → IsWellFormed (cluster s)
      → Unwinds items unwound s (unwind A index items unwound s)
  unfolding unwind undo
  unwind-Unwinds index [] unwound s intents fresh formed =
      (formed, λ none_failed. (none_failed, record { states = λ _. refl; datatypes = λ _. refl }))
  unwind-Unwinds index (item ∷ items) unwound s (intent, intents) fresh formed =
      unwind_item index item items unwound s
        (λ u t h. unwind-Unwinds (index + 1) items u t intents h.1 h.0)
        (intent-Ensures index item s intent fresh formed)
