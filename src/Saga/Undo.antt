-- ===== src/Saga/Undo.antt =====
-- What a stack of restore intents sets a family's state or datatypes to, if all of them succeed.
use flink_control_plane_poc.Prelude.{
  String, ◌≡◌, refl, ◌≢◌, Bool, true, false, ◌&&◌, ◌||◌, Option, none, some, List, [], ◌∷◌, ◌⊎◌,
  arith, if◌then◌else◌,
}
use flink_control_plane_poc.Prelude.Equality.{◌==◌, string_eq}
use flink_control_plane_poc.Domain.{FamilyState}
use flink_control_plane_poc.Actors.{Compensation}

-- An intent restores the state or the datatypes, and not both.
abbrev pub IsIntent : Compensation → Type 0
IsIntent item =
    ((desired : FamilyState) × (item.desired_state ≡ some desired) × (item.datatypes ≡ none))
    ⊎ ((datatypes : List String) × (item.datatypes ≡ some datatypes) × (item.desired_state ≡ none))

abbrev is_some : {B : Type 0} → Option B → Bool
is_some none = false
is_some (some _) = true

abbrev or_else : {B : Type 0} → Option B → Option B → Option B
or_else none old = old
or_else (some new) old = some new

-- `goal` picks the part that an intent restores.
module _ {B : Type 0} (goal : Compensation → Option B) where
  abbrev pub mentions_item : Compensation → String → Bool
  mentions_item item family = family == item.family && is_some (goal item)

  -- the last item unwound, which was pushed first, decides
  unfoldable pub undo : List Compensation → String → Option B → Option B
  undo [] family now = now
  undo (item ∷ items) family now =
      undo items family (if family == item.family then or_else (goal item) now else now)

  unfoldable pub mentions : List Compensation → String → Bool
  mentions [] family = false
  mentions (item ∷ items) family = mentions_item item family || mentions items family

  pub undo-unmentioned :
      (items : List Compensation) (family : String) (now : Option B)
      → mentions items family ≡ false
      → undo items family now ≡ now
  unfolding undo mentions
  undo-unmentioned [] family now h = refl
  undo-unmentioned (item ∷ items) family now h = ground (
    arith,
    undo-unmentioned items family (if family == item.family then or_else (goal item) now else now),
  )

  -- Unwinding `items` from `now` leads back to `before`.
  pub record Undoes (before now : String → Option B) (items : List Compensation) : Type 0 where
    pub fresh : (family : String) → mentions items family ≡ false → now family ≡ before family
    pub reset :
        (family : String) (v : Option B)
        → mentions items family ≡ true
        → undo items family v ≡ before family

  pub Undoes-nil : (before : String → Option B) → Undoes before before []
  unfolding mentions
  Undoes-nil before = record { fresh = λ _ _. refl; reset = λ _ _ h. cc }

  pub undo-Undoes :
      {before now : String → Option B} {items : List Compensation}
      → Undoes before now items
      → (family : String) → undo items family (now family) ≡ before family
  undo-Undoes {before} {now} {items} h family = ground (
    arith,
    h.fresh family,
    h.reset family (now family),
    undo-unmentioned items family (now family),
  )

  -- An intent for another part, whose command leaves this part alone.
  pub Undoes-other :
      {before now next : String → Option B} {items : List Compensation} (item : Compensation)
      → goal item ≡ none
      → ((family : String) → next family ≡ now family)
      → Undoes before now items
      → Undoes before next (item ∷ items)
  unfolding undo mentions
  Undoes-other {before} {now} {next} {items} item absent same h = record {
    fresh = λ family m. ground (arith, absent, same family, h.fresh family);
    reset = λ family v m. ground (arith, absent, h.reset family v);
  }

  -- An intent for this part, pushed before the one family that it names may change.
  pub Undoes-push :
      {before now next : String → Option B} {items : List Compensation} (item : Compensation)
      (b : B)
      → goal item ≡ some b
      → (mentions items item.family ≡ true) ⊎ (some b ≡ before item.family)
      → ((family : String) → family ≢ item.family → next family ≡ now family)
      → Undoes before now items
      → Undoes before next (item ∷ items)
  unfolding undo mentions
  Undoes-push {before} {now} {next} {items} item b goes safe others h = record {
    fresh = λ family m. ground (arith, goes, others family, h.fresh family);
    reset = λ family v m. ground (
      arith,
      goes,
      h.reset family v,
      h.reset family (some b),
      safe,
      undo-unmentioned items family (some b),
    );
  }
