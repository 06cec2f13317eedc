-- ===== src/Saga/Tracking.antt =====
-- The invariant of the `try` block: the stack leads back to the cluster as it was read.
use flink_control_plane_poc.Prelude.{
  String, ◌≡◌, ◌⊎◌, inl, inr, true, none, some, List, [], ◌∷◌, ◌++◌,
}
use flink_control_plane_poc.Prelude.Lists.{All}
use flink_control_plane_poc.Exec.{Result, ok, err, Exec, Ensures}
use flink_control_plane_poc.Domain.{FamilyState}
use flink_control_plane_poc.Cluster.{MockCluster}
use flink_control_plane_poc.Cluster.Frame.{state_of, datatypes_of}
use flink_control_plane_poc.Cluster.WellFormed.{IsWellFormed}
use flink_control_plane_poc.Cluster.Changes.{OnlyState, OnlyDatatypes}
use flink_control_plane_poc.Actors.{Actors, Compensation}
use flink_control_plane_poc.Saga.{Run, step}
use flink_control_plane_poc.Saga.Undo.{IsIntent, Undoes, Undoes-push, Undoes-other, mentions}
use flink_control_plane_poc.Saga.Unwinding.{state_goal, datatypes_goal}

-- The cluster `now` can be led back to `before` by unwinding `items`.
pub record IsTracked (before now : MockCluster) (items : List Compensation) : Type 0 where
  pub formed : IsWellFormed now
  pub intents : All IsIntent items
  pub states : Undoes state_goal (state_of before) (state_of now) items
  pub datatypes : Undoes datatypes_goal (datatypes_of before) (datatypes_of now) items

-- A command on the state of the family that the new intent restores.
pub IsTracked-state :
    {before now next : MockCluster} {items : List Compensation} (item : Compensation)
    (desired : FamilyState)
    → (item.desired_state ≡ some desired)
    → (item.datatypes ≡ none)
    → (mentions state_goal items item.family ≡ true) ⊎ (some desired ≡ state_of before item.family)
    → IsTracked before now items
    → OnlyState item.family now next
    → IsTracked before next (item ∷ items)
IsTracked-state item desired wants rest safe h change = record {
  formed = change.formed;
  intents = (inl (desired, wants, rest), h.intents);
  states = Undoes-push state_goal item desired wants safe change.others h.states;
  datatypes = Undoes-other datatypes_goal item rest change.datatypes h.datatypes;
}

-- A command on the datatypes of the family that the new intent restores.
pub IsTracked-datatypes :
    {before now next : MockCluster} {items : List Compensation} (item : Compensation)
    (datatypes : List String)
    → (item.datatypes ≡ some datatypes)
    → (item.desired_state ≡ none)
    → some datatypes ≡ datatypes_of before item.family
    → IsTracked before now items
    → OnlyDatatypes item.family now next
    → IsTracked before next (item ∷ items)
IsTracked-datatypes item datatypes wants rest safe h change = record {
  formed = change.formed;
  intents = (inr (datatypes, wants, rest), h.intents);
  states = Undoes-other state_goal item rest change.states h.states;
  datatypes = Undoes-push datatypes_goal item datatypes wants (inr safe) change.others h.datatypes;
}

module _ (A : Actors) where
  open A use {S, E}

  -- The rule of one step: where its command raised, the intent is on the stack already.
  pub step-Ensures :
      {I Q : S → Type 0} {J K : Run S → Type 0} (item : Compensation)
      (command : Exec S E (Unit {0})) (label : String) (run : Run S)
      → Ensures I Q (command run.store)
      → ((t : S) → I t → J (record { store = t; done = run.done; stack = run.stack ++ item ∷ [] }))
      → ((t : S)
          → I t
          → Q t
          → let after = record run {
            store = t;
            done = run.done ++ label ∷ [];
            stack = run.stack ++ item ∷ [];
          } in
            J after × K after)
      → Ensures J K (step A item command label run)
  unfolding step
  step-Ensures {I} {Q} {J} {K} item command label run h raised returned = go h
    where
      go :
          {r : Result E (Unit {0}) × S}
          → Ensures I Q r
          → Ensures {S = Run S} {E = E} {A = Unit {0}} J K (elim r.0 [
            | ok _ ↦ (
              ok tt,
              record run {
                store = r.1;
                done = run.done ++ label ∷ [];
                stack = run.stack ++ item ∷ [];
              },
            )
            | err e ↦ (err e, record run { store = r.1; stack = run.stack ++ item ∷ [] })
          ])
      go (Ensures.returned a t i q) = let (j, k) = returned t i q in Ensures.returned tt _ j k
      go (Ensures.raised e t i) = Ensures.raised e _ (raised t i)
