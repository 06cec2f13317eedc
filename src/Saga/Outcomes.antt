-- ===== src/Saga/Outcomes.antt =====
-- How a run can end, and what it has then done to the cluster.
use mathlib.Core.List.{reverse}
use mathlib.Core.Path.{subst}
use flink_control_plane_poc.Prelude.{
  Bool-cases, String, ◌≡◌, refl, sym, ap, ◌∙◌, ◌⊎◌, inl, inr, Option, none, some, List, [], ◌∷◌,
}
use flink_control_plane_poc.Prelude.Equality.{string_eq, contains}
use flink_control_plane_poc.Prelude.Dict.{lookup}
use flink_control_plane_poc.Exec.{Result, ok, err, ◌>>=◌, pure, bind_cases, Ensures}
use flink_control_plane_poc.Domain.{FamilyStatus, rejected, MoveDatatypeRequest}
use flink_control_plane_poc.Cluster.{snapshot}
use flink_control_plane_poc.Cluster.Frame.{state_of, datatypes_of, snapshot-eq}
use flink_control_plane_poc.Cluster.WellFormed.{IsWellFormed}
use flink_control_plane_poc.Cluster.Changes.{view_found}
use flink_control_plane_poc.Actors.{Actors, Command, IsLawful}
use flink_control_plane_poc.Saga.{
  Statuses, Run, saga_error, unhandled, validation_error, expected_steps, failure, nothing_unwound,
  outcome_of, compensate, read_all, roll_back, transact, judge, run,
}
use flink_control_plane_poc.Saga.Contract.{IsMoved, IsUnknown, IsRefused, Promises, AllOrNothing}
use flink_control_plane_poc.Saga.Validation.{
  valid_request, accepted, status_of_source, status_of_target, new_config_source, new_config_target,
}
use flink_control_plane_poc.Saga.Undo.{undo-Undoes, Undoes-nil}
use flink_control_plane_poc.Saga.Unwinding.{state_goal, datatypes_goal, unwind-Unwinds}
use flink_control_plane_poc.Saga.Forward.Steps.{IsUnderway, Stage}
use flink_control_plane_poc.Saga.Forward.{forward-Ensures}

module _ (A : Actors) (lawful : IsLawful A) (request : MoveDatatypeRequest) where
  open A use {S, E, cluster}

  -- No command of the run has been sent.
  abbrev pub IsUnsent : S → Type 0
  IsUnsent s = (command : Command) → A.IsFresh s command

  -- `_read_all` leaves the state alone.
  pub data ReadAll (s : S) : Result E Statuses × S → Type 0 where
    known :
        (statuses : Statuses)
        → lookup request.source_family (cluster s).families ≡ some statuses.source
        → lookup request.target_family (cluster s).families ≡ some statuses.target
        → ReadAll s (ok statuses, s)
    missing : (e : E) → IsUnknown A request s → ReadAll s (err e, s)

  pub read_all-ReadAll : (s : S) → ReadAll s (read_all A request s)
  unfolding read_all
  read_all-ReadAll s =
      let rest = λ (source : FamilyStatus). (do
        target ← A.read_status request.target_family
        pure {S = S} {E = E} {A = Statuses} (record { source = source; target = target })) in
      bind_cases (A.read_status request.source_family) rest s (ReadAll s)
        (λ e t h.
          let (same, unknown) = lawful.read-err request.source_family s t e h in
          subst (λ u. ReadAll s (err e, u)) (sym same) (missing e (inl unknown)))
        (λ source t h.
          let (same, found) = lawful.read-ok request.source_family s t source h in
          bind_cases (A.read_status request.target_family)
            (λ target.
              pure {S = S} {E = E} {A = Statuses} (record { source = source; target = target }))
            t (ReadAll s)
            (λ e u k.
              let (same', unknown) = lawful.read-err request.target_family t u e k in
              subst (λ v. ReadAll s (err e, v)) (sym (same' ∙ same))
                (missing e (
                  inr (
                    subst (λ v. lookup request.target_family (cluster v).families ≡ none) same
                      unknown))))
            (λ target u k.
              let (same', found') = lawful.read-ok request.target_family t u target k in
              subst (λ v. ReadAll s (ok (record { source = source; target = target }), v))
                (sym (same' ∙ same))
                (known _ found (
                  subst (λ v. lookup request.target_family (cluster v).families ≡ some target) same
                    found'))))

  promise :
      (s : S) (errors : List String) (t : S)
      → IsWellFormed (cluster t)
      → (errors ≡ []
          → (family : String) → snapshot (cluster t) family ≡ snapshot (cluster s) family)
      → Promises A request (outcome_of A errors) errors s t
  promise s [] t formed restored = (refl, formed, restored refl)
  promise s (_ ∷ _) t formed restored = ((λ e. cc), formed)

  -- The `except` block: the unwinding leads back to the cluster before the move.
  roll_back_lem :
      (statuses : Statuses) (s : S) (e : E) (run : Run S)
      → IsUnderway A lawful request statuses s run
      → AllOrNothing A request s (roll_back A request e run)
  unfolding roll_back failure compensate
  roll_back_lem statuses s e run h =
      let (unwound, t) = compensate A run.stack run.store in
      let (formed, restored) =
        unwind-Unwinds A lawful 0 (reverse run.stack) nothing_unwound run.store h.tracked.intents
          (λ index label _. h.can_unwind index label) h.tracked.formed in
      promise s unwound.errors t formed (λ none_failed family.
        let (_, r) = restored none_failed in
        snapshot-eq (cluster s) (cluster t) family
          (r.states family ∙ undo-Undoes state_goal h.tracked.states family)
          (r.datatypes family ∙ undo-Undoes datatypes_goal h.tracked.datatypes family))

  started :
      (statuses : Statuses) (s : S)
      → IsUnsent s
      → IsWellFormed (cluster s)
      → IsUnderway A lawful request statuses s (record { store = s; done = []; stack = [] })
  started statuses s unsent formed = record {
    tracked = record {
      formed = formed;
      intents = tt;
      states = Undoes-nil state_goal (state_of (cluster s));
      datatypes = Undoes-nil datatypes_goal (datatypes_of (cluster s));
    };
    other_states = λ _ _. refl;
    other_datatypes = λ _ _. refl;
    can_unwind = λ index label. unsent (Command.restore index label);
  }

  module _ (statuses : Statuses) (s : S)
      (source_found : lookup request.source_family (cluster s).families ≡ some statuses.source)
      (target_found : lookup request.target_family (cluster s).families
        ≡ some statuses.target) where
    moved :
        (last : Run S)
        → validation_error request statuses ≡ none
        → IsUnderway A lawful request statuses s last
        → (let both = request.source_family ∷ request.target_family ∷ [] in
            Stage A lawful request statuses s [] both both (expected_steps request) [] last)
        → IsMoved request (cluster s) (cluster last.store)
    moved last valid h stage =
        let (distinct, owned, not_owned) = valid_request request statuses valid in
        record {
          old_source = statuses.source.datatypes;
          old_target = statuses.target.datatypes;
          source_before =
              view_found (λ x. x.datatypes) request.source_family statuses.source (cluster s)
                source_found;
          target_before =
              view_found (λ x. x.datatypes) request.target_family statuses.target (cluster s)
                target_found;
          owned = owned;
          not_owned = not_owned;
          source_after =
              stage.are_patched.0 ∙ ap some (new_config_source request statuses distinct);
          target_after = stage.are_patched.1.0 ∙ ap some (new_config_target request statuses);
          source_runs = stage.are_resumed.0;
          target_runs = stage.are_resumed.1.0;
          others = λ family not_source not_target.
              let apart : ¬ ((family ≡ request.source_family) ⊎ (family ≡ request.target_family)) =
                elim [ inl e ↦ not_source e | inr e ↦ not_target e ] in
              snapshot-eq (cluster s) (cluster last.store) family (h.other_states family apart)
                (h.other_datatypes family apart);
        }

    transact_lem :
        validation_error request statuses ≡ none
        → IsUnsent s
        → IsWellFormed (cluster s)
        → AllOrNothing A request s (transact A request statuses s)
    unfolding transact
    transact_lem valid unsent formed =
        let (distinct, _, _) = valid_request request statuses valid in
        go (
          forward-Ensures A lawful request statuses s distinct
            (source_found ∙ ap some (sym (status_of_source request statuses distinct)))
            (target_found ∙ ap some (sym (status_of_target request statuses)))
            (record { store = s; done = []; stack = [] }) (started statuses s unsent formed)
            (record {
              finished = refl;
              are_paused = tt;
              are_patched = tt;
              are_resumed = tt;
              are_fresh =
                  (unsent _, (unsent _, (unsent _, (unsent _, (unsent _, (unsent _, tt))))));
            }))
      where
        go :
            {r : Result E (Unit {0}) × Run S}
            → (let both = request.source_family ∷ request.target_family ∷ [] in
                Ensures
                  (IsUnderway A lawful request statuses s)
                  (Stage A lawful request statuses s [] both both (expected_steps request) [])
                  r)
            → AllOrNothing A request s
                (elim r.0 [ ok _ ↦ (ok r.1.done, r.1.store) | err e ↦ roll_back A request e r.1 ])
        go (Ensures.returned _ last i stage) =
            (stage.finished, i.tracked.formed, moved last valid i stage)
        go (Ensures.raised e last i) = roll_back_lem statuses s e last i

    -- A request that is rejected is invalid.
    refused :
        (reason : String) → validation_error request statuses ≡ some reason → IsRefused A request s
    refused reason invalid old_source old_target at_source at_target distinct owned =
        let source_is : statuses.source.datatypes ≡ old_source =
          let e =
            sym (
              view_found (λ x. x.datatypes) request.source_family statuses.source (cluster s)
                source_found)
            ∙ at_source in
          cc in
        let target_is : statuses.target.datatypes ≡ old_target =
          let e =
            sym (
              view_found (λ x. x.datatypes) request.target_family statuses.target (cluster s)
                target_found)
            ∙ at_target in
          cc in
        elim (Bool-cases (contains request.datatype old_target)) [
          | inl there ↦ there
          | inr absent ↦
              let ok =
                accepted request statuses distinct
                  (ap (contains request.datatype) source_is ∙ owned)
                  (ap (contains request.datatype) target_is ∙ absent) in
              absurd (let clash : none ≡ some reason = sym ok ∙ invalid in cc)
        ]

    judge_lem :
        IsUnsent s
        → IsWellFormed (cluster s)
        → AllOrNothing A request s (judge A request statuses s)
    unfolding judge failure
    judge_lem unsent formed = go (validation_error request statuses) refl
      where
        go :
            (verdict : Option String)
            → validation_error request statuses ≡ verdict
            → AllOrNothing A request s (elim verdict [
              | some reason ↦
                  (err (saga_error (failure request rejected "validate" reason nothing_unwound)), s)
              | none ↦ transact A request statuses s
            ])
        go none valid = transact_lem valid unsent formed
        go (some reason) invalid = (refl, refused reason invalid)

  -- A run over lawful actors, none of whose commands has been sent, from a well-formed cluster ends
  -- in one of five ways: it returns the six steps and the datatype has moved, with both families
  -- running and no other family's state or datatypes changed; a read raises, nothing has changed,
  -- and a family of the move has no file; it is REJECTED, nothing has changed, and the stored
  -- datatypes do not allow the move; it is COMPENSATED, without compensation errors, and every
  -- family has the state and the datatypes that it had before; or it is COMPENSATION_INCOMPLETE,
  -- with a compensation error. In the first case and the last two the cluster is again well formed.
  pub run-AllOrNothing :
      (s : S) → IsUnsent s → IsWellFormed (cluster s) → AllOrNothing A request s (run A request s)
  unfolding run
  run-AllOrNothing s unsent formed = go (read_all-ReadAll s)
    where
      go :
          {r : Result E Statuses × S}
          → ReadAll s r
          → AllOrNothing A request s (elim r.0 [
            | ok statuses ↦ judge A request statuses r.1
            | err e ↦ (err (unhandled e), r.1)
          ])
      go (ReadAll.known statuses f g) = judge_lem statuses s f g unsent formed
      go (ReadAll.missing e unknown) = (refl, unknown)
