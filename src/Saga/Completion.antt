-- ===== src/Saga/Completion.antt =====
-- A move whose commands all return is completed.
use flink_control_plane_poc.Prelude.{
  String, ◌≡◌, ◌≢◌, refl, ap, ◌∙◌, ◌⊎◌, inl, inr, true, false, none, some, List, [], ◌∷◌, ◌++◌,
  ◌<>◌, arith,
}
use flink_control_plane_poc.Prelude.Equality.{string_eq, contains}
use flink_control_plane_poc.Prelude.Dict.{lookup}
use flink_control_plane_poc.Exec.{Result, ok, err, Exec, pure, ◌>>◌, Returns, Returns-bind}
use flink_control_plane_poc.Domain.{FamilyStatus, MoveDatatypeRequest, families}
use flink_control_plane_poc.Cluster.{MockCluster}
use flink_control_plane_poc.Cluster.Frame.{datatypes_of}
use flink_control_plane_poc.Saga.Validation.{accepted}
use flink_control_plane_poc.Saga.Outcomes.{ReadAll, read_all-ReadAll}
use flink_control_plane_poc.Actors.{Actors, Compensation, IsLawful}
use flink_control_plane_poc.Saga
use flink_control_plane_poc.Saga.{
  Statuses, Run, Failed, unhandled, step, call, phase, forward, transact, roll_back, judge,
  read_all, expected_steps, validation_error, status_of, new_config, pause_restore, config_restore,
  resume_restore,
}

found_not_missing :
    (c : MockCluster) (family : String) (datatypes : List String)
    → datatypes_of c family ≡ some datatypes
    → lookup family c.families ≢ none
found_not_missing c family datatypes found missing = ground (arith, missing, found)

stored :
    (c : MockCluster) (family : String) (datatypes : List String) (status : FamilyStatus)
    → datatypes_of c family ≡ some datatypes
    → lookup family c.families ≡ some status
    → status.datatypes ≡ datatypes
stored c family datatypes status found is = ground (arith, found, is)

-- In states with `I`, the actors of the request's families carry out every command.
pub record IsResponsive (A : Actors) (request : MoveDatatypeRequest) (I : A.S → Type 0)
    : Type 0 where
  pub pauses :
      (family : String) (s : A.S)
      → (family ≡ request.source_family) ⊎ (family ≡ request.target_family)
      → I s
      → Returns I (A.pause family s)
  pub patches :
      (family : String) (datatypes : List String) (s : A.S)
      → (family ≡ request.source_family) ⊎ (family ≡ request.target_family)
      → I s
      → Returns I (A.patch_config family datatypes s)
  pub resumes :
      (family : String) (s : A.S)
      → (family ≡ request.source_family) ⊎ (family ≡ request.target_family)
      → I s
      → Returns I (A.resume family s)

module _ (A : Actors) (request : MoveDatatypeRequest) (I : A.S → Type 0)
    (responsive : IsResponsive A request I) where
  open A use {S, E, cluster}

  abbrev Going : Run S → Type 0
  Going run = I run.store

  step-Returns :
      (item : Compensation) (command : Exec S E (Unit {0})) (label : String) (run : Run S)
      → Returns I (command run.store)
      → Returns Going (step A item command label run)
  unfolding step
  step-Returns item command label run h = go h
    where
      go :
          {r : Result E (Unit {0}) × S}
          → Returns I r
          → Returns {S = Run S} {E = E} {A = Unit {0}} Going (elim r.0 [
            | ok _ ↦ (
              ok tt,
              record run {
                store = r.1;
                done = run.done ++ label ∷ [];
                stack = run.stack ++ item ∷ [];
              },
            )
            | err e ↦ (err e, record run { store = r.1; stack = run.stack ++ item ∷ [] })
          ])
      go (Returns.returned a t i) = Returns.returned tt _ i

  phase-Returns :
      (restore : String → Compensation) (command : String → Exec S E (Unit {0}))
      (label : String → String)
      → ((family : String) (s : S)
          → (family ≡ request.source_family) ⊎ (family ≡ request.target_family)
          → I s
          → Returns I (command family s))
      → (run : Run S) → Going run
      → Returns Going (phase A restore command label (families request) run)
  unfolding phase families
  phase-Returns restore command label each run i =
      let f = request.source_family in
      let g = request.target_family in
      Returns-bind (step A (restore f) (command f) (label f))
        (λ _. phase A restore command label (g ∷ [])) run
        (step-Returns (restore f) (command f) (label f) run (each f run.store (inl refl) i))
        (λ _ mid j.
          Returns-bind (step A (restore g) (command g) (label g)) (λ _. pure tt) mid
            (step-Returns (restore g) (command g) (label g) mid (each g mid.store (inr refl) j))
            (λ _ last k. Returns.returned tt last k))

  forward-Returns :
      (statuses : Statuses) (run : Run S)
      → Going run
      → Returns Going (forward A request statuses run)
  unfolding forward
  forward-Returns statuses run i =
      let patch =
        phase A (config_restore request statuses)
          (λ f. A.patch_config f (new_config request statuses f)) (λ f. "patch:" <> f)
          (families request) in
      let resume = phase A resume_restore A.resume (λ f. "resume:" <> f) (families request) in
      Returns-bind
        (phase A (pause_restore request statuses) A.pause (λ f. "pause:" <> f) (families request))
        (λ _. patch >> resume) run
        (phase-Returns (pause_restore request statuses) A.pause (λ f. "pause:" <> f)
          responsive.pauses run i)
        (λ _ mid j.
          Returns-bind patch (λ _. resume) mid
            (phase-Returns (config_restore request statuses)
              (λ f. A.patch_config f (new_config request statuses f)) (λ f. "patch:" <> f)
              (λ f s. responsive.patches f (new_config request statuses f) s) mid j)
            (λ _ late k.
              phase-Returns resume_restore A.resume (λ f. "resume:" <> f) responsive.resumes late
                k))

  transact-Returns : (statuses : Statuses) (s : S) → I s → Returns I (transact A request statuses s)
  unfolding transact
  transact-Returns statuses s i = go (forward-Returns statuses _ i)
    where
      go :
          {r : Result E (Unit {0}) × Run S}
          → Returns Going r
          → Returns {E = Failed E} {A = List String} I
              (elim r.0 [ ok _ ↦ (ok r.1.done, r.1.store) | err e ↦ roll_back A request e r.1 ])
      go (Returns.returned a last j) = Returns.returned _ _ j

  module _ (statuses : Statuses) (s : S) where
    judge-Returns :
        validation_error request statuses ≡ none
        → I s
        → Returns {E = Failed E} {A = List String} I (judge A request statuses s)
    unfolding judge
    judge-Returns valid i = rw (valid, judge) (transact-Returns statuses s i)

  -- Where the stored datatypes allow the move and its families carry out every command, the run
  -- returns.
  pub run-Returns :
      (lawful : IsLawful A) (old_source old_target : List String) (s : S)
      → request.source_family ≢ request.target_family
      → datatypes_of (cluster s) request.source_family ≡ some old_source
      → datatypes_of (cluster s) request.target_family ≡ some old_target
      → contains request.datatype old_source ≡ true
      → contains request.datatype old_target ≡ false
      → I s
      → Returns {E = Failed E} {A = List String} I (Saga.run A request s)
  unfolding Saga.run
  run-Returns lawful old_source old_target s distinct at_source at_target owned new i =
      go (read_all-ReadAll A lawful request s)
    where
      go :
          {r : Result E Statuses × S}
          → ReadAll A lawful request s r
          → Returns {E = Failed E} {A = List String} I (elim r.0 [
            | ok statuses ↦ judge A request statuses r.1
            | err e ↦ (err (unhandled e), r.1)
          ])
      go (ReadAll.missing e (inl unknown)) =
          absurd (found_not_missing (cluster s) request.source_family old_source at_source unknown)
      go (ReadAll.missing e (inr unknown)) =
          absurd (found_not_missing (cluster s) request.target_family old_target at_target unknown)
      go (ReadAll.known statuses f g) =
          judge-Returns statuses s
            (accepted request statuses distinct
              (ap (contains request.datatype)
                  (stored (cluster s) request.source_family old_source _ at_source f)
                ∙ owned)
              (ap (contains request.datatype)
                  (stored (cluster s) request.target_family old_target _ at_target g)
                ∙ new))
            i
