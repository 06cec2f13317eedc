-- ===== src/Saga/Report.antt =====
-- What the report of a failed run says: the step that failed, and the counts of the unwinding.
mod Steps
use mathlib.Core.List.{reverse, reverse-append, append-nil, append_assoc}
use mathlib.Core.Path.{subst}
use flink_control_plane_poc.Prelude.{
  ℕ, suc, ◌+◌, String, ◌<>◌, ◌≡◌, ◌≢◌, refl, sym, ap, ◌∙◌, Bool, true, false, List, [], ◌∷◌, ◌++◌,
  map, arith, Option, none, some, ◌⊎◌, inl, inr,
}
use flink_control_plane_poc.Prelude.Lists.{length, length-append}
use flink_control_plane_poc.Exec.{Result, ok, err, Exec, pure, modify, ◌>>=◌, ◌>>◌}
use flink_control_plane_poc.Domain.{MoveDatatypeRequest, families, SagaFailure, rejected}
use flink_control_plane_poc.Actors.{Actors, Compensation}
use flink_control_plane_poc.Saga.Validation.{valid_request}
use flink_control_plane_poc.Saga.Report.Steps.{next_step-follows}
use flink_control_plane_poc.Prelude.Equality.{string_eq, contains}
use flink_control_plane_poc.Saga.{
  read_all, validation_error, failure, Statuses, Run, Failed, saga_error, unhandled, step, call,
  phase, forward, tally, unwind, compensate, Unwound, nothing_unwound, expected_steps, next_step,
  roll_back, transact, judge, run, pause_restore, config_restore, resume_restore, new_config,
}

-- How many intents have been unwound, one way or another.
abbrev unwound_items : Unwound → ℕ
unwound_items u = length u.applied + length u.noops + length u.errors

pub length-reverse : {A : Type 0} (xs : List A) → length (reverse xs) ≡ length xs
length-reverse [] = refl
length-reverse (x ∷ xs) = omega (
  arith,
  ap length (reverse-append (x ∷ []) xs),
  length-append (reverse xs) (x ∷ []),
  length-reverse xs,
)

module _ (A : Actors) where
  open A use {S, E}

  tally-items :
      (item : Compensation) (r : Result E Bool) (u : Unwound)
      → unwound_items (tally A item r u) ≡ unwound_items u + 1
  unfolding tally
  tally-items item (ok true) u = omega (arith, length-append u.applied (item.label ∷ []))
  tally-items item (ok false) u = omega (arith, length-append u.noops (item.label ∷ []))
  tally-items item (err e) u =
      omega (arith, length-append u.errors ((item.label <> ": " <> A.text e) ∷ []))

  unwind-items :
      (index : ℕ) (items : List Compensation) (u : Unwound) (s : S)
      → unwound_items (unwind A index items u s).0 ≡ unwound_items u + length items
  unfolding unwind
  unwind-items index [] u s = omega arith
  unwind-items index (item ∷ items) u s =
      let r = A.restore index item s in
      omega (arith, unwind-items (index + 1) items (tally A item r.0 u) r.1, tally-items item r.0 u)

  compensate-items :
      (stack : List Compensation) (s : S) → unwound_items (compensate A stack s).0 ≡ length stack
  unfolding compensate
  compensate-items stack s =
      omega (arith, unwind-items 0 (reverse stack) nothing_unwound s, length-reverse stack)

  -- How far a part of the `try` block with the given steps gets: each step that is done, and the
  -- one that raises, has pushed its intent.
  pub data Went (plan : List String) (start : Run S) : Result E (Unit {0}) × Run S → Type 0 where
    finished :
        (end : Run S)
        → end.done ≡ start.done ++ plan
        → length end.stack ≡ length start.stack + length plan
        → Went plan start (ok tt, end)
    stopped :
        (e : E) (end : Run S) (before : List String) (failing : String) (rest : List String)
        → plan ≡ before ++ failing ∷ rest
        → end.done ≡ start.done ++ before
        → length end.stack ≡ length start.stack + length before + 1
        → Went plan start (err e, end)

  step-Went :
      (item : Compensation) (command : Exec S E (Unit {0})) (label : String) (start : Run S)
      → Went (label ∷ []) start (step A item command label start)
  unfolding step call
  step-Went item command label start = go (command start.store)
    where
      go :
          (r : Result E (Unit {0}) × S)
          → Went (label ∷ []) start (elim r.0 [
            | ok _ ↦ (
              ok tt,
              record start {
                store = r.1;
                done = start.done ++ label ∷ [];
                stack = start.stack ++ item ∷ [];
              },
            )
            | err e ↦ (err e, record start { store = r.1; stack = start.stack ++ item ∷ [] })
          ])
      go (ok _, s) = Went.finished _ refl (length-append start.stack (item ∷ []))
      go (err e, s) =
          Went.stopped e _ [] label [] refl (sym (append-nil start.done))
            (omega (arith, length-append start.stack (item ∷ [])))

  Went-bind :
      (p q : List String) (m k : Run S → Result E (Unit {0}) × Run S) (start : Run S)
      → Went p start (m start)
      → ((mid : Run S) → Went q mid (k mid))
      → Went (p ++ q) start ((m >> k) start)
  Went-bind p q m k start first later = go first
    where
      after :
          (mid : Run S)
          → mid.done ≡ start.done ++ p
          → length mid.stack ≡ length start.stack + length p
          → {r : Result E (Unit {0}) × Run S} → Went q mid r
          → Went (p ++ q) start r
      after mid at deep (Went.finished end done stack) =
          Went.finished end (done ∙ ap (λ xs. xs ++ q) at ∙ append_assoc start.done p q)
            (omega (arith, deep, stack, length-append p q))
      after mid at deep (Went.stopped e end before failing rest splits done stack) =
          Went.stopped e end (p ++ before) failing rest
            (ap (λ xs. p ++ xs) splits ∙ sym (append_assoc p before (failing ∷ rest)))
            (done ∙ ap (λ xs. xs ++ before) at ∙ append_assoc start.done p before)
            (omega (arith, deep, stack, length-append p before))

      go :
          {r : Result E (Unit {0}) × Run S}
          → Went p start r
          → Went (p ++ q) start (elim r.0 [ ok _ ↦ k r.1 | err e ↦ (err e, r.1) ])
      go (Went.finished mid done stack) = after mid done stack (later mid)
      go (Went.stopped e end before failing rest splits done stack) =
          Went.stopped e end before failing (rest ++ q)
            (ap (λ xs. xs ++ q) splits ∙ append_assoc before (failing ∷ rest) q) done stack

  phase-Went :
      (restore : String → Compensation) (command : String → Exec S E (Unit {0}))
      (label : String → String) (families : List String) (start : Run S)
      → Went (map label families) start (phase A restore command label families start)
  unfolding phase
  phase-Went restore command label [] start =
      Went.finished start (sym (append-nil start.done)) (omega arith)
  phase-Went restore command label (f ∷ fs) start =
      Went-bind (label f ∷ []) (map label fs) (step A (restore f) (command f) (label f))
        (phase A restore command label fs) start (step-Went (restore f) (command f) (label f) start)
        (λ mid. phase-Went restore command label fs mid)

  module _ (request : MoveDatatypeRequest) where
    pub forward-Went :
        (statuses : Statuses) (start : Run S)
        → Went (expected_steps request) start (forward A request statuses start)
    unfolding forward expected_steps
    forward-Went statuses start =
        let pauses =
          phase A (pause_restore request statuses) A.pause (λ f. "pause:" <> f)
            (families request) in
        let patches =
          phase A (config_restore request statuses)
            (λ f. A.patch_config f (new_config request statuses f)) (λ f. "patch:" <> f)
            (families request) in
        let resumes = phase A resume_restore A.resume (λ f. "resume:" <> f) (families request) in
        Went-bind (map (λ f. "pause:" <> f) (families request)) _ pauses (patches >> resumes) start
          (phase-Went _ _ (λ f. "pause:" <> f) (families request) start)
          (λ mid.
            Went-bind (map (λ f. "patch:" <> f) (families request)) _ patches resumes mid
              (phase-Went _ _ (λ f. "patch:" <> f) (families request) mid)
              (λ late. phase-Went _ _ (λ f. "resume:" <> f) (families request) late))

    -- A report that names the step after those that were done, and tells the fate of the intent of
    -- each of them and of its own.
    pub record IsExact (report : SagaFailure) : Type 0 where
      pub before : List String
      pub rest : List String
      pub order : expected_steps request ≡ before ++ report.failed_step ∷ rest
      pub counted :
          length report.compensated
            + length report.compensation_noops
            + length report.compensation_errors
          ≡ length before + 1

    -- A report of a rejection counts nothing.
    abbrev pub Reports : Result (Failed E) (List String) × S → Type 0
    Reports (ok steps, t) = steps ≡ expected_steps request
    Reports (err (unhandled e), t) = Unit
    Reports (err (saga_error e), t) =
        (e.failure.outcome ≡ rejected) × (e.failure.failed_step ≡ "validate") ⊎ IsExact e.failure

    roll_back-IsExact :
        (e : E) (end : Run S) (before : List String) (failing : String) (rest : List String)
        → request.source_family ≢ request.target_family
        → expected_steps request ≡ before ++ failing ∷ rest
        → end.done ≡ before
        → length end.stack ≡ length before + 1
        → Reports (roll_back A request e end)
    unfolding roll_back failure
    roll_back-IsExact e end before failing rest distinct splits done stack =
        let named : next_step request end.done ≡ failing =
          ap (next_step request) done
          ∙ next_step-follows request before failing rest distinct splits in
        inr (record {
          before = before;
          rest = rest;
          order = splits ∙ ap (λ s. before ++ s ∷ rest) (sym named);
          counted = omega (arith, compensate-items end.stack end.store, stack);
        })

    transact_lem :
        (statuses : Statuses) (s : S)
        → request.source_family ≢ request.target_family
        → Reports (transact A request statuses s)
    unfolding transact
    transact_lem statuses s distinct = go (forward-Went statuses _)
      where
        go :
            {r : Result E (Unit {0}) × Run S}
            → Went (expected_steps request) (record { store = s; done = []; stack = [] }) r
            → Reports
                (elim r.0 [ ok _ ↦ (ok r.1.done, r.1.store) | err e ↦ roll_back A request e r.1 ])
        go (Went.finished end done stack) = done
        go (Went.stopped e end before failing rest splits done stack) =
            roll_back-IsExact e end before failing rest distinct splits done (omega (arith, stack))

    judge_lem : (statuses : Statuses) (s : S) → Reports (judge A request statuses s)
    unfolding judge failure
    judge_lem statuses s = go (validation_error request statuses) refl
      where
        go :
            (answer : Option String)
            → validation_error request statuses ≡ answer
            → Reports (elim answer [
              | some reason ↦
                  (err (saga_error (failure request rejected "validate" reason nothing_unwound)), s)
              | none ↦ transact A request statuses s
            ])
        go none valid = transact_lem statuses s (valid_request request statuses valid).0
        go (some reason) invalid = inl (refl, refl)

    -- Whatever the actors do, a run that returns has done the six steps; and a run that ends with a
    -- verdict is REJECTED at "validate", or names one of the six steps as the failed one, such that
    -- its three lists have together one entry for each step before it, and one for itself.
    pub run-Reports : (s : S) → Reports (run A request s)
    unfolding run
    run-Reports s = go (read_all A request s)
      where
        go :
            (r : Result E Statuses × S)
            → Reports (elim r.0 [
              | ok statuses ↦ judge A request statuses r.1
              | err e ↦ (err (unhandled e), r.1)
            ])
        go (ok statuses, t) = judge_lem statuses t
        go (err e, t) = tt
