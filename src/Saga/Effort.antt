-- ===== src/Saga/Effort.antt =====
-- A bound on what a run costs, from bounds on what the commands cost.
use mathlib.Core.List.{reverse}
use flink_control_plane_poc.Prelude.{
  ℕ, ◌+◌, ◌*◌, ◌≤◌, String, ◌<>◌, ◌≡◌, refl, ap, Option, none, some, List, [], ◌∷◌, ◌++◌, arith,
}
use flink_control_plane_poc.Prelude.Lists.{length, length-append}
use flink_control_plane_poc.Exec.{Result, ok, err, Exec, ◌>>=◌, ◌>>◌, pure}
use flink_control_plane_poc.Exec.Cost.{Adds, Adds-bind}
use flink_control_plane_poc.Domain.{FamilyStatus, MoveDatatypeRequest, families, rejected}
use flink_control_plane_poc.Actors.{Actors, Compensation}
use flink_control_plane_poc.Saga
use flink_control_plane_poc.Saga.{
  Statuses, Run, Failed, saga_error, unhandled, step, call, phase, forward, tally, unwind,
  compensate, Unwound, nothing_unwound, expected_steps, roll_back, transact, judge, read_all,
  pause_restore, config_restore, validation_error, failure, resume_restore, new_config,
}
use flink_control_plane_poc.Saga.Report.{Went, forward-Went, length-reverse}

-- What each command costs at most: two activities for a pause, one for a patch or a resume, and
-- three for a restore, of four attempts each. A read is free.
pub record IsFrugal (A : Actors) (cost : A.S → ℕ) : Type 0 where
  pub reads : (family : String) (s : A.S) → Adds cost 0 s (A.read_status family s)
  pub pauses : (family : String) (s : A.S) → Adds cost 8 s (A.pause family s)
  pub patches :
      (family : String) (datatypes : List String) (s : A.S)
      → Adds cost 4 s (A.patch_config family datatypes s)
  pub resumes : (family : String) (s : A.S) → Adds cost 4 s (A.resume family s)
  pub restores :
      (index : ℕ) (item : Compensation) (s : A.S) → Adds cost 12 s (A.restore index item s)

module _ (A : Actors) (cost : A.S → ℕ) (frugal : IsFrugal A cost) where
  open A use {S, E}

  abbrev cost_of : Run S → ℕ
  cost_of run = cost run.store

  step-Adds :
      (n : ℕ) (item : Compensation) (command : Exec S E (Unit {0})) (label : String) (run : Run S)
      → Adds cost n run.store (command run.store)
      → Adds cost_of n run (step A item command label run)
  unfolding step call
  step-Adds n item command label run h = go (command run.store) h
    where
      go :
          (r : Result E (Unit {0}) × S)
          → Adds cost n run.store r
          → Adds {E = E} {A = Unit {0}} cost_of n run (elim r.0 [
            | ok _ ↦ (
              ok tt,
              record run {
                store = r.1;
                done = run.done ++ label ∷ [];
                stack = run.stack ++ item ∷ [];
              },
            )
            | err e ↦ (err e, record run { store = r.1; stack = run.stack ++ item ∷ [] })
          ])
      go (ok _, t) k = k
      go (err e, t) k = k

  module _ (request : MoveDatatypeRequest) where
    phase-Adds :
        (n : ℕ) (restore : String → Compensation) (command : String → Exec S E (Unit {0}))
        (label : String → String)
        → ((family : String) (s : S) → Adds cost n s (command family s))
        → (run : Run S)
        → Adds cost_of (n + (n + 0)) run (phase A restore command label (families request) run)
    unfolding phase families
    phase-Adds n restore command label each run =
        let f = request.source_family in
        let g = request.target_family in
        Adds-bind cost_of n (n + 0) (step A (restore f) (command f) (label f))
          (λ _. phase A restore command label (g ∷ [])) run
          (step-Adds n (restore f) (command f) (label f) run (each f run.store))
          (λ _ mid.
            Adds-bind cost_of n 0 (step A (restore g) (command g) (label g)) (λ _. pure tt) mid
              (step-Adds n (restore g) (command g) (label g) mid (each g mid.store))
              (λ _ last. omega arith))

    forward-Adds :
        (statuses : Statuses) (run : Run S) → Adds cost_of 32 run (forward A request statuses run)
    unfolding forward
    forward-Adds statuses run =
        let patch =
          phase A (config_restore request statuses)
            (λ f. A.patch_config f (new_config request statuses f)) (λ f. "patch:" <> f)
            (families request) in
        let resume = phase A resume_restore A.resume (λ f. "resume:" <> f) (families request) in
        Adds-bind cost_of 16 16
          (phase A (pause_restore request statuses) A.pause (λ f. "pause:" <> f) (families request))
          (λ _. patch >> resume) run
          (phase-Adds 8 (pause_restore request statuses) A.pause (λ f. "pause:" <> f) frugal.pauses
            run)
          (λ _ mid.
            Adds-bind cost_of 8 8 patch (λ _. resume) mid
              (phase-Adds 4 (config_restore request statuses)
                (λ f. A.patch_config f (new_config request statuses f)) (λ f. "patch:" <> f)
                (λ f s. frugal.patches f (new_config request statuses f) s) mid)
              (λ _ late.
                phase-Adds 4 resume_restore A.resume (λ f. "resume:" <> f) frugal.resumes late))

  unwind-cost :
      (index : ℕ) (items : List Compensation) (u : Unwound) (s : S)
      → cost (unwind A index items u s).1 ≤ cost s + 12 * length items
  unfolding unwind
  unwind-cost index [] u s = omega arith
  unwind-cost index (item ∷ items) u s =
      let r = A.restore index item s in
      omega (
        arith,
        unwind-cost (index + 1) items (tally A item r.0 u) r.1,
        frugal.restores index item s,
      )

  compensate-cost :
      (stack : List Compensation) (s : S)
      → length stack ≤ 6
      → cost (compensate A stack s).1 ≤ cost s + 72
  unfolding compensate
  compensate-cost stack s few =
      omega (arith, unwind-cost 0 (reverse stack) nothing_unwound s, length-reverse stack, few)

  module _ (request : MoveDatatypeRequest) where
    six_steps : length (expected_steps request) ≡ 6
    unfolding expected_steps families
    six_steps = refl

    -- The `try` block and the `except` block together.
    transact-Adds : (statuses : Statuses) (s : S) → Adds cost 104 s (transact A request statuses s)
    unfolding transact roll_back
    transact-Adds statuses s =
        let start : Run S = record { store = s; done = []; stack = [] } in
        go (forward-Went A request statuses start) (forward-Adds request statuses start)
      where
        go :
            {r : Result E (Unit {0}) × Run S}
            → Went A (expected_steps request) (record { store = s; done = []; stack = [] }) r
            → cost_of r.1 ≤ cost s + 32
            → Adds {E = Failed E} {A = List String} cost 104 s
                (elim r.0 [ ok _ ↦ (ok r.1.done, r.1.store) | err e ↦ roll_back A request e r.1 ])
        go (Went.finished end done stack) spent = omega (arith, spent)
        go (Went.stopped e end before failing rest splits done stack) spent = omega (
          arith,
          spent,
          compensate-cost end.stack end.store (
              omega
                (arith, stack, six_steps, ap length splits, length-append before (failing ∷ rest))),
        )

    judge-Adds : (statuses : Statuses) (s : S) → Adds cost 104 s (judge A request statuses s)
    unfolding judge
    judge-Adds statuses s = go (validation_error request statuses)
      where
        go :
            (answer : Option String)
            → Adds {E = Failed E} {A = List String} cost 104 s (elim answer [
              | some reason ↦
                  (err (saga_error (failure request rejected "validate" reason nothing_unwound)), s)
              | none ↦ transact A request statuses s
            ])
        go none = transact-Adds statuses s
        go (some reason) = omega arith

    read_all-Adds : (s : S) → Adds cost 0 s (read_all A request s)
    unfolding read_all
    read_all-Adds s =
        let rest = λ (source : FamilyStatus). (do
          target ← A.read_status request.target_family
          pure {S = S} {E = E} {A = Statuses} (record { source = source; target = target })) in
        Adds-bind cost 0 0 (A.read_status request.source_family) rest s
          (frugal.reads request.source_family s)
          (λ source t.
            Adds-bind cost 0 0 (A.read_status request.target_family)
              (λ target. pure (record { source = source; target = target })) t
              (frugal.reads request.target_family t) (λ _ u. omega arith))

    -- Over such actors, a run costs at most 104: 32 for its six commands, and 12 for each of the at
    -- most six restores.
    pub run-Adds : (s : S) → Adds cost 104 s (Saga.run A request s)
    unfolding Saga.run
    run-Adds s = go (read_all A request s) (read_all-Adds s)
      where
        go :
            (r : Result E Statuses × S)
            → Adds cost 0 s r
            → Adds {E = Failed E} {A = List String} cost 104 s (elim r.0 [
              | ok statuses ↦ judge A request statuses r.1
              | err e ↦ (err (unhandled e), r.1)
            ])
        go (ok statuses, t) h = omega (arith, h, judge-Adds statuses t)
        go (err e, t) h = omega (arith, h)
