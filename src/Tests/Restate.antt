-- ===== src/Tests/Restate.antt =====
-- The theorems on Restate at a concrete engine.
use flink_control_plane_poc.Prelude.{ℕ, zero, suc, ◌-◌, String, ◌≡◌, refl, none}
use flink_control_plane_poc.Prelude.Equality.{string_eq}
use flink_control_plane_poc.Exec.{Result, ok, err}
use flink_control_plane_poc.Domain.{error_text}
use flink_control_plane_poc.Cluster.{MockCluster}
use flink_control_plane_poc.Actors.{IsLawful}
use flink_control_plane_poc.Restate.Steps.{StepError, Step, Tries, Engine}
use flink_control_plane_poc.Restate.Actor.{Store}
use flink_control_plane_poc.Restate
use flink_control_plane_poc.Restate.Saga.{restate_actors}
use flink_control_plane_poc.Restate.Lawful.{restate_actors-IsLawful}
use flink_control_plane_poc.Restate.Verdicts.{Settled, run-Settled}
use flink_control_plane_poc.Scenarios.{request, fail_in_resume}
use flink_control_plane_poc.Scenarios.Runs.{prepared}
use flink_control_plane_poc.Tests.{formed}

-- An engine that retries a step at once.
give_up : StepError → String
give_up (StepError.terminal text) = text
give_up (StepError.retried e) = error_text e

attempt_all : {A : Type 0} → ℕ → Step A → MockCluster → Result String A × MockCluster
attempt_all zero fn c =
    let (r, c') = fn c in elim r [ ok a ↦ (ok a, c') | err e ↦ (err (give_up e), c') ]
attempt_all (suc more) fn c =
    let (r, c') = fn c in
    let rest = attempt_all more fn c' in
    elim r [ ok a ↦ (ok a, c') | err (StepError.terminal text) ↦ (err text, c') | err _ ↦ rest ]

attempt_all-Tries :
    {A : Type 0} (more : ℕ) (fn : Step A) (c : MockCluster) → Tries fn c (attempt_all more fn c)
unfolding attempt_all give_up
attempt_all-Tries {A} zero fn c = go (fn c) refl
  where
    go :
        (r : Result StepError A × MockCluster)
        → fn c ≡ r
        → Tries fn c (elim r.0 [ ok a ↦ (ok a, r.1) | err e ↦ (err (give_up e), r.1) ])
    go (ok a, c') h = Tries.returned a c c' h
    go (err e, c') h = Tries.gave_up e (give_up e) c c' h
attempt_all-Tries {A} (suc more) fn c = go (attempt_all-Tries more fn) (fn c) refl
  where
    go :
        ((c' : MockCluster) → Tries fn c' (attempt_all more fn c'))
        → (r : Result StepError A × MockCluster) → fn c ≡ r
        → Tries fn c (elim r.0 [
          | ok a ↦ (ok a, r.1)
          | err (StepError.terminal text) ↦ (err text, r.1)
          | err _ ↦ attempt_all more fn r.1
        ])
    go later (ok a, c') h = Tries.returned a c c' h
    go later (err (StepError.terminal text), c') h = Tries.gave_up _ text c c' h
    go later (err (StepError.retried e), c') h = Tries.again _ c c' _ h (later c')

retrying : Engine
unfolding attempt_all
retrying = record {
  run_typed = λ attempts fn c. attempt_all (attempts - 1) fn c;
  run_typed-Tries = λ attempts fn c. attempt_all-Tries (attempts - 1) fn c;
}

restate_actors-IsLawful_example : IsLawful (restate_actors retrying)
restate_actors-IsLawful_example = restate_actors-IsLawful retrying

at_rest : Store
at_rest = record { files = prepared fail_in_resume; cache = λ _. none }

run-Settled_example : Settled request at_rest (Restate.Saga.run retrying request at_rest)
unfolding at_rest
run-Settled_example = run-Settled retrying request at_rest (formed fail_in_resume)
