-- ===== src/Restate/Steps.antt =====
-- poc/restate/cluster_steps.py, and the durable steps of Restate that run them. The engine is a
-- parameter, and a terminal error is its message.
use mathlib.Core.Path.{subst}
use flink_control_plane_poc.Prelude.{ℕ, String, ◌≡◌, List}
use flink_control_plane_poc.Exec.{Result, ok, err, Exec, Ensures, Ensures-inv}
use flink_control_plane_poc.Domain.{ClusterError, transient_error, permanent_error, FamilyStatus}
use flink_control_plane_poc.Cluster.{MockCluster, ClusterAction}
use flink_control_plane_poc.Cluster

-- What a step raises: a terminal error, or an error that the engine may retry.
pub data StepError : Type 0 where
  terminal : String → StepError
  retried : ClusterError → StepError

abbrev pub Step : Type 0 → Type 0
Step A = Exec MockCluster StepError A

abbrev step_error : ClusterError → StepError
step_error (permanent_error text) = terminal text
step_error (transient_error text) = retried (transient_error text)

-- `_call`
unfoldable pub call : {A : Type 0} → ClusterAction A → Step A
call operation c =
    let (r, c') = operation c in elim r [ ok a ↦ (ok a, c') | err e ↦ (err (step_error e), c') ]

unfoldable pub read_status : String → Step FamilyStatus
unfolding call
read_status family = call (Cluster.read family)

unfoldable pub trigger_savepoint : String → Step String
unfolding call
trigger_savepoint family = call (Cluster.trigger_savepoint family)

unfoldable pub suspend_job : String → Step (Unit {0})
unfolding call
suspend_job family = call (Cluster.suspend_job family)

unfoldable pub resume_job : String → Step (Unit {0})
unfolding call
resume_job family = call (Cluster.resume_job family)

unfoldable pub patch_configmap : String → List String → Step (Unit {0})
unfolding call
patch_configmap family datatypes = call (Cluster.patch_configmap family datatypes)

-- The runs of a step: each attempt starts in the cluster that the one before left; a return is
-- passed on, and after an error the engine tries again or gives up with a terminal error.
pub data Tries {A : Type 0} (fn : Step A)
    : MockCluster → Result String A × MockCluster → Type 0 where
  returned : (a : A) (c c' : MockCluster) → fn c ≡ (ok a, c') → Tries fn c (ok a, c')
  gave_up :
      (e : StepError) (text : String) (c c' : MockCluster)
      → fn c ≡ (err e, c')
      → Tries fn c (err text, c')
  again :
      (e : StepError) (c c' : MockCluster) (r : Result String A × MockCluster)
      → fn c ≡ (err e, c')
      → Tries fn c' r
      → Tries fn c r

-- `run_typed` with the number of attempts, and what its documentation says of it.
pub record Engine : Type 1 where
  pub run_typed : {A : Type 0} → ℕ → Step A → Exec MockCluster String A
  pub run_typed-Tries :
      {A : Type 0} (attempts : ℕ) (fn : Step A) (c : MockCluster)
      → Tries fn c (run_typed attempts fn c)

ended :
    {A : Type 0} {I Q : MockCluster → Type 0} {a : A} {c : MockCluster}
    → Ensures {E = StepError} I Q (ok a, c)
    → Ensures {E = String} {A = A} I Q (ok a, c)
ended (Ensures.returned a c i q) = Ensures.returned a c i q

-- What each attempt keeps, the runs keep.
pub Tries-Ensures :
    {A : Type 0} {I Q : MockCluster → Type 0} (fn : Step A)
    → ((c : MockCluster) → I c → Ensures I Q (fn c))
    → {c : MockCluster} {r : Result String A × MockCluster} → Tries fn c r
    → I c
    → Ensures I Q r
Tries-Ensures {I = I} {Q = Q} fn each (Tries.returned a c c' h) i =
    ended (subst (Ensures I Q) h (each c i))
Tries-Ensures {I = I} {Q = Q} fn each (Tries.gave_up e text c c' h) i =
    Ensures.raised text c' (Ensures-inv (subst (Ensures I Q) h (each c i)))
Tries-Ensures {I = I} {Q = Q} fn each (Tries.again e c c' r h rest) i =
    Tries-Ensures fn each rest (Ensures-inv (subst (Ensures I Q) h (each c i)))

-- A step keeps what its operation keeps.
pub call-Ensures :
    {A : Type 0} {I Q : MockCluster → Type 0} (operation : ClusterAction A) (c : MockCluster)
    → Ensures I Q (operation c)
    → Ensures I Q (call operation c)
unfolding call
call-Ensures {A} {I} {Q} operation c h = go h
  where
    go :
        {r : Result ClusterError A × MockCluster}
        → Ensures I Q r
        → Ensures {E = StepError} {A = A} I Q
            (elim r.0 [ ok a ↦ (ok a, r.1) | err e ↦ (err (step_error e), r.1) ])
    go (Ensures.returned a s i q) = Ensures.returned a s i q
    go (Ensures.raised e s i) = Ensures.raised _ s i
