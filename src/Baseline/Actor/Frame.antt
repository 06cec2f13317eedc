-- ===== src/Baseline/Actor/Frame.antt =====
-- What the actor's methods may change, and what they have done when they return.
use mathlib.Core.Logic.{if_pos, if_neg}
use flink_control_plane_poc.Prelude.{
  ℕ, zero, suc, ◌+◌, ◌-◌, String, ◌≡◌, refl, ap, ◌∙◌, ◌||◌, Bool, true, false, none, some, List,
  arith, eqb,
}
use flink_control_plane_poc.Prelude.Equality.{list_eq, string_eq}
use flink_control_plane_poc.Prelude.Dict.{lookup}
use flink_control_plane_poc.Exec.{Result, pure, ◌>>=◌, Ensures, Ensures-bind, Ensures-pure}
use flink_control_plane_poc.Domain.{
  ClusterError, transient_error, permanent_error, FamilyState, running, suspended, state_eq,
  FamilyStatus,
}
use flink_control_plane_poc.Cluster.{MockCluster, ClusterAction, read}
use flink_control_plane_poc.Cluster
use flink_control_plane_poc.Cluster.Attempt.Operations.{
  trigger_savepoint-Attempt, suspend_job-Attempt, resume_job-Attempt, patch_configmap-Attempt,
}
use flink_control_plane_poc.Cluster.Frame.{state_of, datatypes_of}
use flink_control_plane_poc.Cluster.Changes.{
  OnlyState, OnlyDatatypes, savepoint-Ensures, suspend-Ensures, resume-Ensures, patch-Ensures,
  read-Ensures, view_found,
}
use flink_control_plane_poc.Baseline.Actor.{
  after_attempt, retry_from, retryable, trigger_savepoint, pause, patch_config, enter, restore,
  restore_state, read_status, restore_datatypes,
}
use flink_control_plane_poc.Baseline.Actor

-- Retrying keeps what each attempt keeps, and returns only after an attempt that returned.
module _ {I Q : MockCluster → Type 0} (fn : ClusterAction (Unit {0}))
    (attempt_ensures : (c : MockCluster) → I c → Ensures I Q (fn c)) where
  -- One round, by how its attempt ended.
  round :
      (again : ClusterAction (Unit {0})) (last : Bool)
      → ((c : MockCluster) → last ≡ false → I c → Ensures I Q (again c))
      → {r : Result ClusterError (Unit {0}) × MockCluster} → Ensures I Q r
      → Ensures {E = ClusterError} {A = Unit {0}} I Q (after_attempt last again r)
  unfolding after_attempt
  round again true go (Ensures.returned a c i q) = Ensures.returned a c i q
  round again false go (Ensures.returned a c i q) = Ensures.returned a c i q
  round again true go (Ensures.raised (permanent_error text) c i) = Ensures.raised _ c i
  round again false go (Ensures.raised (permanent_error text) c i) = Ensures.raised _ c i
  round again true go (Ensures.raised (transient_error text) c i) = Ensures.raised _ c i
  round again false go (Ensures.raised (transient_error text) c i) = go c refl i

  retry_from-Ensures :
      (attempts attempt left : ℕ) (c : MockCluster)
      → attempt + suc left ≡ attempts
      → I c
      → Ensures I Q (retry_from attempts attempt (suc left) fn c)
  unfolding retry_from
  retry_from-Ensures attempts attempt zero c at i =
      round (retry_from attempts (attempt + 1) zero fn) (eqb attempt (attempts - 1))
        (λ c' more _. absurd (ground arith)) (attempt_ensures c i)
  retry_from-Ensures attempts attempt (suc left) c at i =
      round (retry_from attempts (attempt + 1) (suc left) fn) (eqb attempt (attempts - 1))
        (λ c' more i'. retry_from-Ensures attempts (attempt + 1) left c' (omega arith) i')
        (attempt_ensures c i)

  pub retryable-Ensures :
      (attempts : ℕ) (c : MockCluster) → I c → Ensures I Q (retryable (suc attempts) fn c)
  unfolding retryable
  retryable-Ensures attempts c i = retry_from-Ensures (suc attempts) 0 attempts c (omega arith) i

module _ (family : String) (c₀ : MockCluster) where
  trigger_savepoint-Ensures :
      (c : MockCluster)
      → OnlyState family c₀ c
      → Ensures (OnlyState family c₀) (λ _. Unit {0}) (trigger_savepoint family c)
  unfolding trigger_savepoint
  trigger_savepoint-Ensures c h =
      retryable-Ensures _
        (λ c' h'.
          Ensures-bind (Cluster.trigger_savepoint family) (λ _. pure tt) c'
            (savepoint-Ensures c₀ (trigger_savepoint-Attempt family c') h')
            (λ _ c'' i _. Ensures-pure tt c'' i tt))
        3 c h

  suspend-returns :
      (c : MockCluster)
      → OnlyState family c₀ c
      → Ensures
          (OnlyState family c₀)
          (λ c'. state_of c' family ≡ some suspended)
          (Actor.suspend family c)
  unfolding Actor.suspend
  suspend-returns c h =
      retryable-Ensures _ (λ c' h'. suspend-Ensures c₀ (suspend_job-Attempt family c') h') 3 c h

  -- A pause that returns has suspended the family, and changed nothing else.
  pub pause-Ensures :
      (c : MockCluster)
      → OnlyState family c₀ c
      → Ensures (OnlyState family c₀) (λ c'. state_of c' family ≡ some suspended) (pause family c)
  unfolding pause
  pause-Ensures c h =
      Ensures-bind (trigger_savepoint family) (λ _. Actor.suspend family) c
        (trigger_savepoint-Ensures c h) (λ _ c' i _. suspend-returns c' i)

  pub resume-returns :
      (c : MockCluster)
      → OnlyState family c₀ c
      → Ensures
          (OnlyState family c₀)
          (λ c'. state_of c' family ≡ some running)
          (Actor.resume family c)
  unfolding Actor.resume
  resume-returns c h =
      retryable-Ensures _ (λ c' h'. resume-Ensures c₀ (resume_job-Attempt family c') h') 3 c h

  pub patch_config-Ensures :
      (datatypes : List String) (c : MockCluster)
      → OnlyDatatypes family c₀ c
      → Ensures
          (OnlyDatatypes family c₀)
          (λ c'. datatypes_of c' family ≡ some datatypes)
          (patch_config family datatypes c)
  unfolding patch_config
  patch_config-Ensures datatypes c h =
      retryable-Ensures _
        (λ c' h'. patch-Ensures c₀ datatypes (patch_configmap-Attempt family datatypes c') h') 3 c h

  enter-Ensures :
      (desired : FamilyState) (c : MockCluster)
      → OnlyState family c₀ c
      → Ensures
          (OnlyState family c₀)
          (λ c'. state_of c' family ≡ some desired)
          (enter family desired c)
  unfolding enter pause
  enter-Ensures suspended = pause-Ensures
  enter-Ensures running = resume-returns

  -- A restore of the state that returns has reached it, whether it wrote or not.
  restore_state-Ensures :
      (desired : FamilyState) (status : FamilyStatus) (c : MockCluster)
      → lookup family c.families ≡ some status
      → OnlyState family c₀ c
      → Ensures
          (OnlyState family c₀)
          (λ c'. state_of c' family ≡ some desired)
          (restore_state family status (some desired) c)
  unfolding restore_state
  restore_state-Ensures desired status c found h = elim (state_eq.dec status.state desired) [
    | yes same ↦ rw (if_pos _ same) (
        Ensures.returned false c h (view_found (λ s. s.state) family status c found ∙ ap some same))
    | no other ↦ rw (if_neg _ other) (
        Ensures-bind (enter family desired) (λ _. pure true) c (enter-Ensures desired c h)
          (λ _ c' i reached. Ensures.returned true c' i reached))
  ]

  pub restore-state-Ensures :
      (desired : FamilyState) (c : MockCluster)
      → OnlyState family c₀ c
      → Ensures
          (OnlyState family c₀)
          (λ c'. state_of c' family ≡ some desired)
          (restore family (some desired) none c)
  unfolding restore read_status
  restore-state-Ensures desired c h =
      let patch = λ (status : FamilyStatus) (a : Bool). (do
        b ← restore_datatypes family status none
        pure (a || b)) in
      read-Ensures family (λ status. (restore_state family status (some desired) >>= patch status))
        c h
        (λ status found.
          Ensures-bind (restore_state family status (some desired)) (patch status) c
            (restore_state-Ensures desired status c found h)
            (λ a c' i reached. Ensures.returned _ c' i reached))

  restore_datatypes-Ensures :
      (datatypes : List String) (status : FamilyStatus) (c : MockCluster)
      → lookup family c.families ≡ some status
      → OnlyDatatypes family c₀ c
      → Ensures
          (OnlyDatatypes family c₀)
          (λ c'. datatypes_of c' family ≡ some datatypes)
          (restore_datatypes family status (some datatypes) c)
  unfolding restore_datatypes
  restore_datatypes-Ensures datatypes status c found h =
      elim ((list_eq {A = String}).dec status.datatypes datatypes) [
        | yes same ↦ rw (if_pos _ same) (
            Ensures.returned false c h
              (view_found (λ s. s.datatypes) family status c found ∙ ap some same))
        | no other ↦ rw (if_neg _ other) (
            Ensures-bind (patch_config family datatypes) (λ _. pure true) c
              (patch_config-Ensures datatypes c h)
              (λ _ c' i reached. Ensures.returned true c' i reached))
      ]

  pub restore-datatypes-Ensures :
      (datatypes : List String) (c : MockCluster)
      → OnlyDatatypes family c₀ c
      → Ensures
          (OnlyDatatypes family c₀)
          (λ c'. datatypes_of c' family ≡ some datatypes)
          (restore family none (some datatypes) c)
  unfolding restore read_status restore_state
  restore-datatypes-Ensures datatypes c h =
      let last = λ (b : Bool). pure {S = MockCluster} {E = ClusterError} (false || b) in
      read-Ensures family (λ status. (restore_datatypes family status (some datatypes) >>= last)) c
        h
        (λ status found.
          Ensures-bind (restore_datatypes family status (some datatypes)) last c
            (restore_datatypes-Ensures datatypes status c found h)
            (λ a c' i reached. Ensures.returned _ c' i reached))
