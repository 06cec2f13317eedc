-- ===== src/Baseline/Actor/Effort.antt =====
-- How many attempts a command of a plain actor makes at most: each adds at most one audit entry.
use flink_control_plane_poc.Prelude.{
  ℕ, zero, suc, ◌+◌, ◌-◌, String, Bool, true, false, Option, none, some, List, arith, eqb, ◌||◌,
}
use flink_control_plane_poc.Exec.{Result, ok, err, ◌>>=◌, ◌>>◌, pure}
use flink_control_plane_poc.Exec.Cost.{Adds, Adds-bind}
use flink_control_plane_poc.Domain.{
  ClusterError, transient_error, permanent_error, FamilyState, running, suspended, FamilyStatus,
  state_eq,
}
use flink_control_plane_poc.Cluster.{
  MockCluster, ClusterAction, audit, Outcome, Detail, count_hit, read,
}
use flink_control_plane_poc.Cluster
use flink_control_plane_poc.Cluster.Attempt.{savepoint}
use flink_control_plane_poc.Cluster.Attempt.Operations.{
  with_value, trigger_savepoint-Attempt, suspend_job-Attempt, resume_job-Attempt,
  patch_configmap-Attempt,
}
use flink_control_plane_poc.Cluster.Attempt.Entries.{entries, Attempt-Adds}
use flink_control_plane_poc.Baseline.Actor.{
  after_attempt, retry_from, retryable, read_status, trigger_savepoint, pause, patch_config, enter,
  restore, restore_state, restore_datatypes,
}
use flink_control_plane_poc.Baseline.Actor

module _ (fn : ClusterAction (Unit {0})) (adds : (c : MockCluster) → Adds entries 1 c (fn c)) where
  retry_from-Adds :
      (attempts attempt left : ℕ) (c : MockCluster)
      → Adds entries left c (retry_from attempts attempt left fn c)
  unfolding retry_from after_attempt
  retry_from-Adds attempts attempt zero c = omega arith
  retry_from-Adds attempts attempt (suc left) c =
      go (λ t. retry_from-Adds attempts (attempt + 1) left t) (eqb attempt (attempts - 1)) (fn c)
        (adds c)
    where
      go :
          ((t : MockCluster) → Adds entries left t (retry_from attempts (attempt + 1) left fn t))
          → (last : Bool) (r : Result ClusterError (Unit {0}) × MockCluster) → Adds entries 1 c r
          → Adds entries
              (suc left)
              c
              (after_attempt last (retry_from attempts (attempt + 1) left fn) r)
      go later true (ok value, t) h = omega (arith, h)
      go later false (ok value, t) h = omega (arith, h)
      go later true (err (permanent_error text), t) h = omega (arith, h)
      go later false (err (permanent_error text), t) h = omega (arith, h)
      go later true (err (transient_error text), t) h = omega (arith, h)
      go later false (err (transient_error text), t) h = omega (arith, h, later t)

  -- `retryable` makes no more attempts than it is told to.
  pub retryable-Adds :
      (attempts : ℕ) (c : MockCluster) → Adds entries attempts c (retryable attempts fn c)
  unfolding retryable
  retryable-Adds attempts c = retry_from-Adds attempts 0 attempts c

module _ (family : String) where
  trigger_savepoint-Adds : (c : MockCluster) → Adds entries 4 c (trigger_savepoint family c)
  unfolding trigger_savepoint
  trigger_savepoint-Adds =
      retryable-Adds (do Cluster.trigger_savepoint family; pure tt)
        (λ c. Attempt-Adds (with_value family savepoint c tt (trigger_savepoint-Attempt family c)))
        4

  suspend-Adds : (c : MockCluster) → Adds entries 4 c (Actor.suspend family c)
  unfolding Actor.suspend
  suspend-Adds =
      retryable-Adds (Cluster.suspend_job family) (λ c. Attempt-Adds (suspend_job-Attempt family c))
        4

  pub pause-Adds : (c : MockCluster) → Adds entries 8 c (pause family c)
  unfolding pause
  pause-Adds c =
      Adds-bind entries 4 4 (trigger_savepoint family) (λ _. Actor.suspend family) c
        (trigger_savepoint-Adds c) (λ _ t. suspend-Adds t)

  pub patch_config-Adds :
      (datatypes : List String) (c : MockCluster)
      → Adds entries 4 c (patch_config family datatypes c)
  unfolding patch_config
  patch_config-Adds datatypes =
      retryable-Adds (Cluster.patch_configmap family datatypes)
        (λ c. Attempt-Adds (patch_configmap-Attempt family datatypes c)) 4

  pub resume-Adds : (c : MockCluster) → Adds entries 4 c (Actor.resume family c)
  unfolding Actor.resume
  resume-Adds =
      retryable-Adds (Cluster.resume_job family) (λ c. Attempt-Adds (resume_job-Attempt family c)) 4

  pub read_status-Adds : (c : MockCluster) → Adds entries 0 c (read_status family c)
  unfolding read_status read
  read_status-Adds c = ground arith

  enter-Adds : (state : FamilyState) (c : MockCluster) → Adds entries 8 c (enter family state c)
  unfolding enter
  enter-Adds suspended c =
      Adds-bind entries 4 4 (trigger_savepoint family) (λ _. Actor.suspend family) c
        (trigger_savepoint-Adds c) (λ _ t. suspend-Adds t)
  enter-Adds running c = omega (arith, resume-Adds c)

  restore_state-Adds :
      (status : FamilyStatus) (desired : Option FamilyState) (c : MockCluster)
      → Adds entries 8 c (restore_state family status desired c)
  unfolding restore_state
  restore_state-Adds status none c = omega arith
  restore_state-Adds status (some desired) c = ground (
    arith,
    Adds-bind entries 8 0 (enter family desired) (λ _. pure true) c (enter-Adds desired c)
        (λ _ t. omega arith),
  )

  restore_datatypes-Adds :
      (status : FamilyStatus) (datatypes : Option (List String)) (c : MockCluster)
      → Adds entries 4 c (restore_datatypes family status datatypes c)
  unfolding restore_datatypes
  restore_datatypes-Adds status none c = omega arith
  restore_datatypes-Adds status (some datatypes) c = ground (
    arith,
    Adds-bind entries 4 0 (patch_config family datatypes) (λ _. pure true) c
        (patch_config-Adds datatypes c) (λ _ t. omega arith),
  )

  pub restore-Adds :
      (desired : Option FamilyState) (datatypes : Option (List String)) (c : MockCluster)
      → Adds entries 12 c (restore family desired datatypes c)
  unfolding restore
  restore-Adds desired datatypes c =
      let last = λ (status : FamilyStatus) (first : Bool). (do
        second ← restore_datatypes family status datatypes
        pure (first || second)) in
      let rest = λ (status : FamilyStatus). restore_state family status desired >>= last status in
      Adds-bind entries 0 12 (read_status family) rest c (read_status-Adds c) (λ status t.
        Adds-bind entries 8 4 (restore_state family status desired) (last status) t
          (restore_state-Adds status desired t)
          (λ first u.
            Adds-bind entries 4 0 (restore_datatypes family status datatypes)
              (λ second. pure (first || second)) u (restore_datatypes-Adds status datatypes u)
              (λ _ v. omega arith)))
