-- ===== src/Baseline/Actor.antt =====
-- poc/baseline/actor.py. An actor holds its family's name and no other state, so that one object
-- for each name (`__new__`) and an object for each call are the same.
pub mod Completion
pub mod Effort
pub mod Frame
pub mod Retry
use flink_control_plane_poc.Prelude.{
  ℕ, zero, suc, ◌+◌, ◌-◌, String, Bool, true, false, Option, none, some, List, ◌||◌, eqb,
  if◌then◌else◌,
}
use flink_control_plane_poc.Prelude.Equality.{◌==◌, string_eq, list_eq}
use flink_control_plane_poc.Exec.{Result, ok, err, pure, ◌>>=◌, ◌>>◌}
use flink_control_plane_poc.Domain.{
  ClusterError, transient_error, permanent_error, FamilyState, running, suspended, state_eq,
  FamilyStatus,
}
use flink_control_plane_poc.Cluster.{MockCluster, ClusterAction, read}
use flink_control_plane_poc.Cluster

-- What follows an attempt: `again` is the rest of the loop, which the last attempt does not enter.
pub after_attempt :
    Bool
    → ClusterAction (Unit {0})
    → Result ClusterError (Unit {0}) × MockCluster
    → Result ClusterError (Unit {0}) × MockCluster
after_attempt last again (ok value, c) = (ok value, c)
after_attempt last again (err (permanent_error text), c) = (err (permanent_error text), c)
after_attempt true again (err (transient_error text), c) = (err (transient_error text), c)
after_attempt false again (err (transient_error text), c) = again c

-- The rounds of `for attempt in range(attempts)` that are left. A loop that runs out returns None.
retry_from : ℕ → ℕ → ℕ → ClusterAction (Unit {0}) → ClusterAction (Unit {0})
unfolding after_attempt
retry_from attempts attempt zero fn = pure tt
retry_from attempts attempt (suc left) fn = λ c.
    after_attempt (eqb attempt (attempts - 1)) (retry_from attempts (attempt + 1) left fn) (fn c)

unfoldable pub retryable : ℕ → ClusterAction (Unit {0}) → ClusterAction (Unit {0})
unfolding retry_from
retryable attempts fn = retry_from attempts 0 attempts fn

unfoldable pub read_status : String → ClusterAction FamilyStatus
read_status name = read name

-- `_trigger_savepoint` drops the URI
unfoldable pub trigger_savepoint : String → ClusterAction (Unit {0})
trigger_savepoint name = retryable 4 (do Cluster.trigger_savepoint name; pure tt)

unfoldable pub suspend : String → ClusterAction (Unit {0})
suspend name = retryable 4 (Cluster.suspend_job name)

unfoldable pub pause : String → ClusterAction (Unit {0})
pause name = do trigger_savepoint name; suspend name

unfoldable pub patch_config : String → List String → ClusterAction (Unit {0})
patch_config name config = retryable 4 (Cluster.patch_configmap name config)

unfoldable pub resume : String → ClusterAction (Unit {0})
resume name = retryable 4 (Cluster.resume_job name)

-- the repair of the state
enter : String → FamilyState → ClusterAction (Unit {0})
enter name suspended = do trigger_savepoint name; suspend name
enter name running = resume name

restore_state : String → FamilyStatus → Option FamilyState → ClusterAction Bool
unfolding enter
restore_state name status none = pure false
restore_state name status (some desired) =
    if status.state == desired then pure false else (do enter name desired; pure true)

restore_datatypes : String → FamilyStatus → Option (List String) → ClusterAction Bool
restore_datatypes name status none = pure false
restore_datatypes name status (some datatypes) =
    if status.datatypes == datatypes
    then pure false
    else (do patch_config name datatypes; pure true)

-- `changed` is set by either repair
unfoldable pub restore : String → Option FamilyState → Option (List String) → ClusterAction Bool
unfolding restore_state restore_datatypes
restore name desired_state datatypes = do
  status ← read_status name
  state_changed ← restore_state name status desired_state
  datatypes_changed ← restore_datatypes name status datatypes
  pure (state_changed || datatypes_changed)
