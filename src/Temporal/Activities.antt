-- ===== src/Temporal/Activities.antt =====
-- poc/temporal/activities.py, and the exceptions that leave an activity.
use flink_control_plane_poc.Prelude.{String, false, List}
use flink_control_plane_poc.Exec.{ok, err}
use flink_control_plane_poc.Domain.{ClusterError, transient_error, permanent_error, FamilyStatus}
use flink_control_plane_poc.Cluster.{MockCluster, ClusterAction}
use flink_control_plane_poc.Cluster
use flink_control_plane_poc.Temporal.Engine.{ActivityError, Activity}

-- the name of the exception's class, by which a policy picks the errors that it does not retry
abbrev pub raised : ClusterError → ActivityError
raised (transient_error text) = record {
  type = "TransientClusterError";
  text = text;
  non_retryable = false;
}
raised (permanent_error text) = record {
  type = "PermanentClusterError";
  text = text;
  non_retryable = false;
}

unfoldable pub on_cluster : {A : Type 0} → ClusterAction A → Activity MockCluster A
on_cluster operation c =
    let (r, c') = operation c in elim r [ ok a ↦ (ok a, c') | err e ↦ (err (raised e), c') ]

unfoldable pub read_status : String → Activity MockCluster FamilyStatus
unfolding on_cluster
read_status family = on_cluster (Cluster.read family)

unfoldable pub trigger_savepoint : String → Activity MockCluster String
unfolding on_cluster
trigger_savepoint family = on_cluster (Cluster.trigger_savepoint family)

unfoldable pub suspend_job : String → Activity MockCluster (Unit {0})
unfolding on_cluster
suspend_job family = on_cluster (Cluster.suspend_job family)

unfoldable pub resume_job : String → Activity MockCluster (Unit {0})
unfolding on_cluster
resume_job family = on_cluster (Cluster.resume_job family)

unfoldable pub patch_configmap : String → List String → Activity MockCluster (Unit {0})
unfolding on_cluster
patch_configmap family datatypes = on_cluster (Cluster.patch_configmap family datatypes)
