-- ===== src/Baseline/Effort.antt =====
-- How many attempts a whole run of the plain saga makes at most.
use flink_control_plane_poc.Prelude.{◌+◌, ◌≤◌}
use flink_control_plane_poc.Prelude.Lists.{length}
use flink_control_plane_poc.Domain.{MoveDatatypeRequest}
use flink_control_plane_poc.Cluster.{MockCluster, audit}
use flink_control_plane_poc.Cluster.Attempt.Entries.{entries}
use flink_control_plane_poc.Saga.Effort.{IsFrugal, run-Adds}
use flink_control_plane_poc.Baseline.Actor.Effort.{
  pause-Adds, patch_config-Adds, resume-Adds, read_status-Adds, restore-Adds,
}
use flink_control_plane_poc.Baseline.Saga.{plain_actors, run}

plain_actors-IsFrugal : IsFrugal plain_actors entries
plain_actors-IsFrugal = record {
  reads = read_status-Adds;
  pauses = pause-Adds;
  patches = patch_config-Adds;
  resumes = resume-Adds;
  restores = λ _ item. restore-Adds item.family item.desired_state item.datatypes;
}

-- Whatever the fault rules are, a run of the plain saga adds at most 104 entries to the audit log.
pub run_bound :
    (request : MoveDatatypeRequest) (c : MockCluster)
    → length (audit (run request c).1) ≤ length (audit c) + 104
unfolding run
run_bound request c = run-Adds plain_actors entries plain_actors-IsFrugal request c
