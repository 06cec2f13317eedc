-- ===== src/Cluster/Attempt/Entries.antt =====
-- An attempt adds at most one entry to the audit log.
use flink_control_plane_poc.Prelude.{ℕ, ◌+◌, String, ap, arith}
use flink_control_plane_poc.Prelude.Lists.{length}
use flink_control_plane_poc.Exec.{Result}
use flink_control_plane_poc.Exec.Cost.{Adds}
use flink_control_plane_poc.Domain.{ClusterError}
use flink_control_plane_poc.Cluster.{MockCluster, audit, Outcome, Detail, count_hit, seen}
use flink_control_plane_poc.Cluster.Attempt.{Mutation, op_of, committed, Attempt}
use flink_control_plane_poc.Cluster.Attempt.Budget.{
  length-record_attempt, length-committed, audit-count_hit,
}

abbrev pub entries : MockCluster → ℕ
entries c = length (audit c)

pub Attempt-Adds :
    {A : Type 0} {family : String} {m : Mutation} {c : MockCluster}
    {r : Result ClusterError A × MockCluster}
    → Attempt family m c r
    → Adds entries 1 c r
Attempt-Adds {family = family} {m = m} {c = c} (Attempt.broken rule text found mode) =
    omega (arith, length-record_attempt family (op_of m) c Outcome.permanent Detail.empty)
Attempt-Adds {family = family} {m = m} {c = c} (Attempt.failed rule text found mode more) = omega (
  arith,
  length-record_attempt family (op_of m) (count_hit family (op_of m) c) Outcome.transient
      (Detail.attempt_number (seen family (op_of m) c + 1)),
  ap length (audit-count_hit family (op_of m) c),
)
Attempt-Adds {family = family} {m = m} {c = c} (Attempt.missing text unknown clears) = omega arith
Attempt-Adds {family = family} {m = m} {c = c} (Attempt.lost rule text status has mode more found) =
    omega (
      arith,
      length-committed family m status c,
      ap length (audit-count_hit family (op_of m) (committed family m status c)),
    )
Attempt-Adds {family = family} {m = m} {c = c} (Attempt.done a status found passes) =
    omega (arith, length-committed family m status c)
