-- ===== src/Cluster/Contract.antt =====
-- The four operations together: how they end, what they keep, and what they log.
use flink_control_plane_poc.Prelude.{◌≤◌, String, ◌≡◌, refl, sym, ◌≢◌, List, [], ◌++◌, arith}
use mathlib.Core.List.{append-nil}
use flink_control_plane_poc.Prelude.Dict.{lookup}
use flink_control_plane_poc.Prelude.Lists.{length}
use flink_control_plane_poc.Exec.{Result}
use flink_control_plane_poc.Domain.{ClusterError, FamilyStatus}
use flink_control_plane_poc.Cluster.{
  MockCluster, AuditEntry, audit, count_hit, record_attempt, write, write_savepoint,
  trigger_savepoint, suspend_job, resume_job, patch_configmap,
}
use flink_control_plane_poc.Cluster.Attempt.{
  Mutation, savepoint, suspend, resume, patch, committed, Attempt,
}
use flink_control_plane_poc.Cluster.Attempt.Operations.{
  trigger_savepoint-Attempt, suspend_job-Attempt, resume_job-Attempt, patch_configmap-Attempt,
}
use flink_control_plane_poc.Cluster.Frame.{IsNamed, lookup-Attempt_ne}
use flink_control_plane_poc.Cluster.WellFormed.{IsWellFormed, Attempt-IsWellFormed}

-- A statement of each of the four operations on a family.
abbrev pub EachOperation :
    ((A : Type 0) → Mutation → Result ClusterError A × MockCluster → Type 0)
    → String
    → List String
    → MockCluster
    → Type 0
EachOperation P family datatypes c =
    P String savepoint (trigger_savepoint family c)
    × P (Unit {0}) suspend (suspend_job family c)
    × P (Unit {0}) resume (resume_job family c)
    × P (Unit {0}) (patch datatypes) (patch_configmap family datatypes c)

each :
    (P : (A : Type 0) → Mutation → Result ClusterError A × MockCluster → Type 0) (family : String)
    (datatypes : List String) (c : MockCluster)
    → ((A : Type 0) (m : Mutation) (r : Result ClusterError A × MockCluster)
        → Attempt family m c r
        → P A m r)
    → EachOperation P family datatypes c
each P family datatypes c holds = (
  holds String savepoint _ (trigger_savepoint-Attempt family c),
  holds Unit suspend _ (suspend_job-Attempt family c),
  holds Unit resume _ (resume_job-Attempt family c),
  holds Unit (patch datatypes) _ (patch_configmap-Attempt family datatypes c),
)

-- Each operation ends in one of five ways: a permanent fault, logged and with no write; a transient
-- fault, counted, logged and with no write; an unknown family, with nothing changed; the write,
-- logged, whose response is lost and counted; or the write, logged, and a return.
pub operations-Attempt :
    (family : String) (datatypes : List String) (c : MockCluster)
    → EachOperation (λ A m r. Attempt {A = A} family m c r) family datatypes c
operations-Attempt family datatypes c = each _ family datatypes c (λ A m r attempt. attempt)

-- Each operation keeps the invariant of the files, whether it returns or raises.
pub operations-IsWellFormed :
    (family : String) (datatypes : List String) (c : MockCluster)
    → IsWellFormed c
    → EachOperation (λ A m r. IsWellFormed r.1) family datatypes c
operations-IsWellFormed family datatypes c h =
    each _ family datatypes c (λ A m r attempt. Attempt-IsWellFormed h attempt)

abbrev pub Appends : MockCluster → MockCluster → Type 0
Appends c c' = (new : List AuditEntry) × (audit c' ≡ audit c ++ new) × (length new ≤ 1)

audit-committed :
    (family : String) (m : Mutation) (status : FamilyStatus) (c : MockCluster)
    → Appends c (committed family m status c)
unfolding record_attempt write write_savepoint audit
audit-committed family savepoint status c = (_, refl, omega arith)
audit-committed family _ status c = (_, refl, omega arith)

Attempt-Appends :
    {A : Type 0} {family : String} {m : Mutation} {c : MockCluster}
    {r : Result ClusterError A × MockCluster}
    → Attempt family m c r
    → Appends c r.1
unfolding record_attempt count_hit audit
Attempt-Appends (Attempt.broken rule text found mode) = (_, refl, omega arith)
Attempt-Appends (Attempt.failed rule text found mode more) = (_, refl, omega arith)
Attempt-Appends {c = c} (Attempt.missing text unknown clears) =
    ([], sym (append-nil (audit c)), omega arith)
Attempt-Appends {family = family} {m = m} {c = c}
      (Attempt.lost rule text status has mode more found) =
    audit-committed family m status c
Attempt-Appends {family = family} {m = m} {c = c} (Attempt.done a status found passes) =
    audit-committed family m status c

abbrev pub Local :
    String → MockCluster → (A : Type 0) → Mutation → Result ClusterError A × MockCluster → Type 0
Local family c A m r =
    Appends c r.1
    × ((other : String) → other ≢ family → lookup other r.1.families ≡ lookup other c.families)

-- Each operation only appends to the audit log, at most one entry, and leaves the file of every
-- other family as it was.
pub operations-frame :
    (family : String) (datatypes : List String) (c : MockCluster)
    → IsNamed c
    → EachOperation (Local family c) family datatypes c
operations-frame family datatypes c named =
    each (Local family c) family datatypes c (λ A m r attempt.
      (Attempt-Appends attempt, λ other ne. lookup-Attempt_ne other named ne attempt))
