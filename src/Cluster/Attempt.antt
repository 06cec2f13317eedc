-- ===== src/Cluster/Attempt.antt =====
-- What one attempt at an operation comes to: the five ways in which it can end.
mod Faults
pub mod Operations
pub mod Budget
pub mod Entries
unfoldable pub use Faults.*
use flink_control_plane_poc.Prelude.{
  ℕ, ◌+◌, ◌<◌, String, ◌≡◌, refl, Option, none, some, List, arith, ltb,
}
use flink_control_plane_poc.Prelude.Dict.{lookup}
use flink_control_plane_poc.Exec.{Result, ok, err, ◌>>=◌, bind_cases}
use flink_control_plane_poc.Domain.{
  ClusterError, transient_error, permanent_error, running, suspended, FamilyStatus,
}
use flink_control_plane_poc.Cluster.{
  MockCluster, Op, Outcome, Detail, ChaosMode, ChaosRule, find_rule, seen, record_attempt,
  count_hit, maybe_fail, maybe_lose_response, read, write, commit, savepoint_uri, write_savepoint,
  trigger_savepoint, suspend_job, resume_job, patch_configmap,
}

-- The four mutations of a family's file.
pub data Mutation : Type 0 where
  savepoint suspend resume : Mutation
  patch : List String → Mutation

abbrev pub op_of : Mutation → Op
op_of savepoint = Op.trigger_savepoint
op_of suspend = Op.suspend_job
op_of resume = Op.resume_job
op_of (patch _) = Op.patch_configmap

-- The status that is written, but for its generation.
abbrev pub update : String → Mutation → FamilyStatus → FamilyStatus
update family savepoint status = record status {
  savepoint_uri = some (savepoint_uri family (status.generation + 1));
}
update family suspend status = record status { state = suspended }
update family resume status = record status { state = running }
update family (patch datatypes) status = record status { datatypes = datatypes }

abbrev pub bump : FamilyStatus → FamilyStatus
bump status = record status { generation = status.generation + 1 }

abbrev pub detail : String → Mutation → FamilyStatus → Detail
detail family savepoint status = Detail.uri (savepoint_uri family (status.generation + 1))
detail family suspend status = Detail.empty
detail family resume status = Detail.empty
detail family (patch datatypes) status = Detail.routing status.datatypes datatypes

-- A savepoint has a file of its own, written before the family's.
abbrev pub prepare : String → Mutation → FamilyStatus → MockCluster → MockCluster
prepare family savepoint status c = write_savepoint family (status.generation + 1) c
prepare family suspend status c = c
prepare family resume status c = c
prepare family (patch datatypes) status c = c

-- The cluster after the mutation has been written and logged.
abbrev pub committed : String → Mutation → FamilyStatus → MockCluster → MockCluster
committed family m status c =
    record_attempt (op_of m) status.family Outcome.ok (detail family m status)
      (write (bump (update family m status)) (prepare family m status c))

-- The five ways in which an attempt at `m` on `family` from `c` can end.
pub data Attempt {A : Type 0} (family : String) (m : Mutation) (c : MockCluster)
    : Result ClusterError A × MockCluster → Type 0 where
  broken :
      (rule : ChaosRule) (text : String)
      → find_rule family (op_of m) c ≡ some rule
      → rule.mode ≡ ChaosMode.permanent
      → Attempt family m c (
        err (permanent_error text),
        record_attempt (op_of m) family Outcome.permanent Detail.empty c,
      )
  failed :
      (rule : ChaosRule) (text : String)
      → find_rule family (op_of m) c ≡ some rule
      → rule.mode ≡ ChaosMode.transient
      → seen family (op_of m) c < rule.times
      → Attempt family m c (
        err (transient_error text),
        record_attempt
            (op_of m)
            family
            Outcome.transient
            (Detail.attempt_number (seen family (op_of m) c + 1))
            (count_hit family (op_of m) c),
      )
  missing :
      (text : String)
      → lookup family c.families ≡ none
      → Clears family (op_of m) c
      → Attempt family m c (err (permanent_error text), c)
  lost :
      (rule : ChaosRule) (text : String) (status : FamilyStatus)
      → find_rule family (op_of m) c ≡ some rule
      → rule.mode ≡ ChaosMode.lost_response
      → seen family (op_of m) c < rule.times
      → lookup family c.families ≡ some status
      → Attempt family m c
          (err (transient_error text), count_hit family (op_of m) (committed family m status c))
  done :
      (a : A) (status : FamilyStatus)
      → lookup family c.families ≡ some status
      → Passes family (op_of m) c
      → Attempt family m c (ok a, committed family m status c)
