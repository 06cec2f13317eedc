-- ===== src/Cluster/Model.antt =====
-- The files of the mock cluster (poc/common/cluster.py). A file holds what its JSON decodes to,
-- and a file that may be missing is an option.
use flink_control_plane_poc.Prelude.{ℕ, String, Option, List}
use flink_control_plane_poc.Prelude.Dict.{Dict}
use flink_control_plane_poc.Domain.{FamilyStatus}

-- The four mutating operations, which the audit log names.
pub data Op : Type 0 where
  trigger_savepoint suspend_job resume_job patch_configmap : Op

unfoldable pub op_name : Op → String
op_name trigger_savepoint = "trigger_savepoint"
op_name suspend_job = "suspend_job"
op_name resume_job = "resume_job"
op_name patch_configmap = "patch_configmap"

pub data Outcome : Type 0 where
  ok transient permanent : Outcome

-- The `detail` dicts that the operations write.
pub data Detail : Type 0 where
  empty : Detail
  uri : String → Detail
  routing : List String → List String → Detail
  attempt_number : ℕ → Detail

pub record AuditEntry : Type 0 where
  pub seq : ℕ
  pub op : Op
  pub family : String
  pub outcome : Outcome
  pub detail : Detail

pub data ChaosMode : Type 0 where
  transient permanent lost_response : ChaosMode

pub record ChaosRule : Type 0 where
  pub mode : ChaosMode
  pub times : ℕ

pub record Savepoint : Type 0 where
  pub family : String
  pub uri : String

pub record MockCluster : Type 0 where
  pub families : Dict FamilyStatus
  pub savepoints : Dict Savepoint
  pub audit_log : Option (List AuditEntry)
  pub chaos : Option (Dict ChaosRule)
  pub chaos_hits : Option (Dict ℕ)
