-- ===== src/Cluster.antt =====
-- `MockCluster` of poc/common/cluster.py: a method is an action over the cluster's files that may
-- raise a `ClusterError`.
mod Model
pub mod Attempt
pub mod Frame
pub mod WellFormed
pub mod Changes
pub mod Contract
unfoldable pub use Model.*
use flink_control_plane_poc.Prelude.{
  ℕ, ◌+◌, String, ◌<>◌, Bool, Option, none, some, List, [], ◌∷◌, ◌++◌, ltb, if◌then◌else◌, decimal,
  pad4,
}
use flink_control_plane_poc.Prelude.Dict.{Dict, lookup, lookup_or, insert}
use flink_control_plane_poc.Prelude.Lists.{length}
use flink_control_plane_poc.Exec.{Exec, pure, raise, modify, ◌>>=◌, ◌>>◌}
use flink_control_plane_poc.Domain.{
  ClusterError, transient_error, permanent_error, FamilyState, running, suspended, FamilyStatus,
}

abbrev pub ClusterAction : Type 0 → Type 0
ClusterAction A = Exec MockCluster ClusterError A

-- `chaos.json` and `chaos_hits.json`, where a missing file reads as `{}`
unfoldable pub chaos_rules : MockCluster → Dict ChaosRule
chaos_rules c = elim c.chaos [ none ↦ [] | some rules ↦ rules ]

unfoldable pub hits : MockCluster → Dict ℕ
hits c = elim c.chaos_hits [ none ↦ [] | some counts ↦ counts ]

-- the lines of `audit.jsonl`, `[]` where the file is missing
unfoldable pub audit : MockCluster → List AuditEntry
audit c = elim c.audit_log [ none ↦ [] | some entries ↦ entries ]

-- `audit(successful_only=True)`
unfoldable pub successful : List AuditEntry → List AuditEntry
successful [] = []
successful (e ∷ es) =
    let rest = successful es in elim e.outcome [ Outcome.ok ↦ e ∷ rest | _ ↦ rest ]

-- `AuditEntry.__str__`
unfoldable pub entry_text : AuditEntry → String
unfolding op_name
entry_text e = op_name e.op <> "(" <> e.family <> ")" <> elim e.outcome [
  | Outcome.ok ↦ ""
  | Outcome.transient ↦ " [transient]"
  | Outcome.permanent ↦ " [permanent]"
]

unfoldable pub next_seq : MockCluster → ℕ
unfolding audit
next_seq c = length (audit c)

-- `f"{family}:{op}"`
unfoldable pub rule_key : String → Op → String
unfolding op_name
rule_key family op = family <> ":" <> op_name op

unfoldable pub find_rule : String → Op → MockCluster → Option ChaosRule
find_rule family op c = lookup (rule_key family op) (chaos_rules c)

unfoldable pub seen : String → Op → MockCluster → ℕ
seen family op c = lookup_or 0 (rule_key family op) (hits c)

-- `_record`
unfoldable pub record_attempt : Op → String → Outcome → Detail → MockCluster → MockCluster
unfolding next_seq audit
record_attempt op family outcome detail c = record c {
  audit_log = some (
      audit c
      ++ record { seq = next_seq c; op = op; family = family; outcome = outcome; detail = detail }
        ∷ []);
}

-- `hits[key] = seen + 1`, written back to the file
unfoldable pub count_hit : String → Op → MockCluster → MockCluster
unfolding hits seen
count_hit family op c = record c {
  chaos_hits = some (insert (rule_key family op) (seen family op c + 1) (hits c));
}

attempt_text : ℕ → ℕ → String
attempt_text attempt times = "(attempt " <> decimal attempt <> "/" <> decimal times <> ")"

-- the three modes of a rule, as `_maybe_fail` reads them
fail_by : String → Op → ChaosMode → ℕ → ClusterAction (Unit {0})
unfolding attempt_text count_hit record_attempt seen
fail_by family op ChaosMode.lost_response times c = pure tt c
fail_by family op ChaosMode.permanent times c =
    (raise (permanent_error (op_name op <> " on " <> family <> " is permanently broken")))
      (record_attempt op family Outcome.permanent Detail.empty c)
fail_by family op ChaosMode.transient times c =
    let tries = seen family op c in
    if ltb tries times
    then raise
        (transient_error (
          op_name op
          <> " on "
          <> family
          <> " failed transiently "
          <> attempt_text (tries + 1) times))
        (record_attempt op family Outcome.transient (Detail.attempt_number (tries + 1))
          (count_hit family op c))
    else pure tt c

-- `_maybe_fail`
unfoldable pub maybe_fail : String → Op → ClusterAction (Unit {0})
unfolding fail_by find_rule
maybe_fail family op c = elim (find_rule family op c) [
  | none ↦ pure tt c
  | some rule ↦ fail_by family op rule.mode rule.times c
]

lose_by : String → Op → ChaosMode → ℕ → ClusterAction (Unit {0})
unfolding attempt_text count_hit seen
lose_by family op ChaosMode.lost_response times c =
    let tries = seen family op c in
    if ltb tries times
    then raise
        (transient_error (
          "response from "
          <> op_name op
          <> " on "
          <> family
          <> " was lost after commit "
          <> attempt_text (tries + 1) times))
        (count_hit family op c)
    else pure tt c
lose_by family op _ times c = pure tt c

-- `_maybe_lose_response`
unfoldable pub maybe_lose_response : String → Op → ClusterAction (Unit {0})
unfolding lose_by find_rule
maybe_lose_response family op c = elim (find_rule family op c) [
  | none ↦ pure tt c
  | some rule ↦ lose_by family op rule.mode rule.times c
]

-- `_write`: the file is named after the status
unfoldable pub write : FamilyStatus → MockCluster → MockCluster
write status c = record c { families = insert status.family status c.families }

-- `_commit`
unfoldable pub commit : FamilyStatus → Op → Detail → ClusterAction (Unit {0})
unfolding write record_attempt
commit status op detail = modify (λ c.
    record_attempt op status.family Outcome.ok detail
      (write (record status { generation = status.generation + 1 }) c))

unfoldable pub read : String → ClusterAction FamilyStatus
read family c = elim (lookup family c.families) [
  | none ↦ raise (permanent_error ("unknown job family: " <> family)) c
  | some status ↦ pure status c
]

unfoldable pub savepoint_uri : String → ℕ → String
savepoint_uri family number = "s3://savepoints/" <> family <> "/sp-" <> pad4 number

-- the name of the savepoint's file, without `.json`
unfoldable pub savepoint_name : String → ℕ → String
savepoint_name family number = family <> "-" <> pad4 number

unfoldable pub write_savepoint : String → ℕ → MockCluster → MockCluster
unfolding savepoint_uri savepoint_name
write_savepoint family number c = record c {
  savepoints =
      insert (savepoint_name family number)
        (record { family = family; uri = savepoint_uri family number }) c.savepoints;
}

unfoldable pub trigger_savepoint : String → ClusterAction String
unfolding write_savepoint commit read
trigger_savepoint family = do
  maybe_fail family Op.trigger_savepoint
  status ← read family
  let uri = savepoint_uri family (status.generation + 1)
  modify (write_savepoint family (status.generation + 1))
  commit (record status { savepoint_uri = some uri }) Op.trigger_savepoint (Detail.uri uri)
  maybe_lose_response family Op.trigger_savepoint
  pure uri

unfoldable pub suspend_job : String → ClusterAction (Unit {0})
unfolding commit read
suspend_job family = do
  maybe_fail family Op.suspend_job
  status ← read family
  commit (record status { state = suspended }) Op.suspend_job Detail.empty
  maybe_lose_response family Op.suspend_job

unfoldable pub resume_job : String → ClusterAction (Unit {0})
unfolding commit read
resume_job family = do
  maybe_fail family Op.resume_job
  status ← read family
  commit (record status { state = running }) Op.resume_job Detail.empty
  maybe_lose_response family Op.resume_job

unfoldable pub patch_configmap : String → List String → ClusterAction (Unit {0})
unfolding commit read
patch_configmap family datatypes = do
  maybe_fail family Op.patch_configmap
  status ← read family
  commit (record status { datatypes = datatypes }) Op.patch_configmap
      (Detail.routing status.datatypes datatypes)
  maybe_lose_response family Op.patch_configmap

-- `snapshot`: the dict from a family to its state and datatypes, by key
unfoldable pub snapshot : MockCluster → String → Option (FamilyState × List String)
snapshot c family = elim (lookup family c.families) [
  | none ↦ none
  | some status ↦ some (status.state, status.datatypes)
]

write_all : Dict (List String) → MockCluster → MockCluster
unfolding write
write_all [] c = c
write_all ((name, datatypes) ∷ rest) c = write_all rest (
    write
      (record {
        family = name;
        state = running;
        datatypes = datatypes;
        generation = 0;
        savepoint_uri = none;
      })
      c)

unfoldable pub seed : Dict (List String) → MockCluster → MockCluster
unfolding write_all
seed families c = write_all families (record c {
  audit_log = some [];
  chaos_hits = some [];
  chaos = elim c.chaos [ none ↦ some [] | some rules ↦ some rules ];
})

unfoldable pub set_chaos : Dict ChaosRule → MockCluster → MockCluster
set_chaos rules c = record c { chaos = some rules; chaos_hits = some [] }

-- a directory with no files
abbrev pub blank : MockCluster
blank = record { families = []; savepoints = []; audit_log = none; chaos = none; chaos_hits = none }
