-- ===== src/Cluster/Attempt/Operations.antt =====
-- Each of the four operations makes an attempt at its mutation.
use mathlib.Core.Path.{subst, subst₂}
use flink_control_plane_poc.Prelude.{
  ◌+◌, String, ◌≡◌, refl, sym, ◌∙◌, ◌<◌, none, some, Option, List, ◌<>◌,
}
use flink_control_plane_poc.Prelude.Dict.{lookup}
use flink_control_plane_poc.Exec.{Result, ok, err, pure, modify, ◌>>=◌, ◌>>◌}
use flink_control_plane_poc.Domain.{ClusterError, permanent_error, running, suspended, FamilyStatus}
use flink_control_plane_poc.Cluster.{
  MockCluster, Op, find_rule, seen, record_attempt, write, write_savepoint, chaos_rules, hits,
  ClusterAction, maybe_lose_response, read, commit, Detail, savepoint_uri, trigger_savepoint,
  suspend_job, resume_job, patch_configmap,
}
use flink_control_plane_poc.Cluster.Attempt.{
  Mutation, savepoint, suspend, resume, patch, op_of, committed, Attempt, PassesRule, ClearsRule,
  Clears, BeforeWrite, AfterWrite, maybe_fail-BeforeWrite, maybe_lose_response-AfterWrite,
}

-- A mutation touches neither the rules nor the counters.
pub find_rule-committed :
    (family : String) (m : Mutation) (status : FamilyStatus) (c : MockCluster) (other : String)
    (op : Op)
    → find_rule other op (committed family m status c) ≡ find_rule other op c
unfolding find_rule chaos_rules record_attempt write write_savepoint
find_rule-committed family savepoint status c other op = refl
find_rule-committed family _ status c other op = refl

pub seen-committed :
    (family : String) (m : Mutation) (status : FamilyStatus) (c : MockCluster) (other : String)
    (op : Op)
    → seen other op (committed family m status c) ≡ seen other op c
unfolding seen hits record_attempt write write_savepoint
seen-committed family savepoint status c other op = refl
seen-committed family _ status c other op = refl

module _ (family : String) (m : Mutation) (c : MockCluster) where
  -- The answer to a write that was made.
  after_write :
      (status : FamilyStatus)
      → lookup family c.families ≡ some status
      → Clears family (op_of m) c
      → {r : Result ClusterError (Unit {0}) × MockCluster}
      → AfterWrite family (op_of m) (committed family m status c) r
      → Attempt family m c r
  after_write status found clears (AfterWrite.lost rule text has mode more) =
      Attempt.lost rule text status
        (sym (find_rule-committed family m status c family (op_of m)) ∙ has) mode
        (subst (λ n. n < rule.times) (seen-committed family m status c family (op_of m)) more) found
  after_write status found clears (AfterWrite.answered passes) = Attempt.done tt status found (
      subst₂ PassesRule (find_rule-committed family m status c family (op_of m))
        (seen-committed family m status c family (op_of m))
        (passes (
          subst₂ ClearsRule (sym (find_rule-committed family m status c family (op_of m)))
            (sym (seen-committed family m status c family (op_of m))) clears)))

  -- A returned value put in the place of another.
  pub with_value :
      {A B : Type 0} (b : B) {r : Result ClusterError A × MockCluster}
      → Attempt family m c r
      → Attempt {A = B} family m c (elim r.0 [ ok _ ↦ (ok b, r.1) | err e ↦ (err e, r.1) ])
  with_value b (Attempt.broken rule text found mode) = Attempt.broken rule text found mode
  with_value b (Attempt.failed rule text found mode more) = Attempt.failed rule text found mode more
  with_value b (Attempt.missing text unknown clears) = Attempt.missing text unknown clears
  with_value b (Attempt.lost rule text status has mode more found) =
      Attempt.lost rule text status has mode more found
  with_value b (Attempt.done a status found passes) = Attempt.done b status found passes

  -- The part of an operation behind its `_maybe_fail`, and the whole of it.
  before_write :
      {A : Type 0} (rest : ClusterAction A)
      → (Clears family (op_of m) c → Attempt {A = A} family m c (rest c))
      → {r : Result ClusterError (Unit {0}) × MockCluster} → BeforeWrite family (op_of m) c r
      → Attempt {A = A} family m c (elim r.0 [ ok _ ↦ rest r.1 | err e ↦ (err e, r.1) ])
  before_write rest go (BeforeWrite.broken rule text found mode) =
      Attempt.broken rule text found mode
  before_write rest go (BeforeWrite.failed rule text found mode more) =
      Attempt.failed rule text found mode more
  before_write rest go (BeforeWrite.clear clears) = go clears

  -- The read, and what follows it where the family is known.
  on_status :
      {A : Type 0} (rest : FamilyStatus → ClusterAction A)
      → Clears family (op_of m) c
      → ((status : FamilyStatus)
          → lookup family c.families ≡ some status
          → Attempt {A = A} family m c (rest status c))
      → Attempt {A = A} family m c ((read family >>= rest) c)
  unfolding read
  on_status {A} rest clears known = go (lookup family c.families) refl
    where
      go :
          (found : Option FamilyStatus)
          → lookup family c.families ≡ found
          → Attempt {A = A} family m c (
              let r : Result ClusterError FamilyStatus × MockCluster = elim found [
                | none ↦ (err (permanent_error ("unknown job family: " <> family)), c)
                | some status ↦ (ok status, c)
              ] in
              elim r.0 [ ok status ↦ rest status r.1 | err e ↦ (err e, r.1) ])
      go none h = Attempt.missing _ h clears
      go (some status) h = known status h

pub suspend_job-Attempt :
    (family : String) (c : MockCluster) → Attempt family suspend c (suspend_job family c)
unfolding suspend_job
suspend_job-Attempt family c =
    let rest = λ (status : FamilyStatus). (do
      commit (record status { state = suspended }) Op.suspend_job Detail.empty
      maybe_lose_response family Op.suspend_job) in
    before_write family suspend c (read family >>= rest)
      (λ clears. on_status family suspend c rest clears (λ status found.
        after_write family suspend c status found clears (
          maybe_lose_response-AfterWrite family Op.suspend_job
            (committed family suspend status c))))
      (maybe_fail-BeforeWrite family Op.suspend_job c)

pub resume_job-Attempt :
    (family : String) (c : MockCluster) → Attempt family resume c (resume_job family c)
unfolding resume_job
resume_job-Attempt family c =
    let rest = λ (status : FamilyStatus). (do
      commit (record status { state = running }) Op.resume_job Detail.empty
      maybe_lose_response family Op.resume_job) in
    before_write family resume c (read family >>= rest)
      (λ clears. on_status family resume c rest clears (λ status found.
        after_write family resume c status found clears
          (maybe_lose_response-AfterWrite family Op.resume_job (committed family resume status c))))
      (maybe_fail-BeforeWrite family Op.resume_job c)

pub patch_configmap-Attempt :
    (family : String) (datatypes : List String) (c : MockCluster)
    → Attempt family (patch datatypes) c (patch_configmap family datatypes c)
unfolding patch_configmap
patch_configmap-Attempt family datatypes c =
    let rest = λ (status : FamilyStatus). (do
      commit (record status { datatypes = datatypes }) Op.patch_configmap
          (Detail.routing status.datatypes datatypes)
      maybe_lose_response family Op.patch_configmap) in
    before_write family (patch datatypes) c (read family >>= rest)
      (λ clears. on_status family (patch datatypes) c rest clears (λ status found.
        after_write family (patch datatypes) c status found clears (
          maybe_lose_response-AfterWrite family Op.patch_configmap
            (committed family (patch datatypes) status c))))
      (maybe_fail-BeforeWrite family Op.patch_configmap c)

pub trigger_savepoint-Attempt :
    (family : String) (c : MockCluster) → Attempt family savepoint c (trigger_savepoint family c)
unfolding trigger_savepoint
trigger_savepoint-Attempt family c =
    let rest = λ (status : FamilyStatus). (do
      modify (write_savepoint family (status.generation + 1))
      commit (record status { savepoint_uri = some (savepoint_uri family (status.generation + 1)) })
          Op.trigger_savepoint (Detail.uri (savepoint_uri family (status.generation + 1)))
      maybe_lose_response family Op.trigger_savepoint
      pure (savepoint_uri family (status.generation + 1))) in
    before_write family savepoint c (read family >>= rest)
      (λ clears. on_status family savepoint c rest clears (λ status found.
        with_value family savepoint c (savepoint_uri family (status.generation + 1)) (
          after_write family savepoint c status found clears (
            maybe_lose_response-AfterWrite family Op.trigger_savepoint
              (committed family savepoint status c)))))
      (maybe_fail-BeforeWrite family Op.trigger_savepoint c)
