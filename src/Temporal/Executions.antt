-- ===== src/Temporal/Executions.antt =====
-- What the attempts at an activity keep, and the activities that only read.
use mathlib.Core.Path.{subst}
use flink_control_plane_poc.Prelude.{
  ℕ, String, ◌≡◌, refl, sym, none, some, false, ap, ◌∙◌, [], arith,
}
use flink_control_plane_poc.Prelude.Equality.{string_eq, contains}
use flink_control_plane_poc.Prelude.Dict.{lookup}
use flink_control_plane_poc.Exec.{Result, ok, err, Ensures, Ensures-inv}
use flink_control_plane_poc.Domain.{ClusterError, FamilyStatus}
use flink_control_plane_poc.Cluster.{MockCluster, ClusterAction}
use flink_control_plane_poc.Cluster
use flink_control_plane_poc.Temporal.Engine.{
  ActivityError, Activity, RetryPolicy, Attempts, Failure, endless, Service,
}
use flink_control_plane_poc.Temporal.Activities.{on_cluster, raised}
use flink_control_plane_poc.Temporal.Activities

module _ {S A : Type 0} {I Q : S → Type 0} (policy : RetryPolicy) (fn : Activity S A)
    (each : (s : S) → I s → Ensures I Q (fn s)) where
  answered :
      {a : A} {t : S}
      → Ensures {E = ActivityError} I Q (ok a, t)
      → Ensures {E = Failure} {A = A} I Q (ok a, t)
  answered (Ensures.returned a t i q) = Ensures.returned a t i q

  kept : {r : Result ActivityError A} {s t : S} → I s → fn s ≡ (r, t) → I t
  kept {s = s} i h = Ensures-inv (subst (Ensures I Q) h (each s i))

  attempts-Ensures :
      {n : ℕ} {s : S} {r : Result Failure A × S} → Attempts policy fn n s r → I s → Ensures I Q r
  attempts-Ensures (Attempts.returned a s t h) i = answered (subst (Ensures I Q) h (each s i))
  attempts-Ensures (Attempts.gave_up e s t h why) i = Ensures.raised _ t (kept i h)
  attempts-Ensures (Attempts.unanswered x text s t h limited) i = Ensures.raised _ t (kept i h)
  attempts-Ensures (Attempts.unstarted text s limited) i = Ensures.raised _ s i
  attempts-Ensures (Attempts.going_on e s t h more unlimited) i = Ensures.raised _ t (kept i h)
  attempts-Ensures (Attempts.again e n s t r h more rest) i = attempts-Ensures rest (kept i h)
  attempts-Ensures (Attempts.lost x n s t r h rest) i = attempts-Ensures rest (kept i h)
  attempts-Ensures (Attempts.missed n s r rest) i = attempts-Ensures rest i

  -- An activity keeps what each attempt keeps.
  pub execute_activity-Ensures :
      (service : Service) (s : S) → I s → Ensures I Q (service.execute_activity policy fn s)
  execute_activity-Ensures service s i =
      let run = service.execute_activity-Executed policy fn s in attempts-Ensures run.attempts i

-- An activity keeps what its operation keeps.
pub on_cluster-Ensures :
    {A : Type 0} {I Q : MockCluster → Type 0} (operation : ClusterAction A) (c : MockCluster)
    → Ensures I Q (operation c)
    → Ensures I Q (on_cluster operation c)
unfolding on_cluster
on_cluster-Ensures {A} {I} {Q} operation c h = go h
  where
    go :
        {r : Result ClusterError A × MockCluster}
        → Ensures I Q r
        → Ensures {E = ActivityError} {A = A} I Q
            (elim r.0 [ ok a ↦ (ok a, r.1) | err e ↦ (err (raised e), r.1) ])
    go (Ensures.returned a s i q) = Ensures.returned a s i q
    go (Ensures.raised e s i) = Ensures.raised _ s i

read-cases :
    (family : String) (c : MockCluster) (r : Result ActivityError FamilyStatus × MockCluster)
    → Activities.read_status family c ≡ r
    → (r.1 ≡ c)
      × ((status : FamilyStatus) → r.0 ≡ ok status → lookup family c.families ≡ some status)
      × ((e : ActivityError)
          → r.0 ≡ err e
          → (lookup family c.families ≡ none) × (e.non_retryable ≡ false))
unfolding Activities.read_status on_cluster Cluster.read
read-cases family c r h = ground arith

-- A read leaves the files alone and returns the stored status; without a limit on its attempts it
-- fails only on an unknown family.
pub data Reads (family : String) (policy : RetryPolicy) (c : MockCluster)
    : Result Failure FamilyStatus × MockCluster → Type 0 where
  known :
      (status : FamilyStatus)
      → lookup family c.families ≡ some status
      → Reads family policy c (ok status, c)
  failed :
      (e : Failure)
      → (policy.maximum_attempts ≡ none → lookup family c.families ≡ none)
      → Reads family policy c (err e, c)

module _ (family : String) (policy : RetryPolicy) where
  -- Where the files are those before.
  still :
      {c c' : MockCluster} {r : Result Failure FamilyStatus}
      → c' ≡ c
      → Reads family policy c (r, c)
      → Reads family policy c (r, c')
  still {c} {c'} {r} same h = subst (λ x. Reads family policy c (r, x)) (sym same) h

  Attempts-Reads :
      {n : ℕ} {c : MockCluster} {r : Result Failure FamilyStatus × MockCluster}
      → Attempts policy (Activities.read_status family) n c r
      → Reads family policy c r
  Attempts-Reads (Attempts.returned status c t h) =
      let (same, found, _) = read-cases family c _ h in
      still same (Reads.known status (found status refl))
  Attempts-Reads (Attempts.gave_up e c t h why) =
      let (same, _, missing) = read-cases family c _ h in
      still same (Reads.failed _ (λ _. (missing e refl).0))
  Attempts-Reads (Attempts.unanswered x text c t h limited) =
      let (same, _, _) = read-cases family c _ h in
      still same (Reads.failed _ (λ unlimited. absurd (limited unlimited)))
  Attempts-Reads (Attempts.unstarted text c limited) =
      Reads.failed _ (λ unlimited. absurd (limited unlimited))
  Attempts-Reads (Attempts.going_on e c t h more unlimited) =
      let (same, _, missing) = read-cases family c _ h in
      still same (Reads.failed _ (λ _. (missing e refl).0))
  Attempts-Reads (Attempts.again e n c t r h more rest) =
      let (same, _, _) = read-cases family c _ h in
      subst (λ x. Reads family policy x r) same (Attempts-Reads rest)
  Attempts-Reads (Attempts.lost x n c t r h rest) =
      let (same, _, _) = read-cases family c _ h in
      subst (λ x. Reads family policy x r) same (Attempts-Reads rest)
  Attempts-Reads (Attempts.missed n c r rest) = Attempts-Reads rest

  pub execute_activity-Reads :
      (service : Service) (c : MockCluster)
      → Reads family policy c (service.execute_activity policy (Activities.read_status family) c)
  execute_activity-Reads service c =
      let run = service.execute_activity-Executed policy (Activities.read_status family) c in
      Attempts-Reads run.attempts

  -- Without a limit and without errors that are not retried, the read of an unknown family goes on.
  Attempts-endless :
      {n : ℕ} {c : MockCluster} {r : Result Failure FamilyStatus × MockCluster}
      → Attempts policy (Activities.read_status family) n c r
      → policy.maximum_attempts ≡ none
      → policy.non_retryable_error_types ≡ []
      → lookup family c.families ≡ none
      → r ≡ (err endless, c)
  unfolding contains
  Attempts-endless (Attempts.returned status c t h) unlimited all missing =
      let (_, found, _) = read-cases family c _ h in
      absurd (let clash : none ≡ some status = sym missing ∙ found status refl in cc)
  Attempts-endless (Attempts.gave_up e c t h why) unlimited all missing =
      let (_, _, unknown) = read-cases family c _ h in
      absurd (ground (arith, why, (unknown e refl).1, all, unlimited))
  Attempts-endless (Attempts.unanswered x text c t h limited) unlimited all missing =
      absurd (limited unlimited)
  Attempts-endless (Attempts.unstarted text c limited) unlimited all missing =
      absurd (limited unlimited)
  Attempts-endless (Attempts.going_on e c t h more _) unlimited all missing =
      let (same, _, _) = read-cases family c _ h in ap (λ x. (err endless, x)) same
  Attempts-endless (Attempts.again e n c t r h more rest) unlimited all missing =
      let (same, _, _) = read-cases family c _ h in
      subst (λ x. r ≡ (err endless, x)) same
        (Attempts-endless rest unlimited all
          (subst (λ x. lookup family x.families ≡ none) (sym same) missing))
  Attempts-endless (Attempts.lost x n c t r h rest) unlimited all missing =
      let (same, _, _) = read-cases family c _ h in
      subst (λ x. r ≡ (err endless, x)) same
        (Attempts-endless rest unlimited all
          (subst (λ x. lookup family x.families ≡ none) (sym same) missing))
  Attempts-endless (Attempts.missed n c r rest) unlimited all missing =
      Attempts-endless rest unlimited all missing

  pub execute_activity_endless :
      (service : Service) (c : MockCluster)
      → policy.maximum_attempts ≡ none
      → policy.non_retryable_error_types ≡ []
      → lookup family c.families ≡ none
      → service.execute_activity policy (Activities.read_status family) c ≡ (err endless, c)
  execute_activity_endless service c unlimited all missing =
      let run = service.execute_activity-Executed policy (Activities.read_status family) c in
      Attempts-endless run.attempts unlimited all missing
