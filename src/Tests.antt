-- ===== src/Tests.antt =====
-- The theorems at concrete inputs: the seeded directory of poc/common/scenarios.py, with and
-- without fault rules.
mod Completion
mod Envelope
mod Evidence
mod Restate
mod Service
mod Temporal
use flink_control_plane_poc.Prelude.{
  ℕ, ◌+◌, ◌-◌, String, ◌≡◌, ◌≢◌, ap, refl, true, false, arith, List, [], ◌∷◌, none, some, inl, inr,
}
use flink_control_plane_poc.Prelude.Dict.{lookup, lookup_or, insert}
use flink_control_plane_poc.Prelude.Equality.{◌==◌, string_eq}
use flink_control_plane_poc.Prelude.Lists.{length}
use flink_control_plane_poc.Exec.{ok, err, Ensures}
use flink_control_plane_poc.Domain.{running, suspended, transient_error, permanent_error}
use flink_control_plane_poc.Cluster.{
  MockCluster, ChaosMode, ChaosRule, Op, audit, blank, seed, set_chaos, rule_key, op_name,
  find_rule, chaos_rules, seen, hits,
}
use flink_control_plane_poc.Cluster
use flink_control_plane_poc.Cluster.Attempt.{suspend, Attempt}
use flink_control_plane_poc.Cluster.Attempt.Operations.{suspend_job-Attempt}
use flink_control_plane_poc.Cluster.WellFormed.{
  IsWellFormed, seed-IsWellFormed, set_chaos-IsWellFormed,
}
use flink_control_plane_poc.Cluster.Contract.{
  EachOperation, operations-Attempt, operations-IsWellFormed, operations-frame, Local,
}
use flink_control_plane_poc.Saga
use flink_control_plane_poc.Saga.Undo.{Undoes-nil}
use flink_control_plane_poc.Saga.Unwinding.{state_goal, datatypes_goal, Unwinds, unwind-Unwinds}
use flink_control_plane_poc.Saga.Forward.Steps.{IsUnderway, Stage}
use flink_control_plane_poc.Saga.Forward.{forward-Ensures}
use flink_control_plane_poc.Saga.Contract.{AllOrNothing}
use flink_control_plane_poc.Saga.Outcomes.{run-AllOrNothing}
use flink_control_plane_poc.Saga.Report.{Reports, run-Reports}
use flink_control_plane_poc.Baseline.Saga.{plain_actors, plain_actors-IsLawful}
use flink_control_plane_poc.Baseline.Actor.{retryable}
use flink_control_plane_poc.Baseline.Actor.Retry.{
  HasFaults, retryable_absorbs, retryable_exhausts, retryable_permanent,
}
use flink_control_plane_poc.Actors.{Compensation}
use flink_control_plane_poc.Scenarios.{
  source, target, seed_families, request, Scenario, fail_in_pause, fail_in_resume, transient_retry,
  transient_exhausted,
}
use flink_control_plane_poc.Scenarios.Runs.{prepared}

formed : (scenario : Scenario) → IsWellFormed (prepared scenario)
unfolding prepared
formed scenario =
    set_chaos-IsWellFormed scenario.chaos _ (seed-IsWellFormed seed_families blank refl)

run-AllOrNothing_example :
    AllOrNothing plain_actors request
      (prepared fail_in_resume)
      (Saga.run plain_actors request (prepared fail_in_resume))
run-AllOrNothing_example =
    run-AllOrNothing plain_actors plain_actors-IsLawful request (prepared fail_in_resume) (λ _. tt)
      (formed fail_in_resume)

run-Reports_example :
    Reports plain_actors request (Saga.run plain_actors request (prepared fail_in_resume))
run-Reports_example = run-Reports plain_actors request (prepared fail_in_resume)

plain_statuses : Saga.Statuses
unfolding prepared
plain_statuses = record {
  source = record {
    family = source;
    state = running;
    datatypes = "clicks" ∷ "impressions" ∷ [];
    generation = 0;
    savepoint_uri = none;
  };
  target = record {
    family = target;
    state = running;
    datatypes = "views" ∷ [];
    generation = 0;
    savepoint_uri = none;
  };
}

intents : List Compensation
intents = Saga.resume_restore target ∷ Saga.config_restore request plain_statuses source ∷ []

unwind-Unwinds_example :
    Unwinds plain_actors plain_actors-IsLawful intents Saga.nothing_unwound
      (prepared fail_in_resume)
      (Saga.unwind plain_actors 0 intents Saga.nothing_unwound (prepared fail_in_resume))
unfolding intents Saga.resume_restore Saga.config_restore
unwind-Unwinds_example =
    unwind-Unwinds plain_actors plain_actors-IsLawful 0 intents Saga.nothing_unwound
      (prepared fail_in_resume) (inl (suspended, refl, refl), (inr (_, refl, refl), tt))
      (λ _ _ _. tt) (formed fail_in_resume)

different : source ≢ target
unfolding string_eq
different e = let same : true ≡ false = ap (λ name. source == name) e in cc

at_start : Saga.Run MockCluster
at_start = record { store = prepared fail_in_resume; done = []; stack = [] }

forward-Ensures_example :
    (let both = source ∷ target ∷ [] in
      let underway =
        IsUnderway plain_actors plain_actors-IsLawful request plain_statuses
          (prepared fail_in_resume) in
      Ensures underway
        (Stage plain_actors plain_actors-IsLawful request plain_statuses
          (prepared fail_in_resume)
          []
          both
          both
          (Saga.expected_steps request)
          [])
        (Saga.forward plain_actors request plain_statuses at_start))
unfolding plain_statuses at_start prepared seed set_chaos insert string_eq rule_key op_name lookup
    Saga.status_of
forward-Ensures_example =
    forward-Ensures plain_actors plain_actors-IsLawful request plain_statuses
      (prepared fail_in_resume) different refl refl at_start
      (record {
        tracked = record {
          formed = formed fail_in_resume;
          intents = tt;
          states = Undoes-nil state_goal _;
          datatypes = Undoes-nil datatypes_goal _;
        };
        other_states = λ _ _. refl;
        other_datatypes = λ _ _. refl;
        can_unwind = λ _ _. tt;
      })
      (record {
        finished = refl;
        are_paused = tt;
        are_patched = tt;
        are_resumed = tt;
        are_fresh = (tt, (tt, (tt, (tt, (tt, (tt, tt))))));
      })

operations-Attempt_example :
    EachOperation
      (λ A m r. Attempt {A = A} target m (prepared transient_retry) r)
      target
      ("views" ∷ [])
      (prepared transient_retry)
operations-Attempt_example = operations-Attempt target ("views" ∷ []) (prepared transient_retry)

operations-IsWellFormed_example :
    EachOperation (λ A m r. IsWellFormed r.1) target ("views" ∷ []) (prepared transient_retry)
operations-IsWellFormed_example =
    operations-IsWellFormed target ("views" ∷ []) (prepared transient_retry)
      (formed transient_retry)

operations-frame_example :
    EachOperation
      (Local target (prepared transient_retry))
      target
      ("views" ∷ [])
      (prepared transient_retry)
operations-frame_example =
    operations-frame target ("views" ∷ []) (prepared transient_retry)
      (let h = formed transient_retry in h.named)

seed-IsWellFormed_example : IsWellFormed (seed seed_families blank)
seed-IsWellFormed_example = seed-IsWellFormed seed_families blank refl

faults_of : ℕ → ChaosRule
faults_of times = record { mode = ChaosMode.transient; times = times }

abbrev Faulty : ℕ → Scenario → Type 0
Faulty times scenario =
    HasFaults target suspend (Cluster.suspend_job target) (suspend_job-Attempt target)
      (faults_of times) times (prepared scenario)

two_faults : Faulty 2 transient_retry
unfolding prepared seed set_chaos insert string_eq rule_key op_name find_rule chaos_rules lookup
    lookup_or seen hits faults_of
two_faults = record { has = refl; mode = refl; known = (_, refl); left = omega arith }

many_faults : Faulty 99 transient_exhausted
unfolding prepared seed set_chaos insert string_eq rule_key op_name find_rule chaos_rules lookup
    lookup_or seen hits faults_of
many_faults = record { has = refl; mode = refl; known = (_, refl); left = omega arith }

-- Two faults, then the suspension: three entries.
retryable_absorbs_example :
    (let r = retryable 4 (Cluster.suspend_job target) (prepared transient_retry) in
      (r.0 ≡ ok tt) × (length (audit r.1) ≡ length (audit (prepared transient_retry)) + 2 + 1))
retryable_absorbs_example =
    retryable_absorbs target suspend (Cluster.suspend_job target) (suspend_job-Attempt target)
      (faults_of 2) 2 4 (prepared transient_retry) (omega arith) two_faults

retryable_exhausts_example :
    (let r = retryable 4 (Cluster.suspend_job target) (prepared transient_exhausted) in
      (text : String) × (r.0 ≡ err (transient_error text))
      × (r.1.families ≡ (prepared transient_exhausted).families)
      × (length (audit r.1) ≡ length (audit (prepared transient_exhausted)) + 4))
retryable_exhausts_example =
    retryable_exhausts target suspend (Cluster.suspend_job target) (suspend_job-Attempt target)
      (faults_of 99) 99 4 (prepared transient_exhausted) (omega arith) (omega arith) many_faults

broken : ChaosRule
broken = record { mode = ChaosMode.permanent; times = 1 }

is_broken : find_rule target Op.suspend_job (prepared fail_in_pause) ≡ some broken
unfolding prepared seed set_chaos insert string_eq rule_key op_name find_rule chaos_rules lookup
    broken
is_broken = refl

is_permanent : broken.mode ≡ ChaosMode.permanent
unfolding broken
is_permanent = refl

retryable_permanent_example :
    (let r = retryable 4 (Cluster.suspend_job target) (prepared fail_in_pause) in
      (text : String) × (r.0 ≡ err (permanent_error text))
      × (r.1.families ≡ (prepared fail_in_pause).families)
      × (length (audit r.1) ≡ length (audit (prepared fail_in_pause)) + 1))
retryable_permanent_example =
    retryable_permanent target suspend (Cluster.suspend_job target) (suspend_job-Attempt target)
      broken 4 (prepared fail_in_pause) (omega arith) is_broken is_permanent
