-- ===== src/Tests/Completion.antt =====
-- A move whose fault rules `retryable` absorbs, by the plain actors.
use flink_control_plane_poc.Prelude.{String, ◌≡◌, ◌≢◌, sym, ◌≤◌, refl, arith, none, some, inl, inr}
use flink_control_plane_poc.Prelude.Dict.{lookup, insert}
use flink_control_plane_poc.Prelude.Equality.{string_eq, contains}
use flink_control_plane_poc.Domain.{FamilyStatus}
use flink_control_plane_poc.Cluster.{
  MockCluster, ChaosMode, ChaosRule, Op, seed, set_chaos, rule_key, op_name, find_rule, chaos_rules,
}
use flink_control_plane_poc.Cluster.Attempt.{Mutation, op_of, savepoint, suspend, resume, patch}
use flink_control_plane_poc.Baseline.Saga.{plain_actors, plain_actors-IsLawful}
use flink_control_plane_poc.Baseline
use mathlib.Core.Path.{subst}
use flink_control_plane_poc.Baseline.Actor.Completion.{IsSpared, IsServed}
use flink_control_plane_poc.Prelude.{◌+◌}
use flink_control_plane_poc.Prelude.Lists.{length}
use flink_control_plane_poc.Cluster.{audit}
use flink_control_plane_poc.Scenarios.{transient_exhausted}
use flink_control_plane_poc.Baseline.Effort.{run_bound}
use flink_control_plane_poc.Baseline.Completion.{AreServed, Completed, run-Completes}
use flink_control_plane_poc.Scenarios.{source, target, request, transient_retry}
use flink_control_plane_poc.Scenarios.Runs.{prepared}
use flink_control_plane_poc.Tests.{formed, different, faults_of}

-- Two transient faults in the suspension of the target family, and no rule for anything else.
no_rule :
    (family : String) (op : Op) (c : MockCluster)
    → find_rule family op c ≡ none
    → IsSpared 3 family op c
no_rule family op c nothing = record {
  passing = λ rule has. absurd (ground (arith, nothing, has));
  few = λ rule has. absurd (ground (arith, nothing, has));
}

weak_rule :
    (family : String) (op : Op) (c : MockCluster) (rule : ChaosRule)
    → find_rule family op c ≡ some rule
    → rule.mode ≡ ChaosMode.transient
    → rule.times ≤ 3
    → IsSpared 3 family op c
weak_rule family op c rule found mode few = record {
  passing = λ other has permanent. ground (arith, found, has, mode, permanent);
  few = λ other has. ground (arith, found, has, few);
}

source-IsSpared : (m : Mutation) → IsSpared 3 source (op_of m) (prepared transient_retry)
unfolding prepared seed set_chaos insert string_eq rule_key op_name find_rule chaos_rules lookup
source-IsSpared savepoint = no_rule source Op.trigger_savepoint (prepared transient_retry) refl
source-IsSpared suspend = no_rule source Op.suspend_job (prepared transient_retry) refl
source-IsSpared resume = no_rule source Op.resume_job (prepared transient_retry) refl
source-IsSpared (patch _) = no_rule source Op.patch_configmap (prepared transient_retry) refl

target-IsSpared : (m : Mutation) → IsSpared 3 target (op_of m) (prepared transient_retry)
unfolding prepared seed set_chaos insert string_eq rule_key op_name find_rule chaos_rules lookup
    faults_of
target-IsSpared savepoint = no_rule target Op.trigger_savepoint (prepared transient_retry) refl
target-IsSpared suspend =
    weak_rule target Op.suspend_job (prepared transient_retry) (faults_of 2) refl refl (omega arith)
target-IsSpared resume = no_rule target Op.resume_job (prepared transient_retry) refl
target-IsSpared (patch _) = no_rule target Op.patch_configmap (prepared transient_retry) refl

known_family :
    (family : String) (c : MockCluster) (status : FamilyStatus)
    → lookup family c.families ≡ some status
    → lookup family c.families ≢ none
known_family family c status found missing = ground (arith, found, missing)

is_served : AreServed request (prepared transient_retry)
unfolding prepared seed set_chaos insert string_eq rule_key op_name lookup
is_served family part =
    let served = λ (f : String). IsServed f (prepared transient_retry) in
    elim part [
      | inl is ↦ subst served (sym is) (record {
        known = known_family source (prepared transient_retry) _ refl;
        spared = source-IsSpared;
      })
      | inr is ↦ subst served (sym is) (record {
        known = known_family target (prepared transient_retry) _ refl;
        spared = target-IsSpared;
      })
    ]

run-Completes_example :
    Completed request
      (prepared transient_retry)
      (Baseline.Saga.run request (prepared transient_retry))
unfolding prepared seed set_chaos insert string_eq rule_key op_name lookup contains
run-Completes_example =
    run-Completes request (prepared transient_retry) _ _ (formed transient_retry) different refl
      refl refl refl is_served

-- Faults that `retryable` does not absorb, and a rollback.
run_bound_example :
    length (audit (Baseline.Saga.run request (prepared transient_exhausted)).1)
    ≤ length (audit (prepared transient_exhausted)) + 104
run_bound_example = run_bound request (prepared transient_exhausted)
