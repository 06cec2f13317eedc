-- ===== src/Scenarios/Runs.antt =====
-- The scenarios run by the plain actors, as the recorded evidence under
-- poc/docs/assessment_evidence/none has them.
use flink_control_plane_poc.Prelude.{String, ◌≡◌, refl, List, [], ◌∷◌, map, decimal, pad4}
use flink_control_plane_poc.Prelude.Equality.{string_eq, list_eq, contains, without}
use flink_control_plane_poc.Prelude.Dict.{lookup, lookup_or, insert}
use flink_control_plane_poc.Exec.{Result}
use flink_control_plane_poc.Domain.{
  ClusterError, state_eq, families, outcome_value, saga_error_type,
}
use flink_control_plane_poc.Cluster.{
  MockCluster, AuditEntry, audit, blank, seed, set_chaos, maybe_fail, maybe_lose_response, rule_key,
  op_name,
}
use flink_control_plane_poc.Cluster
use flink_control_plane_poc.Saga
use flink_control_plane_poc.Saga.{Failed, saga_error}
use flink_control_plane_poc.Baseline
use flink_control_plane_poc.Baseline.Actor
use flink_control_plane_poc.Scenarios.{
  Scenario, seed_families, request, happy, permanent_first_step,
}

-- The seeded directory with the scenario's rules, as the command line prepares it.
unfoldable pub prepared : Scenario → MockCluster
unfolding seed set_chaos insert string_eq rule_key op_name
prepared scenario = set_chaos scenario.chaos (seed seed_families blank)

-- A run by the plain actors. The line opens all that the run computes with.
unfoldable pub outcome : Scenario → Result (Failed ClusterError) (List String) × MockCluster
unfolding prepared Baseline.Saga.run Saga.read_all Actor.read_status Cluster.read lookup Saga.judge
    Saga.validation_error contains Saga.transact Saga.forward Saga.phase families Saga.step
    Actor.pause Actor.trigger_savepoint Actor.patch_config Actor.restore Actor.resume
    Actor.retryable Actor.suspend audit Cluster.chaos_rules Cluster.commit Cluster.count_hit
    Cluster.find_rule Cluster.hits maybe_fail maybe_lose_response Cluster.next_seq
    Cluster.patch_configmap Cluster.record_attempt Cluster.resume_job Cluster.savepoint_name
    Cluster.savepoint_uri Cluster.seen Cluster.suspend_job Cluster.trigger_savepoint Cluster.write
    Cluster.write_savepoint outcome_value saga_error_type state_eq lookup_or list_eq without decimal
    pad4 Saga.call Saga.compensate Saga.config_restore Saga.expected_steps Saga.failure
    Saga.new_config Saga.next_step Saga.pause_restore Saga.resume_restore Saga.roll_back
    Saga.status_of Saga.tally Saga.unwind Cluster.entry_text
outcome scenario = Baseline.Saga.run request (prepared scenario)

abbrev log_of : Scenario → List String
log_of scenario = map Cluster.entry_text (audit (outcome scenario).1)

-- The recorded logs.
happy_log :
    log_of happy
    ≡ "trigger_savepoint(family_a)" ∷ "suspend_job(family_a)" ∷ "trigger_savepoint(family_b)"
      ∷ "suspend_job(family_b)" ∷ "patch_configmap(family_a)" ∷ "patch_configmap(family_b)"
      ∷ "resume_job(family_a)" ∷ "resume_job(family_b)" ∷ []
unfolding outcome Cluster.entry_text
happy_log = refl

permanent_first_step_log :
    log_of permanent_first_step ≡ "trigger_savepoint(family_a) [permanent]" ∷ []
unfolding outcome Cluster.entry_text
permanent_first_step_log = refl
