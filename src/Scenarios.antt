-- ===== src/Scenarios.antt =====
-- poc/common/scenarios.py: the named scenarios.
pub mod Runs
use flink_control_plane_poc.Prelude.{ℕ, String, Bool, true, false, List, [], ◌∷◌}
use flink_control_plane_poc.Prelude.Dict.{Dict}
use flink_control_plane_poc.Domain.{MoveDatatypeRequest}
use flink_control_plane_poc.Cluster.{ChaosRule, ChaosMode, Op, rule_key}

abbrev pub source : String
source = "family_a"

abbrev pub target : String
target = "family_b"

-- `SEED`
abbrev pub seed_families : Dict (List String)
seed_families = (source, "clicks" ∷ "impressions" ∷ []) ∷ (target, "views" ∷ []) ∷ []

-- `REQUEST`
abbrev pub request : MoveDatatypeRequest
request = record { datatype = "clicks"; source_family = source; target_family = target }

-- A scenario, less its description.
pub record Scenario : Type 0 where
  pub name : String
  pub chaos : Dict ChaosRule
  pub expect_failure : Bool

abbrev scenario : String → String → Op → ChaosMode → ℕ → Bool → Scenario
scenario name family op mode times expect_failure = record {
  name = name;
  chaos = (rule_key family op, record { mode = mode; times = times }) ∷ [];
  expect_failure = expect_failure;
}

abbrev pub happy : Scenario
happy = record { name = "happy"; chaos = []; expect_failure = false }

abbrev pub fail_in_pause : Scenario
fail_in_pause = scenario "fail-in-pause" target Op.suspend_job ChaosMode.permanent 1 true

abbrev pub fail_in_update : Scenario
fail_in_update = scenario "fail-in-update" target Op.patch_configmap ChaosMode.permanent 1 true

abbrev pub fail_in_resume : Scenario
fail_in_resume = scenario "fail-in-resume" target Op.resume_job ChaosMode.transient 4 true

abbrev pub compensation_unreachable : Scenario
compensation_unreachable =
    scenario "compensation-unreachable" target Op.resume_job ChaosMode.permanent 1 true

abbrev pub transient_retry : Scenario
transient_retry = scenario "transient-retry" target Op.suspend_job ChaosMode.transient 2 false

abbrev pub transient_exhausted : Scenario
transient_exhausted =
    scenario "transient-exhausted" target Op.suspend_job ChaosMode.transient 99 true

abbrev pub lost_response_suspend : Scenario
lost_response_suspend =
    scenario "lost-response-suspend" target Op.suspend_job ChaosMode.lost_response 4 true

abbrev pub lost_response_patch : Scenario
lost_response_patch =
    scenario "lost-response-patch" source Op.patch_configmap ChaosMode.lost_response 4 true

abbrev pub permanent_first_step : Scenario
permanent_first_step =
    scenario "permanent-first-step" source Op.trigger_savepoint ChaosMode.permanent 1 true

-- `SCENARIOS`
abbrev pub scenarios : List Scenario
scenarios =
    happy ∷ fail_in_pause ∷ fail_in_update ∷ fail_in_resume ∷ compensation_unreachable
    ∷ transient_retry ∷ transient_exhausted ∷ lost_response_suspend ∷ lost_response_patch
    ∷ permanent_first_step ∷ []
