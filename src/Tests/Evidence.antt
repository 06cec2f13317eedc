-- ===== src/Tests/Evidence.antt =====
-- The theorems on Evidence at small hashes and at the seeded directory.
use flink_control_plane_poc.Prelude.{map, ◌≢◌}
use flink_control_plane_poc.Prelude.Equality.{string_eq}
use flink_control_plane_poc.Prelude.Lists.{All}
use flink_control_plane_poc.Scenarios.{scenarios}
use flink_control_plane_poc.Cli.{find_scenario}
use flink_control_plane_poc.Evidence.{WorkflowEngine, run_engine}
use flink_control_plane_poc.Evidence.Independence.{left_by, run_cli, run_engine-run_cli}
use flink_control_plane_poc.Prelude.{
  String, ◌≡◌, ◌↔◌, refl, true, Option, none, some, List, [], ◌∷◌,
}
use flink_control_plane_poc.Cluster.{MockCluster, AuditEntry, blank, seed}
use flink_control_plane_poc.Domain.{FamilyStatus}
use flink_control_plane_poc.Scenarios.{seed_families}
use flink_control_plane_poc.Evidence.{is_match, state_match}
use flink_control_plane_poc.Evidence.Matching.{AreOne, is_match-AreOne, state_match-IsSameState}

abbrev hashes : List String
hashes = "e3b0c442" ∷ "missing" ∷ "e3b0c442" ∷ []

is_match-AreOne_example : (is_match hashes ≡ true) ↔ AreOne hashes
is_match-AreOne_example = is_match-AreOne hashes

abbrev dump_entry : AuditEntry → String
dump_entry entry = "{}"

abbrev dump_families : (String → Option FamilyStatus) → String
dump_families found = "{}"

abbrev sha256_8 : String → String
sha256_8 text = "e3b0c442"

seeded : MockCluster
seeded = seed seed_families blank

state_match-IsSameState_example :
    state_match dump_entry dump_families sha256_8 (some seeded ∷ none ∷ some seeded ∷ []) ≡ true
state_match-IsSameState_example =
    state_match-IsSameState dump_entry dump_families sha256_8 (λ text e. cc) seeded
      (none ∷ some seeded ∷ []) (tt, ((λ family. refl), tt))

abbrev names : List String
names = "fail-in-resume" ∷ "happy" ∷ []

are_known : All (λ name. find_scenario name scenarios ≢ none) names
unfolding find_scenario string_eq
are_known = ((λ e. cc), ((λ e. cc), tt))

-- A directory in which other scenarios have run.
run_engine-run_cli_example :
    (run_engine (λ engine. run_cli) WorkflowEngine.plain names (some seeded)).0
    ≡ map (λ name. left_by name none) names
run_engine-run_cli_example = run_engine-run_cli names (some seeded) are_known
