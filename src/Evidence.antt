-- ===== src/Evidence.antt =====
-- poc/run_poc_scenarios.py: every scenario on every engine, and the table that compares what the runs
-- have left. A run of the command line, the JSON texts and the SHA-256 digest are parameters; the
-- style sheet, the script and the logs of the runs are left out.
pub mod Matching
pub mod Independence
use flink_control_plane_poc.Prelude.{
  String, ◌<>◌, Bool, true, false, Option, none, some, List, [], ◌∷◌, ◌++◌, map, if◌then◌else◌,
}
use flink_control_plane_poc.Prelude.Equality.{◌==◌, string_eq, contains}
use flink_control_plane_poc.Prelude.Dict.{lookup}
use flink_control_plane_poc.Domain.{FamilyStatus}
use flink_control_plane_poc.Cluster.{MockCluster, AuditEntry}

-- `WorkflowEngine`
pub data WorkflowEngine : Type 0 where
  plain temporal restate : WorkflowEngine

unfoldable pub engine_value : WorkflowEngine → String
engine_value WorkflowEngine.plain = "None"
engine_value WorkflowEngine.temporal = "Temporal"
engine_value WorkflowEngine.restate = "Restate"

abbrev pub engines : List WorkflowEngine
engines = WorkflowEngine.plain ∷ WorkflowEngine.temporal ∷ WorkflowEngine.restate ∷ []

-- `"\n".join(lines)`
unfoldable pub join_lines : List String → String
join_lines [] = ""
join_lines (line ∷ []) = line
join_lines (line ∷ other ∷ rest) = line <> ("\n" <> join_lines (other ∷ rest))

pub record ScenarioData : Type 0 where
  pub audit_content : String
  pub audit_hash : String
  pub state_content : String
  pub state_hash : String

-- The set of the hashes that are not "missing".
unfoldable pub hash_set : List String → List String
unfolding contains
hash_set [] = []
hash_set (hash ∷ rest) =
    let others = hash_set rest in
    if hash == "missing" then others else if contains hash others then others else hash ∷ others

-- `len(hashes) == 1`
unfoldable pub is_match : List String → Bool
unfolding hash_set
is_match hashes = elim (hash_set hashes) [
  | [] ↦ false
  | hash ∷ rest ↦ elim rest [ [] ↦ true | other ∷ more ↦ false ]
]

-- The part of a cell about the audit log or about the state.
unfoldable pub cell_part : Bool → String → String → String → List String
cell_part agree title hash content =
    ("<div class='"
        <> (if agree then "match" else "mismatch")
        <> "'><span class='status-label'>"
        <> (if agree then "[ MATCH ]" else "[ MISMATCH ]")
        <> " "
        <> title
        <> "</span><strong>Hash:</strong> "
        <> hash)
      ∷ (if content == ""
          then []
          else "<details><summary>View JSON</summary><div class='code-container'>"
            ∷ "<button class='copy-btn' onclick='copyContent(this)'>Copy</button>"
            ∷ ("<pre>" <> content <> "</pre></div></details>")
            ∷ [])
    ++ "</div>" ∷ []

unfoldable pub cells : Bool → Bool → List ScenarioData → List String
unfolding cell_part
cells audit_match state_match [] = []
cells audit_match state_match (of_engine ∷ rest) =
    "<td>" ∷ []
    ++ cell_part audit_match "Audit" of_engine.audit_hash of_engine.audit_content
    ++ cell_part state_match "State" of_engine.state_hash of_engine.state_content
    ++ "</td>" ∷ []
    ++ cells audit_match state_match rest

module _ (dump_entry : AuditEntry → String)
    (dump_families : (String → Option FamilyStatus) → String) (sha256_8 : String → String) where
  -- `_get_audit_data`, of the `cluster_state` that was copied, if any
  unfoldable pub get_audit_data : Option MockCluster → String × String
  unfolding join_lines
  get_audit_data none = ("", "missing")
  get_audit_data (some c) = elim c.audit_log [
    | none ↦ ("", "missing")
    | some entries ↦
        (let content = join_lines (map dump_entry entries) in (content, sha256_8 content))
  ]

  -- `_get_state_data`: sorted keys make the text a function of what stands under each name
  unfoldable pub get_state_data : Option MockCluster → String × String
  get_state_data none = ("", "missing")
  get_state_data (some c) =
      let content = dump_families (λ family. lookup family c.families) in
      (content, sha256_8 content)

  unfoldable pub scenario_data : Option MockCluster → ScenarioData
  unfolding get_audit_data get_state_data
  scenario_data evidence =
      let (audit_content, audit_hash) = get_audit_data evidence in
      let (state_content, state_hash) = get_state_data evidence in
      record {
        audit_content = audit_content;
        audit_hash = audit_hash;
        state_content = state_content;
        state_hash = state_hash;
      }

  -- whether the runs of one scenario agree on the audit log, and on the state
  unfoldable pub audit_match : List (Option MockCluster) → Bool
  unfolding scenario_data is_match
  audit_match evidence = is_match (map (λ found. (scenario_data found).audit_hash) evidence)

  unfoldable pub state_match : List (Option MockCluster) → Bool
  unfolding scenario_data is_match
  state_match evidence = is_match (map (λ found. (scenario_data found).state_hash) evidence)

  -- the row of a scenario in `build_html_report`
  unfoldable pub build_row : String → List (Option MockCluster) → List String
  unfolding cells audit_match state_match
  build_row scenario evidence =
      ("<tr><td style='width: 15%;'><strong>" <> scenario <> "</strong></td>") ∷ []
      ++ cells (audit_match evidence) (state_match evidence) (map scenario_data evidence)
      ++ "</tr>" ∷ []

  -- The table of the report, by what was copied for each engine and scenario.
  unfoldable pub build_table :
      (WorkflowEngine → String → Option MockCluster) → List String → List String
  unfolding build_row
  build_table results [] = []
  build_table results (scenario ∷ rest) =
      build_row scenario (map (λ engine. results engine scenario) engines)
      ++ build_table results rest

module _ (run : WorkflowEngine → String → Option MockCluster → Option MockCluster) where
  -- The scenarios on one engine, each in the `.cluster` directory that the one before has left, and a
  -- copy of the directory after each.
  unfoldable pub run_engine :
      WorkflowEngine
      → List String
      → Option MockCluster
      → List (Option MockCluster) × Option MockCluster
  run_engine engine [] root = ([], root)
  run_engine engine (scenario ∷ rest) root =
      let after = run engine scenario root in
      let (copies, last) = run_engine engine rest after in (after ∷ copies, last)

  -- `generate_evidence_matrix`, up to the report
  unfoldable pub run_engines :
      List WorkflowEngine → List String → Option MockCluster → List (List (Option MockCluster))
  unfolding run_engine
  run_engines [] scenarios root = []
  run_engines (engine ∷ rest) scenarios root =
      let (copies, after) = run_engine engine scenarios root in
      copies ∷ run_engines rest scenarios after
