-- ===== src/Temporal/Ids.antt =====
-- The update ids of poc/temporal/saga.py: one for each command of one execution.
use text.Mathlib.TextLemmas.{append_cancel_left}
use flink_control_plane_poc.Prelude.{String, ◌<>◌, ◌≡◌}
use flink_control_plane_poc.Actors.{Command}
use flink_control_plane_poc.Actors.Steps.{step_key, step_key-injective}

-- `_update_id`
unfoldable pub update_id : String → String → String → String
update_id workflow_id run_id step = workflow_id <> (":" <> (run_id <> (":" <> step)))

-- The update ids of one execution are equal only for one command.
pub update_id-injective :
    (workflow_id run_id : String) (c d : Command)
    → update_id workflow_id run_id (step_key c) ≡ update_id workflow_id run_id (step_key d)
    → c ≡ d
unfolding update_id
update_id-injective workflow_id run_id c d e = step_key-injective c d (
    append_cancel_left ":" _ _ (
      append_cancel_left run_id _ _
        (append_cancel_left ":" _ _ (append_cancel_left workflow_id _ _ e))))
