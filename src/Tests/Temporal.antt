-- ===== src/Tests/Temporal.antt =====
-- The theorems on Temporal at a concrete service.
mod Locking
use flink_control_plane_poc.Prelude.{◌≤◌, ◌-◌, ◌≡◌, inl, refl, none, some}
use flink_control_plane_poc.Prelude.Dict.{lookup}
use flink_control_plane_poc.Exec.{ok, err}
use flink_control_plane_poc.Prelude.Dict.{insert}
use flink_control_plane_poc.Prelude.Equality.{string_eq}
use flink_control_plane_poc.Domain.{suspended, MoveDatatypeRequest}
use flink_control_plane_poc.Cluster.{blank, seed, set_chaos, rule_key, op_name}
use flink_control_plane_poc.Cluster.WellFormed.{
  IsWellFormed, seed-IsWellFormed, set_chaos-IsWellFormed,
}
use flink_control_plane_poc.Scenarios.{target, seed_families, request, fail_in_resume}
use flink_control_plane_poc.Scenarios.Runs.{prepared}
use flink_control_plane_poc.Actors.{Command, IsLawful}
use flink_control_plane_poc.Temporal.Actor.{FlinkJobFamilyActor, roll_over, start}
use flink_control_plane_poc.Temporal.Proxy.{World, FamilyCommand, CommandRequest}
use flink_control_plane_poc.Temporal.Ids.{update_id-injective}
use flink_control_plane_poc.Temporal.Saga.{temporal_actors, send, run}
use flink_control_plane_poc.Temporal.Once.RollOver.{Attempted, Ran, continue_as_new, Attempted-Ran}
use flink_control_plane_poc.Temporal.Proxy.{execute_family_command, dispatch, serve, on_actor}
use flink_control_plane_poc.Temporal.Actor
use flink_control_plane_poc.Tests.Service.{run_update}
use flink_control_plane_poc.Prelude.{ℕ}
use flink_control_plane_poc.Temporal.Lawful.{temporal_actors-IsLawful}
use flink_control_plane_poc.Prelude.{◌+◌}
use flink_control_plane_poc.Prelude.Lists.{length}
use flink_control_plane_poc.Cluster.{audit}
use flink_control_plane_poc.Exec.{Ensures}
use flink_control_plane_poc.Temporal.Engine.{uri}
use flink_control_plane_poc.Temporal.Actor.{Site}
use flink_control_plane_poc.Temporal.Proxy.{handler}
use flink_control_plane_poc.Temporal.Effort.{run_limit}
use flink_control_plane_poc.Temporal.Coherence.{Serves, IsCoherent, handler-IsCoherent}
use flink_control_plane_poc.Temporal.Saga.{Raised}
use flink_control_plane_poc.Temporal.Verdicts.{Settled, run_endless, run-Guarantees}
use flink_control_plane_poc.Temporal.Engine.{endless}
use flink_control_plane_poc.Tests.Service.{prompt}

-- Before the move: no actor runs.
at_rest : World
at_rest = record { files = prepared fail_in_resume; actors = λ _. none; updates = λ _ _. none }

temporal_actors-IsLawful_example : IsLawful (temporal_actors prompt "move-1" "run-1")
temporal_actors-IsLawful_example = temporal_actors-IsLawful prompt "move-1" "run-1"

formed : IsWellFormed (prepared fail_in_resume)
unfolding prepared
formed = set_chaos-IsWellFormed fail_in_resume.chaos _ (seed-IsWellFormed seed_families blank refl)

run-Guarantees_example :
    Settled prompt "move-1" "run-1" request at_rest (run prompt "move-1" "run-1" request at_rest)
unfolding at_rest
run-Guarantees_example = run-Guarantees prompt "move-1" "run-1" request at_rest (λ _ _. refl) formed

pause_target : CommandRequest
pause_target = record {
  family = target;
  command = FamilyCommand.pause;
  update_id = "move-1:run-1:pause:bfs-cold";
  datatypes = none;
  desired_state = none;
}

-- A suspended actor answers a pause; the answer is lost, the actor rolls over, and the pause is sent
-- again.
asleep : World
asleep = record at_rest { actors = λ _. some suspended }

attempt_pause : World → World
attempt_pause w = (execute_family_command prompt pause_target w).1

roll_target : World → World
roll_target = continue_as_new prompt (record { family = target; state = suspended })

still_asleep : (attempt_pause asleep).actors target ≡ some suspended
unfolding attempt_pause asleep at_rest pause_target prompt run_update execute_family_command
    dispatch serve on_actor handler Actor.pause Actor.pause_from string_eq
still_asleep = refl

Attempted-Ran_example :
    (runs : ℕ) × (runs ≤ 2)
    × Ran prompt pause_target asleep runs (attempt_pause (roll_target (attempt_pause asleep)))
unfolding asleep at_rest attempt_pause roll_target pause_target
Attempted-Ran_example =
    Attempted-Ran prompt pause_target asleep (attempt_pause (roll_target (attempt_pause asleep))) 1
      refl
      (Attempted.attempt
        (Attempted.rolled suspended (Attempted.attempt Attempted.none_yet) still_asleep))

update_id-injective_example :
    Command.restore 3 "revert:bfs-cold" ≡ Command.restore 3 "revert:bfs-cold"
update_id-injective_example =
    update_id-injective "move-1" "run-1" (Command.restore 3 "revert:bfs-cold")
      (Command.restore 3 "revert:bfs-cold") refl

ghost_request : MoveDatatypeRequest
ghost_request = record { datatype = "clicks"; source_family = "ghost"; target_family = target }

run_endless_example :
    run prompt "move-1" "run-1" ghost_request at_rest
    ≡ (err (Raised.activity_error endless), at_rest)
unfolding at_rest ghost_request prepared seed set_chaos insert string_eq rule_key op_name lookup
run_endless_example = run_endless prompt "move-1" "run-1" ghost_request at_rest refl

paused_target : FlinkJobFamilyActor
paused_target = record { family = target; state = suspended }

run_limit_example :
    length (audit (run prompt "move-1" "run-1" request at_rest).1.files)
    ≤ length (audit at_rest.files) + 104
run_limit_example = run_limit prompt "move-1" "run-1" request at_rest

restore_target : CommandRequest
restore_target = record {
  family = target;
  command = FamilyCommand.restore;
  update_id = "move-1:run-1:comp:0:pause:bfs-cold";
  datatypes = none;
  desired_state = some suspended;
}

-- The actor remembers a suspension that the files do not show.
stale_site : Site
stale_site = record { files = prepared fail_in_resume; actor = paused_target }

handler-IsCoherent_example :
    Ensures
      (Serves prompt target)
      (IsCoherent prompt target)
      (handler prompt restore_target stale_site)
unfolding restore_target stale_site paused_target
handler-IsCoherent_example =
    handler-IsCoherent prompt target restore_target stale_site (inl refl) (formed, refl)
