-- ===== src/Tests/Temporal/Locking.antt =====
-- The theorems on Temporal.Scripts and Temporal.Locking at the service and the actor of
-- Tests.Temporal.
use flink_control_plane_poc.Prelude.{◌≡◌, refl, ap, none, some, false, List, [], ◌∷◌}
use flink_control_plane_poc.Prelude.Equality.{string_eq}
use flink_control_plane_poc.Prelude.Dict.{lookup, insert}
use flink_control_plane_poc.Exec.{Result, ok, err}
use flink_control_plane_poc.Domain.{running, suspended}
use flink_control_plane_poc.Cluster.{MockCluster, seed, set_chaos, rule_key, op_name}
use flink_control_plane_poc.Cluster
use flink_control_plane_poc.Cluster.Frame.{state_of}
use flink_control_plane_poc.Cluster.WellFormed.{IsWellFormed}
use flink_control_plane_poc.Scenarios.{target, fail_in_resume}
use flink_control_plane_poc.Scenarios.Runs.{prepared}
use flink_control_plane_poc.Temporal.Engine.{Failure, endless, nothing}
use flink_control_plane_poc.Temporal.Activities.{on_cluster}
use flink_control_plane_poc.Temporal.Activities
use flink_control_plane_poc.Temporal.Actor.{FlinkJobFamilyActor, Site, start}
use flink_control_plane_poc.Temporal.Actor
use flink_control_plane_poc.Temporal.Proxy.{CommandRequest, FamilyCommand}
use flink_control_plane_poc.Temporal.Scripts.{done, step, act, script, patch_config, program}
use flink_control_plane_poc.Temporal.Locking.{
  Lock, Phase, Waiter, Event, Instance, Reach, begin, acquire, advance,
}
use flink_control_plane_poc.Temporal.Locking.Serial.{begun, IsSerial, Reach-IsSerial}
use flink_control_plane_poc.Temporal.Locking.Coherence.{Relies}
use flink_control_plane_poc.Temporal.Locking.Coherence.System.{IsInStep, Reach-IsInStep}
use flink_control_plane_poc.Temporal.Locking.Coherence.Fleet.{
  Fleet, fresh, new_actor, set_at, turn, FleetReach, fresh-IsCoherent,
}
use flink_control_plane_poc.Tests.Temporal.{
  formed, pause_target, restore_target, paused_target, stale_site,
}
use flink_control_plane_poc.Tests.Service.{prompt, run_activity, try_all, try_on}

-- The files may be any while no handler runs.
abbrev WhileFree : Instance → MockCluster → Type 0
WhileFree i c = i.lock ≡ Lock.free

-- The actor is idle, and a restore waits. It remembers a suspension that the files do not show.
abbrev idle : List Event → Instance
idle log = record {
  phase = Phase.ready;
  site = stale_site;
  lock = Lock.free;
  arrived = [];
  queue = Waiter.command restore_target ∷ [];
  expired = false;
  log = log;
}

-- The restore has the lock.
abbrev reading : List Event → Instance
reading log = record (idle log) {
  lock = Lock.held restore_target (program prompt restore_target);
  queue = [];
}

patch_target : CommandRequest
patch_target = record {
  family = target;
  command = FamilyCommand.patch_config;
  update_id = "move-1:run-1:patch:bfs-cold";
  datatypes = some ("clicks" ∷ []);
  desired_state = none;
}

-- A patch waits, has the lock, and has made its write.
abbrev unpatched : Instance
unpatched = record (idle []) { queue = Waiter.command patch_target ∷ [] }

abbrev patching : Site → Result Failure (Unit {0}) × Site
patching = Actor.patch prompt ("clicks" ∷ [])

abbrev patched : Instance
patched = record unpatched {
  lock =
      Lock.held patch_target
        (elim (patching stale_site).0 [ ok a ↦ done (ok nothing) | err e ↦ done (err e) ]);
  queue = [];
  site = (patching stale_site).1;
}

patch_program :
    program prompt patch_target
    ≡ step
        (λ s. elim (patching s).0 [ ok a ↦ done (ok nothing) | err e ↦ done (err e) ])
        (λ s. (patching s).1)
unfolding program script patch_config act patch_target
patch_program = refl

to_patched : Reach prompt target (some suspended) WhileFree unpatched patched
unfolding stale_site
to_patched = Reach.next (Reach.next Reach.here (acquire [] patch_target refl refl refl)) (
    advance patch_target
      (λ s. elim (patching s).0 [ ok a ↦ done (ok nothing) | err e ↦ done (err e) ])
      (λ s. (patching s).1) refl (ap (Lock.held patch_target) patch_program))

Reach-IsSerial_example : IsSerial prompt target (some suspended) WhileFree (λ i c is. is) patched
unfolding start stale_site paused_target
Reach-IsSerial_example =
    Reach-IsSerial prompt target (some suspended) WhileFree (λ i c is. is) to_patched
      (begun stale_site.files stale_site.files paused_target refl)

-- A pause has raised.
abbrev after_pause : List Event
after_pause = Event.ran pause_target (err endless) ∷ []

abbrev Kind : Instance → MockCluster → Type 0
Kind i c = Relies target i.site.files c

Reach-IsInStep_example : IsInStep prompt target none Kind (λ i c rely. rely) (reading after_pause)
unfolding stale_site paused_target
Reach-IsInStep_example =
    Reach-IsInStep prompt target none Kind (λ i c rely. rely)
      (Reach.next {j = idle after_pause} Reach.here (acquire [] restore_target refl refl refl))
      (formed, (refl, λ clean. absurd clean))

abbrev files : MockCluster
files = prepared fail_in_resume

abbrev running_target : FlinkJobFamilyActor
running_target = record { family = target; state = running }

start_target : start prompt target none files ≡ (ok running_target, files)
unfolding start prompt run_activity try_all try_on Activities.read_status on_cluster Cluster.read
    prepared seed set_chaos insert string_eq rule_key op_name lookup
start_target = refl

ready_target : Instance
unfolding new_actor
ready_target = record (new_actor files []) {
  phase = Phase.ready;
  site = record { files = files; actor = running_target };
}

-- The actor of the target has started.
started_fleet : Fleet
unfolding ready_target fresh
started_fleet = record {
  files = ready_target.site.files;
  carried = λ _. none;
  actors = set_at target ready_target (fresh files).actors;
}

target_starts : FleetReach prompt (fresh files) started_fleet
unfolding fresh new_actor ready_target started_fleet
target_starts =
    FleetReach.next FleetReach.here
      (turn target ready_target (begin running_target files refl start_target))

fresh-IsCoherent_example :
    IsWellFormed started_fleet.files
    × (state_of started_fleet.files target ≡ some (started_fleet.actors target).site.actor.state)
unfolding started_fleet ready_target new_actor string_eq
fresh-IsCoherent_example =
    fresh-IsCoherent prompt files started_fleet target formed target_starts refl refl tt
