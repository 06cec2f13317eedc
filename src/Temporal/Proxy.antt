-- ===== src/Temporal/Proxy.antt =====
-- poc/temporal/actor_proxy.py, and the messages of poc/common/domain.py that it passes on.
use flink_control_plane_poc.Prelude.{
  String, ◌<>◌, Bool, true, false, Option, none, some, List, [], if◌then◌else◌,
}
use flink_control_plane_poc.Prelude.Equality.{◌==◌, string_eq}
use flink_control_plane_poc.Exec.{Result, ok, err, Exec}
use flink_control_plane_poc.Domain.{FamilyState}
use flink_control_plane_poc.Cluster.{MockCluster}
use flink_control_plane_poc.Temporal.Engine.{
  ActivityError, Activity, Failure, Finished, Service, UpdateResult, uri, changed, nothing,
  UpdateError, update_failed, no_answer,
}
use flink_control_plane_poc.Temporal.Actor.{Site, Handler, FlinkJobFamilyActor, actor_id, start}
use flink_control_plane_poc.Temporal.Actor

pub data FamilyCommand : Type 0 where
  pause resume patch_config restore : FamilyCommand

-- `FamilyCommand.value`
unfoldable pub command_value : FamilyCommand → String
command_value FamilyCommand.pause = "pause"
command_value FamilyCommand.resume = "resume"
command_value FamilyCommand.patch_config = "patch_config"
command_value FamilyCommand.restore = "restore"

pub record CommandRequest : Type 0 where
  pub family : String
  pub command : FamilyCommand
  pub update_id : String
  pub datatypes : Option (List String)
  pub desired_state : Option FamilyState

pub record CommandResult : Type 0 where
  pub changed : Bool
  pub savepoint_uri : Option String

-- The files, the state of each actor that runs, and what the service knows of finished updates in the
-- present run of each actor: `continue_as_new` starts another, which knows of none.
pub record World : Type 0 where
  pub files : MockCluster
  pub actors : String → Option FamilyState
  pub updates : Finished

abbrev pub set_updates : Finished → World → World
set_updates updates w = record w { updates = updates }

abbrev pub set_actor :
    String → FamilyState → (String → Option FamilyState) → String → Option FamilyState
set_actor family state actors other = if other == family then some state else actors other

-- `request.datatypes or []`
abbrev pub or_empty : Option (List String) → List String
or_empty none = []
or_empty (some datatypes) = datatypes

abbrev is_some : {A : Type 0} → Option A → Bool
is_some none = false
is_some (some _) = true

module _ (service : Service) where
  -- The handler of the command.
  unfoldable pub handler : CommandRequest → Handler UpdateResult
  handler request = elim request.command [
    | FamilyCommand.pause ↦ Actor.pause service
    | FamilyCommand.resume ↦ Actor.resume service
    | FamilyCommand.patch_config ↦ Actor.patch_config service (or_empty request.datatypes)
    | FamilyCommand.restore ↦ Actor.restore service request.desired_state request.datatypes
  ]

  -- A handler on a ready actor of the world.
  unfoldable pub on_actor : {A : Type 0} → Handler A → String → FamilyState → Exec World Failure A
  on_actor fn family state w =
      let site : Site = record {
        files = w.files;
        actor = record { family = family; state = state };
      } in
      let (r, s) = fn site in
      (r, record w { files = s.files; actors = set_actor family s.actor.state w.actors })

  -- The update on the actor's side: `start_workflow` with `USE_EXISTING` has started the actor
  -- unless it runs, and the handler waits until it is ready.
  unfoldable pub serve : {A : Type 0} → Handler A → String → Exec World Failure A
  unfolding on_actor start
  serve fn family w = elim (w.actors family) [
    | some state ↦ on_actor fn family state w
    | none ↦
        (let (r, c) = start service family none w.files in
          elim r [
            | ok actor ↦ on_actor fn family actor.state (record w { files = c })
            | err e ↦ (err e, record w { files = c })
          ])
  ]

  -- what `_dispatch` makes of the answer
  unfoldable pub command_result : UpdateResult → CommandResult
  command_result (uri u) = record { changed = is_some u; savepoint_uri = u }
  command_result (changed b) = record { changed = b; savepoint_uri = none }
  command_result nothing = record { changed = true; savepoint_uri = none }

  unfoldable pub dispatch : CommandRequest → World → Result UpdateError UpdateResult × World
  unfolding serve handler actor_id
  dispatch request =
      service.execute_update (λ w. w.updates) set_updates (actor_id request.family)
        request.update_id (serve (handler request) request.family)

  -- the two ways in which the activity fails
  unfoldable pub proxy_error : CommandRequest → UpdateError → ActivityError
  unfolding command_value
  proxy_error request (update_failed e) = record {
    type = "ApplicationError";
    text =
        command_value request.command
        <> " failed on "
        <> request.family
        <> ": "
        <> service.error_text e;
    non_retryable = true;
  }
  proxy_error request (no_answer text) = record {
    type = "RPCError";
    text = text;
    non_retryable = false;
  }

  unfoldable pub execute_family_command : CommandRequest → Activity World CommandResult
  unfolding dispatch proxy_error command_result
  execute_family_command request w =
      let (r, w') = dispatch request w in
      elim r [ ok a ↦ (ok (command_result a), w') | err e ↦ (err (proxy_error request e), w') ]
