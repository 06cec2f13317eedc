-- ===== src/Temporal/Once/RollOver.antt =====
-- The attempts at the proxy for one command, with roll-overs of the command's actor in between. The
-- service looks an update id up in the present run of the actor's workflow only, and
-- `continue_as_new` starts another one.
use mathlib.Core.Path.{subst}
use flink_control_plane_poc.Prelude.{
  ℕ, suc, ◌≤◌, arith, String, ◌≡◌, sym, none, some, if◌then◌else◌,
}
use flink_control_plane_poc.Prelude.Equality.{◌==◌, string_eq}
use flink_control_plane_poc.Exec.{Result, ok, err}
use flink_control_plane_poc.Domain.{FamilyState}
use flink_control_plane_poc.Temporal.Engine.{
  ActivityError, Failure, Service, UpdateResult, Finished,
}
use flink_control_plane_poc.Temporal.Actor.{FlinkJobFamilyActor, actor_id, roll_over, start}
use flink_control_plane_poc.Temporal.Proxy.{
  World, CommandRequest, CommandResult, set_actor, execute_family_command,
}
use flink_control_plane_poc.Temporal.Once.{
  served, noted, Once, Replays-same, first_attempt, later_attempt, is_noted,
}

-- What a new run of the workflow knows of its updates: nothing.
unfoldable pub forget : String → Finished → Finished
forget workflow finished other id = if other == workflow then none else finished other id

-- `continue_as_new` of an actor, up to the point where its next run is ready.
unfoldable pub continue_as_new : Service → FlinkJobFamilyActor → World → World
unfolding forget
continue_as_new service actor w =
    let (family, carried) = roll_over actor in
    let (r, c) = start service family carried w.files in
    elim r [
      | ok next ↦ record {
        files = c;
        actors = set_actor family next.state w.actors;
        updates = forget (actor_id actor.family) w.updates;
      }
      | err e ↦ record w { files = c; updates = forget (actor_id actor.family) w.updates }
    ]

module _ (service : Service) (request : CommandRequest) where
  -- Attempts at the proxy, each where the one before has left the world, whether its answer came
  -- through or not; by the number of roll-overs.
  pub data Attempted (w : World) : ℕ → World → Type 0 where
    none_yet : Attempted w 0 w
    attempt :
        {n : ℕ} {t : World}
        → Attempted w n t
        → Attempted w n (execute_family_command service request t).1
    rolled :
        {n : ℕ} {t : World} (state : FamilyState)
        → Attempted w n t
        → t.actors request.family ≡ some state
        → Attempted w
            (suc n)
            (continue_as_new service (record { family = request.family; state = state }) t)

  -- Whole runs of the handler, each noted by the service, and roll-overs; by the number of runs.
  pub data Ran (w : World) : ℕ → World → Type 0 where
    none_yet : Ran w 0 w
    ran :
        {n : ℕ} {t u : World} (r : Result Failure UpdateResult)
        → Ran w n t
        → served service request t ≡ (r, u)
        → Ran w (suc n) (noted service request r u)
    rolled :
        {n : ℕ} {t : World} (state : FamilyState)
        → Ran w n t
        → t.actors request.family ≡ some state
        → Ran w n (continue_as_new service (record { family = request.family; state = state }) t)

  -- With so many roll-overs: one run for each, and one more if the service knows the id.
  data Tally (w : World) (rolls : ℕ) (t : World) : Type 0 where
    unknown :
        (runs : ℕ)
        → runs ≤ rolls
        → Ran w runs t
        → t.updates (actor_id request.family) request.update_id ≡ none
        → Tally w rolls t
    known :
        (runs : ℕ) (r : Result Failure UpdateResult)
        → runs ≤ suc rolls
        → Ran w runs t
        → t.updates (actor_id request.family) request.update_id ≡ some r
        → Tally w rolls t

  forgotten :
      (state : FamilyState) (t : World)
      → (continue_as_new service (record { family = request.family; state = state }) t).updates
          (actor_id request.family)
          request.update_id
        ≡ none
  unfolding continue_as_new forget start roll_over
  forgotten state t = ground arith

  attempt-Tally :
      {w t : World} (n : ℕ) → Tally w n t → Tally w n (execute_family_command service request t).1
  attempt-Tally {w} {t} n (Tally.unknown runs few path new) =
      go (first_attempt service request t new)
    where
      go :
          {p : Result ActivityError CommandResult × World}
          → Once service request t p
          → Tally w n p.1
      go (Once.not_run e) = Tally.unknown runs few path new
      go (Once.answered a u came) =
          Tally.known (suc runs) (ok a) (omega arith) (Ran.ran (ok a) path came)
            (is_noted service request (ok a) u)
      go (Once.unanswered r u e came) =
          Tally.known (suc runs) r (omega arith) (Ran.ran r path came)
            (is_noted service request r u)
  attempt-Tally {w} n (Tally.known runs r few path old) =
      subst (Tally w n) (sym (Replays-same service request (later_attempt service request r _ old)))
        (Tally.known runs r few path old)

  rolled-Tally :
      {w t : World} (n : ℕ) (state : FamilyState)
      → t.actors request.family ≡ some state
      → Tally w n t
      → Tally w
          (suc n)
          (continue_as_new service (record { family = request.family; state = state }) t)
  rolled-Tally n state runs (Tally.unknown count few path new) =
      Tally.unknown count (omega arith) (Ran.rolled state path runs) (forgotten state _)
  rolled-Tally n state runs (Tally.known count r few path old) =
      Tally.unknown count few (Ran.rolled state path runs) (forgotten state _)

  Attempted-Tally :
      {w t : World} {n : ℕ}
      → w.updates (actor_id request.family) request.update_id ≡ none
      → Attempted w n t
      → Tally w n t
  Attempted-Tally new Attempted.none_yet = Tally.unknown 0 (omega arith) Ran.none_yet new
  Attempted-Tally {n = n} new (Attempted.attempt before) =
      attempt-Tally n (Attempted-Tally new before)
  Attempted-Tally new (Attempted.rolled state before runs) =
      rolled-Tally _ state runs (Attempted-Tally new before)

  -- From a world in which the actor has finished no update with the id of the command, all attempts
  -- at the proxy together, each of which may be lost before or after the update, and with roll-overs
  -- of the actor in between, come to whole runs of the handler, whose outcomes are noted, and the
  -- roll-overs: at most one run for each roll-over and one more, hence at most one as long as the
  -- actor does not roll over.
  pub Attempted-Ran :
      (w t : World) (rolls : ℕ)
      → w.updates (actor_id request.family) request.update_id ≡ none
      → Attempted w rolls t
      → (runs : ℕ) × (runs ≤ suc rolls) × Ran w runs t
  Attempted-Ran w t rolls new path = go (Attempted-Tally new path)
    where
      go : Tally w rolls t → (runs : ℕ) × (runs ≤ suc rolls) × Ran w runs t
      go (Tally.unknown runs few did new) = (runs, omega arith, did)
      go (Tally.known runs r few did old) = (runs, few, did)
