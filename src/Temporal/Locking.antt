-- ===== src/Temporal/Locking.antt =====
-- poc/temporal/actor.py: one actor as the worker interleaves it. Updates arrive at any time, wait
-- until the actor is ready and for its lock, and run step by step under it; the entity workflow
-- itself starts, rolls over under the lock, and stops without it.
pub mod Serial
pub mod Coherence
use flink_control_plane_poc.Prelude.{Bool, true, false, String, ◌≡◌, Option, List, [], ◌∷◌, ◌++◌}
use flink_control_plane_poc.Exec.{Result, ok, err}
use flink_control_plane_poc.Domain.{FamilyState}
use flink_control_plane_poc.Cluster.{MockCluster}
use flink_control_plane_poc.Temporal.Engine.{Failure, Service, UpdateResult}
use flink_control_plane_poc.Temporal.Actor.{FlinkJobFamilyActor, Site, start, roll_over}
use flink_control_plane_poc.Temporal.Proxy.{CommandRequest, handler}
use flink_control_plane_poc.Temporal.Scripts.{Program, done, step, program}

-- `_lock`, with what is left of the handler that holds it
pub data Lock : Type 0 where
  free : Lock
  held : CommandRequest → Program → Lock

-- Where the entity workflow's `run` stands: in its start, in `wait_condition`, or at its end, by
-- `continue_as_new` with its arguments or by a return.
pub data Phase : Type 0 where
  starting ready ended : Phase
  rolled : String × Option FamilyState → Phase

-- What has happened to the site, the latest first.
pub data Event : Type 0 where
  ran : CommandRequest → Result Failure UpdateResult → Event
  changed : MockCluster → Event

-- Who waits for the lock: a handler, or `run` before its roll-over.
pub data Waiter : Type 0 where
  command : CommandRequest → Waiter
  rolling : Waiter

-- The handlers that have arrived wait for `_ready`, in whichever order they are woken; those in the
-- queue wait for the lock, which is given to the first. `expired` is set once the history has grown
-- past its limit, at which `run` leaves its `wait_condition` and joins the queue.
pub record Instance : Type 0 where
  pub phase : Phase
  pub site : Site
  pub lock : Lock
  pub arrived : List CommandRequest
  pub queue : List Waiter
  pub expired : Bool
  pub log : List Event

module _ (service : Service) (family : String) (carried : Option FamilyState)
    (Others : Instance → MockCluster → Type 0) where
  -- The steps of the worker and of the world around the actor, where the history may grow past its
  -- limit at any time, and `Others` says what the actors of other families may make of the cluster.
  pub data Step (i : Instance) : Instance → Type 0 where
    arrive : (c : CommandRequest) → Step i (record i { arrived = i.arrived ++ c ∷ [] })
    begin :
        (actor : FlinkJobFamilyActor) (c : MockCluster)
        → i.phase ≡ Phase.starting
        → start service family carried i.site.files ≡ (ok actor, c)
        → Step i (record i { phase = Phase.ready; site = record { files = c; actor = actor } })
    fail :
        (e : Failure) (c : MockCluster)
        → i.phase ≡ Phase.starting
        → start service family carried i.site.files ≡ (err e, c)
        → Step i (record i { phase = Phase.ended; site = record i.site { files = c } })
    enqueue :
        (before after : List CommandRequest) (c : CommandRequest)
        → i.phase ≡ Phase.ready
        → i.arrived ≡ before ++ c ∷ after
        → Step i (record i { arrived = before ++ after; queue = i.queue ++ Waiter.command c ∷ [] })
    expire :
        i.phase ≡ Phase.ready
        → i.expired ≡ false
        → Step i (record i { expired = true; queue = i.queue ++ Waiter.rolling ∷ [] })
    acquire :
        (after : List Waiter) (c : CommandRequest)
        → i.phase ≡ Phase.ready
        → i.lock ≡ Lock.free
        → i.queue ≡ Waiter.command c ∷ after
        → Step i (record i { lock = Lock.held c (program service c); queue = after })
    advance :
        (c : CommandRequest) (next : Site → Program) (change : Site → Site)
        → i.phase ≡ Phase.ready
        → i.lock ≡ Lock.held c (step next change)
        → Step i (record i { lock = Lock.held c (next i.site); site = change i.site })
    release :
        (c : CommandRequest) (r : Result Failure UpdateResult)
        → i.phase ≡ Phase.ready
        → i.lock ≡ Lock.held c (done r)
        → Step i (record i { lock = Lock.free; log = Event.ran c r ∷ i.log })
    others :
        (c : MockCluster)
        → i.phase ≡ Phase.ready
        → Others i c
        → Step i (record i { site = record i.site { files = c }; log = Event.changed c ∷ i.log })
    roll :
        (after : List Waiter)
        → i.phase ≡ Phase.ready
        → i.lock ≡ Lock.free
        → i.queue ≡ Waiter.rolling ∷ after
        → Step i (record i { phase = Phase.rolled (roll_over i.site.actor); queue = after })
    -- seen by `wait_condition` only
    terminate :
        i.phase ≡ Phase.ready → i.expired ≡ false → Step i (record i { phase = Phase.ended })

  pub data Reach (i : Instance) : Instance → Type 0 where
    here : Reach i i
    next : {j k : Instance} → Reach i j → Step j k → Reach i k
