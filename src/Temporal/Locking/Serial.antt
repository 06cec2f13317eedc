-- ===== src/Temporal/Locking/Serial.antt =====
-- The interleavings of an actor's handlers under its lock, and sequences of whole handlers.
use mathlib.Core.Path.{subst}
use flink_control_plane_poc.Prelude.{String, ◌≡◌, refl, sym, Option, List, [], ◌∷◌}
use flink_control_plane_poc.Exec.{Result, ok}
use flink_control_plane_poc.Domain.{FamilyState}
use flink_control_plane_poc.Cluster.{MockCluster}
use flink_control_plane_poc.Temporal.Engine.{Failure, Service, UpdateResult}
use flink_control_plane_poc.Temporal.Actor.{FlinkJobFamilyActor, Site, start, roll_over}
use flink_control_plane_poc.Temporal.Proxy.{CommandRequest, handler}
use flink_control_plane_poc.Temporal.Scripts.{Program, run_all, program}
use flink_control_plane_poc.Temporal.Scripts.Whole.{run_all-program}
use flink_control_plane_poc.Temporal.Locking.{
  Lock, free, held, Phase, starting, ready, ended, rolled, Event, Instance, Step, arrive, begin,
  enqueue, expire, fail, acquire, advance, release, others, roll, terminate, Reach, here, next,
}

module _ (service : Service) (family : String) (carried : Option FamilyState)
    (Others : Instance → MockCluster → Type 0)
    (apart : (i : Instance) (c : MockCluster) → Others i c → i.lock ≡ Lock.free) where
  abbrev Moves : Instance → Instance → Type 0
  Moves = Step service family carried Others

  abbrev pub Reaches : Instance → Instance → Type 0
  Reaches = Reach service family carried Others

  -- The events one after another, each command by its whole handler.
  pub data Serial : List Event → Site → Type 0 where
    begun :
        (before c : MockCluster) (actor : FlinkJobFamilyActor)
        → start service family carried before ≡ (ok actor, c)
        → Serial [] (record { files = c; actor = actor })
    served :
        (log : List Event) (s t : Site) (c : CommandRequest) (r : Result Failure UpdateResult)
        → Serial log s
        → handler service c s ≡ (r, t)
        → Serial (Event.ran c r ∷ log) t
    changed :
        (log : List Event) (s : Site) (c : MockCluster)
        → Serial log s
        → Serial (Event.changed c ∷ log) (record s { files = c })

  -- The site as it was when the lock was taken, from which the holder is on its way.
  pub record Underway (log : List Event) (site : Site) (c : CommandRequest) (p : Program)
      : Type 0 where
    pub since : Site
    pub serial : Serial log since
    pub on_course : run_all p site ≡ handler service c since

  abbrev pub LockHolds : List Event → Site → Lock → Type 0
  LockHolds log site free = Serial log site
  LockHolds log site (held c p) = Underway log site c p

  abbrev pub PhaseHolds : List Event → Site → Lock → Phase → Type 0
  PhaseHolds log site lock starting = (lock ≡ Lock.free) × (log ≡ [])
  PhaseHolds log site lock ready = LockHolds log site lock
  PhaseHolds log site lock ended = Unit
  PhaseHolds log site lock (rolled args) = Serial log site × (args ≡ roll_over site.actor)

  abbrev pub IsSerial : Instance → Type 0
  IsSerial i = PhaseHolds i.log i.site i.lock i.phase

  with_lock :
      (i : Instance) {l : Lock}
      → i.phase ≡ Phase.ready
      → i.lock ≡ l
      → IsSerial i
      → LockHolds i.log i.site l
  with_lock i at is h =
      subst (LockHolds i.log i.site) is (subst (PhaseHolds i.log i.site i.lock) at h)

  is_ready : (i : Instance) → i.phase ≡ Phase.ready → LockHolds i.log i.site i.lock → IsSerial i
  is_ready i at h = subst (PhaseHolds i.log i.site i.lock) (sym at) h

  Step-IsSerial : {i j : Instance} → Moves i j → IsSerial i → IsSerial j
  unfolding run_all
  Step-IsSerial {i} (arrive c) h = h
  Step-IsSerial {i} (enqueue before after c at came) h = h
  Step-IsSerial {i} (expire at in_time) h = h
  Step-IsSerial {i} (begin actor c at started) h =
      let (unlocked, nothing) = subst (PhaseHolds i.log i.site i.lock) at h in
      let site : Site = record { files = c; actor = actor } in
      subst (LockHolds i.log site) (sym unlocked)
        (subst (λ log. Serial log site) (sym nothing) (begun i.site.files c actor started))
  Step-IsSerial {i} (fail e c at failed) h = tt
  Step-IsSerial {i} (acquire after c at unlocked first) h =
      is_ready (record i { lock = Lock.held c (program service c); queue = after }) at
        (record {
          since = i.site;
          serial = with_lock i at unlocked h;
          on_course = run_all-program service c i.site;
        })
  Step-IsSerial {i} (advance c n change at busy) h =
      let u = with_lock i at busy h in
      is_ready (record i { lock = Lock.held c (n i.site); site = change i.site }) at
        (record { since = u.since; serial = u.serial; on_course = u.on_course })
  Step-IsSerial {i} (release c r at busy) h =
      let u = with_lock i at busy h in
      is_ready (record i { lock = Lock.free; log = Event.ran c r ∷ i.log }) at
        (served i.log u.since i.site c r u.serial (sym u.on_course))
  Step-IsSerial {i} (others c at allowed) h =
      let unlocked = apart i c allowed in
      let site : Site = record i.site { files = c } in
      is_ready (record i { site = site; log = Event.changed c ∷ i.log }) at
        (subst (LockHolds (Event.changed c ∷ i.log) site) (sym unlocked)
          (changed i.log i.site c (with_lock i at unlocked h)))
  Step-IsSerial {i} (roll after at unlocked first) h = (with_lock i at unlocked h, refl)
  Step-IsSerial {i} (terminate at in_time) h = tt

  -- In every state that an actor comes to, however its handlers are interleaved: while the lock is
  -- free, the site is that of the commands that have run, each as a whole, one after another in the
  -- order in which they gave up the lock, with the outcomes that they had; while a handler holds
  -- it, what is left of the handler completes one more command of that order; and an actor that
  -- has rolled over did so between two handlers, with its state of then.
  pub Reach-IsSerial : {i j : Instance} → Reaches i j → IsSerial i → IsSerial j
  Reach-IsSerial here h = h
  Reach-IsSerial (next r st) h = Step-IsSerial st (Reach-IsSerial r h)
