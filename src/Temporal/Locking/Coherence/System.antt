-- ===== src/Temporal/Locking/Coherence/System.antt =====
-- The state that the actor remembers, in every state that it comes to.
use mathlib.Core.Path.{subst}
use flink_control_plane_poc.Prelude.{
  String, ◌≡◌, ◌≢◌, refl, sym, ap, ◌∙◌, ◌⊎◌, inl, inr, Option, none, some, List,
}
use flink_control_plane_poc.Prelude.Equality.{list_eq, string_eq}
use flink_control_plane_poc.Exec.{Result, ok, err}
use flink_control_plane_poc.Domain.{FamilyState, state_eq, FamilyStatus}
use flink_control_plane_poc.Cluster.{MockCluster}
use flink_control_plane_poc.Cluster.Frame.{state_of}
use flink_control_plane_poc.Cluster.WellFormed.{IsWellFormed}
use flink_control_plane_poc.Cluster.Changes.{view_found}
use flink_control_plane_poc.Temporal.Engine.{Failure, Service}
use flink_control_plane_poc.Temporal.Actor.{Site, cluster_retry}
use flink_control_plane_poc.Temporal.Proxy.{CommandRequest, FamilyCommand}
use flink_control_plane_poc.Temporal.Executions.{Reads, execute_activity-Reads}
use flink_control_plane_poc.Temporal.Scripts.{Program, done, step, program}
use flink_control_plane_poc.Temporal.Actor.{FlinkJobFamilyActor, start, roll_over}
use flink_control_plane_poc.Temporal.Locking.Coherence.Scripts.{program-IsSound}
use flink_control_plane_poc.Temporal.Locking.{
  Lock, free, held, Phase, starting, ready, ended, rolled, Event, Instance, Step, arrive, begin,
  enqueue, expire, fail, acquire, advance, release, others, roll, terminate, Reach, here, next,
}
use flink_control_plane_poc.Prelude.{[], ◌∷◌}
use flink_control_plane_poc.Temporal.Locking.Coherence.{Relies, Guarantees, IsCoherent, IsSound}

-- No command of the log has raised since the last restore of it that returned.
abbrev pub IsClean : List Event → Type 0
IsClean [] = Unit
IsClean (Event.ran c (ok a) ∷ rest) = (c.command ≡ FamilyCommand.restore) ⊎ IsClean rest
IsClean (Event.ran c (err e) ∷ rest) = ⊥
IsClean (Event.changed c ∷ rest) = IsClean rest

-- What the start makes of the files and of the stored state.
data Started (G : Type 0) (family : String) (c : MockCluster)
    : Result Failure FlinkJobFamilyActor × MockCluster → Type 0 where
  adopted :
      (state : FamilyState)
      → (G → state_of c family ≡ some state)
      → Started G family c (ok (record { family = family; state = state }), c)
  failed : (e : Failure) → Started G family c (err e, c)

start-Started :
    (G : Type 0) (service : Service) (family : String) (carried : Option FamilyState)
    (c : MockCluster)
    → ((state : FamilyState) → carried ≡ some state → G → state_of c family ≡ some state)
    → Started G family c (start service family carried c)
unfolding start
start-Started G service family (some state) c was = Started.adopted state (was state refl)
start-Started G service family none c was =
    go (execute_activity-Reads family cluster_retry service c)
  where
    go :
        {r : Result Failure FamilyStatus × MockCluster}
        → Reads family cluster_retry c r
        → Started G family c (elim r.0 [
          | ok status ↦ (ok (record { family = family; state = status.state }), r.1)
          | err e ↦ (err e, r.1)
        ])
    go (Reads.known status found) =
        Started.adopted status.state (λ _. view_found (λ x. x.state) family status c found)
    go (Reads.failed e _) = Started.failed e

-- The files and the actor after a start that returns.
Started-returned :
    {G : Type 0} {family : String} {c c' : MockCluster} {actor : FlinkJobFamilyActor}
    → Started G family c (ok actor, c')
    → (c' ≡ c) × (actor.family ≡ family) × (G → state_of c family ≡ some actor.state)
Started-returned (Started.adopted state stored) = (refl, refl, stored)

Started-files :
    {G : Type 0} {family : String} {c : MockCluster}
    {r : Result Failure FlinkJobFamilyActor × MockCluster}
    → Started G family c r
    → r.1 ≡ c
Started-files (Started.adopted state stored) = refl
Started-files (Started.failed e) = refl

module _ (service : Service) (family : String) (carried : Option FamilyState)
    (Others : Instance → MockCluster → Type 0)
    (kind : (i : Instance) (c : MockCluster) → Others i c → Relies family i.site.files c) where
  abbrev Moves : Instance → Instance → Type 0
  Moves = Step service family carried Others

  abbrev pub Reaches : Instance → Instance → Type 0
  Reaches = Reach service family carried Others

  abbrev pub LockHolds : List Event → Site → Lock → Type 0
  LockHolds log site free = IsClean log → IsCoherent family site
  LockHolds log site (held c p) =
      IsSound family service ((c.command ≡ FamilyCommand.restore) ⊎ IsClean log) p site

  abbrev pub PhaseHolds : List Event → Site → Lock → Phase → Type 0
  PhaseHolds log site lock starting =
      (lock ≡ Lock.free)
      × ((state : FamilyState)
          → carried ≡ some state
          → IsClean log
          → state_of site.files family ≡ some state)
  PhaseHolds log site lock ready = (site.actor.family ≡ family) × LockHolds log site lock
  PhaseHolds log site lock ended = Unit
  PhaseHolds log site lock (rolled args) =
      (args.0 ≡ family) × (IsClean log → state_of site.files family ≡ args.1)

  abbrev pub IsInStep : Instance → Type 0
  IsInStep i = IsWellFormed i.site.files × PhaseHolds i.log i.site i.lock i.phase

  pub when_ready :
      (i : Instance) {l : Lock}
      → i.phase ≡ Phase.ready
      → i.lock ≡ l
      → IsInStep i
      → (i.site.actor.family ≡ family) × LockHolds i.log i.site l
  when_ready i at is h =
      let (mine, rest) = subst (PhaseHolds i.log i.site i.lock) at h.1 in
      (mine, subst (LockHolds i.log i.site) is rest)

  pub when_rolled :
      (i : Instance) (args : String × Option FamilyState)
      → i.phase ≡ Phase.rolled args
      → IsInStep i
      → IsClean i.log
      → state_of i.site.files family ≡ args.1
  when_rolled i args at h = (subst (PhaseHolds i.log i.site i.lock) at h.1).1

  is_ready :
      (i : Instance)
      → i.phase ≡ Phase.ready
      → IsWellFormed i.site.files
      → i.site.actor.family ≡ family
      → LockHolds i.log i.site i.lock
      → IsInStep i
  is_ready i at formed mine h = (formed, subst (PhaseHolds i.log i.site i.lock) (sym at) (mine, h))

  -- What the others do under the rely, the lock's holder has allowed for.
  LockHolds-Relies :
      (log : List Event) (s : Site) (c : MockCluster) (l : Lock)
      → Relies family s.files c
      → LockHolds log s l
      → LockHolds log (record s { files = c }) l
  LockHolds-Relies log s c free rely h = λ clean. rely.1 ∙ h clean
  LockHolds-Relies log s c (held r (done (ok a))) rely h = λ clean. rely.1 ∙ h clean
  LockHolds-Relies log s c (held r (done (err e))) rely h = tt
  LockHolds-Relies log s c (held r (step n change)) rely h =
      λ c' rely'. h c' (rely'.0, rely'.1 ∙ rely.1)

  -- The log of it does not count.
  LockHolds-changed :
      (log : List Event) (s : Site) (c : MockCluster) (l : Lock)
      → LockHolds log s l
      → LockHolds (Event.changed c ∷ log) s l
  LockHolds-changed log s c free h = h
  LockHolds-changed log s c (held r p) h = h

  sound_step :
      (i : Instance) (c : CommandRequest) (n : Site → Program) (change : Site → Site)
      → i.phase ≡ Phase.ready
      → i.lock ≡ Lock.held c (step n change)
      → IsInStep i
      → Guarantees family i.site.files (change i.site)
        × LockHolds i.log (change i.site) (Lock.held c (n i.site))
  sound_step i c n change at busy h =
      let (mine, sound) = when_ready i at busy h in sound i.site.files (h.0, refl)

  start_of-Started :
      (i : Instance) {r : Result Failure FlinkJobFamilyActor × MockCluster}
      → i.phase ≡ Phase.starting
      → start service family carried i.site.files ≡ r
      → IsInStep i
      → Started (IsClean i.log) family i.site.files r
  start_of-Started i at came h =
      let (_, was) = subst (PhaseHolds i.log i.site i.lock) at h.1 in
      subst (Started (IsClean i.log) family i.site.files) came
        (start-Started (IsClean i.log) service family carried i.site.files was)

  pub Step-IsInStep : {i j : Instance} → Moves i j → IsInStep i → IsInStep j
  unfolding roll_over
  Step-IsInStep {i} (arrive c) h = h
  Step-IsInStep {i} (enqueue before after c at came) h = h
  Step-IsInStep {i} (expire at in_time) h = h
  Step-IsInStep {i} (begin actor c at started) h =
      let (unlocked, _) = subst (PhaseHolds i.log i.site i.lock) at h.1 in
      let (same, mine, stored) = Started-returned (start_of-Started i at started h) in
      let site : Site = record { files = c; actor = actor } in
      (
        subst IsWellFormed (sym same) h.0,
        (
          mine,
          subst (LockHolds i.log site) (sym unlocked) (λ clean.
              subst (λ x. state_of x family ≡ some actor.state) (sym same) (stored clean)),
        ),
      )
  Step-IsInStep {i} (fail e c at broke) h =
      let same = Started-files (start_of-Started i at broke h) in
      (subst IsWellFormed (sym same) h.0, tt)
  Step-IsInStep {i} (acquire after c at unlocked first) h =
      let (mine, coherent) = when_ready i at unlocked h in
      is_ready (record i { lock = Lock.held c (program service c); queue = after }) at h.0 mine
        (program-IsSound family service (IsClean i.log) c i.site mine coherent)
  Step-IsInStep {i} (advance c n change at busy) h =
      let (g, later) = sound_step i c n change at busy h in
      is_ready (record i { lock = Lock.held c (n i.site); site = change i.site }) at g.0 g.1 later
  Step-IsInStep {i} (release c (ok a) at busy) h =
      let (mine, sound) = when_ready i at busy h in
      is_ready (record i { lock = Lock.free; log = Event.ran c (ok a) ∷ i.log }) at h.0 mine sound
  Step-IsInStep {i} (release c (err e) at busy) h =
      let (mine, _) = when_ready i at busy h in
      is_ready (record i { lock = Lock.free; log = Event.ran c (err e) ∷ i.log }) at h.0 mine
        (λ no. absurd no)
  Step-IsInStep {i} (others c at allowed) h =
      let (mine, course) = when_ready i at refl h in
      let rely = kind i c allowed in
      is_ready (record i { site = record i.site { files = c }; log = Event.changed c ∷ i.log }) at
        rely.0 mine
        (LockHolds-changed i.log (record i.site { files = c }) c i.lock
          (LockHolds-Relies i.log i.site c i.lock rely course))
  Step-IsInStep {i} (roll after at unlocked first) h =
      let (mine, coherent) = when_ready i at unlocked h in (h.0, (mine, coherent))
  Step-IsInStep {i} (terminate at in_time) h = (h.0, tt)

  -- Another actor has written.
  pub IsInStep-Relies :
      (i : Instance) (c : MockCluster)
      → Relies family i.site.files c
      → IsInStep i
      → IsInStep (record i { site = record i.site { files = c } })
  IsInStep-Relies i c rely h = (rely.0, go i.phase h.1)
    where
      go :
          (phase : Phase)
          → PhaseHolds i.log i.site i.lock phase
          → PhaseHolds i.log (record i.site { files = c }) i.lock phase
      go Phase.starting (unlocked, was) = (unlocked, λ state is clean. rely.1 ∙ was state is clean)
      go Phase.ready (mine, course) = (mine, LockHolds-Relies i.log i.site c i.lock rely course)
      go Phase.ended h = tt
      go (Phase.rolled args) (mine, stored) = (mine, λ clean. rely.1 ∙ stored clean)

  -- In every state that an actor comes to, whatever the others write to the cluster between any two
  -- steps of its handlers, as long as they keep the files well formed and leave the state of its
  -- family alone: the files are well formed; while the lock is free, the actor remembers the stored
  -- state of its family, unless a command of its log has raised and no restore has returned since;
  -- while a handler holds the lock, each of its steps keeps the files well formed and the states of
  -- all other families, and if it is a restore, or no command has raised since the last one, its
  -- return leaves the remembered state equal to the stored one; and the state that is carried across
  -- a roll-over is the stored one under the same condition.
  pub Reach-IsInStep : {i j : Instance} → Reaches i j → IsInStep i → IsInStep j
  Reach-IsInStep here h = h
  Reach-IsInStep (next r st) h = Step-IsInStep st (Reach-IsInStep r h)

  -- Whatever an actor of one family does by itself, the actors of the others may rely on: each of
  -- its steps keeps the files well formed and leaves the states of all other families alone.
  pub Step-Guarantees :
      {i j : Instance}
      → Moves i j
      → IsInStep i
      → (other : String) → other ≢ family
      → Relies other i.site.files j.site.files ⊎ Others i j.site.files
  Step-Guarantees {i} (arrive c) h other ne = inl (h.0, refl)
  Step-Guarantees {i} (enqueue before after c at came) h other ne = inl (h.0, refl)
  Step-Guarantees {i} (expire at in_time) h other ne = inl (h.0, refl)
  Step-Guarantees {i} (begin actor c at started) h other ne =
      let same = Started-files (start_of-Started i at started h) in
      inl (subst IsWellFormed (sym same) h.0, ap (λ x. state_of x other) same)
  Step-Guarantees {i} (fail e c at broke) h other ne =
      let same = Started-files (start_of-Started i at broke h) in
      inl (subst IsWellFormed (sym same) h.0, ap (λ x. state_of x other) same)
  Step-Guarantees {i} (acquire after c at unlocked first) h other ne = inl (h.0, refl)
  Step-Guarantees {i} (advance c n change at busy) h other ne =
      let (g, _) = sound_step i c n change at busy h in inl (g.0, g.2 other ne)
  Step-Guarantees {i} (release c r at busy) h other ne = inl (h.0, refl)
  Step-Guarantees {i} (others c at allowed) h other ne = inr allowed
  Step-Guarantees {i} (roll after at unlocked first) h other ne = inl (h.0, refl)
  Step-Guarantees {i} (terminate at in_time) h other ne = inl (h.0, refl)
