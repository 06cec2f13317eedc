-- ===== src/Temporal/Locking/Coherence/Fleet.antt =====
-- The actors of all families over one cluster, as the worker interleaves them, with the runs
-- that follow a roll-over or an end.
use mathlib.Core.Logic.{if_pos, if_neg}
use mathlib.Core.Path.{subst}
use flink_control_plane_poc.Prelude.{
  false, String, ◌≡◌, ◌≢◌, refl, sym, inl, inr, none, some, List, [], if◌then◌else◌,
}
use flink_control_plane_poc.Prelude.Equality.{◌==◌, string_eq}
use flink_control_plane_poc.Domain.{running}
use flink_control_plane_poc.Cluster.{MockCluster}
use flink_control_plane_poc.Cluster.Frame.{state_of}
use flink_control_plane_poc.Cluster.WellFormed.{IsWellFormed}
use flink_control_plane_poc.Prelude.{Option, List, ◌∙◌}
use flink_control_plane_poc.Domain.{FamilyState}
use flink_control_plane_poc.Temporal.Locking.{Event}
use flink_control_plane_poc.Temporal.Locking.Coherence.System.{when_rolled}
use flink_control_plane_poc.Temporal.Engine.{Service}
use flink_control_plane_poc.Temporal.Locking.{Lock, Phase, Instance, Step}
use flink_control_plane_poc.Temporal.Locking.Coherence.{Relies}
use flink_control_plane_poc.Temporal.Locking.Coherence.System.{
  IsClean, IsInStep, IsInStep-Relies, when_ready, Step-IsInStep, Step-Guarantees,
}

-- The files, the actors by family, and the state that each was started with.
pub record Fleet : Type 0 where
  pub files : MockCluster
  pub carried : String → Option FamilyState
  pub actors : String → Instance

-- The actor of a family, with the files as they are now.
abbrev pub seat : Fleet → String → Instance
seat fleet family =
    let i = fleet.actors family in record i { site = record i.site { files = fleet.files } }

abbrev pub set_at : {A : Type 0} → String → A → (String → A) → String → A
set_at family a at other = if other == family then a else at other

-- `__init__` of each actor, with the log of what has happened to it
unfoldable pub new_actor : MockCluster → List Event → Instance
new_actor c log = record {
  phase = Phase.starting;
  site = record { files = c; actor = record { family = ""; state = running } };
  lock = Lock.free;
  arrived = [];
  queue = [];
  expired = false;
  log = log;
}

unfoldable pub fresh : MockCluster → Fleet
unfolding new_actor
fresh c = record { files = c; carried = λ _. none; actors = λ _. new_actor c [] }

-- In the fleet nobody else writes.
abbrev pub Nobody : Instance → MockCluster → Type 0
Nobody i c = ⊥

Nobody-Relies :
    (family : String) (i : Instance) (c : MockCluster) → Nobody i c → Relies family i.site.files c
Nobody-Relies family i c never = absurd never

none-some : {P : Type 0} (state : FamilyState) → none ≡ some state → P
none-some state is = absurd cc

module _ (service : Service) where
  -- A step of one actor; the next run of an actor that has rolled over, with the arguments that it
  -- left; or the start of a new actor after one that has ended.
  pub data FleetStep (fleet : Fleet) : Fleet → Type 0 where
    turn :
        (family : String) (i : Instance)
        → Step service family (fleet.carried family) Nobody (seat fleet family) i
        → FleetStep fleet
            (record fleet { files = i.site.files; actors = set_at family i fleet.actors })
    renew :
        (family : String) (state : Option FamilyState)
        → (fleet.actors family).phase ≡ Phase.rolled (family, state)
        → FleetStep fleet (record fleet {
          carried = set_at family state fleet.carried;
          actors = set_at family (new_actor fleet.files (fleet.actors family).log) fleet.actors;
        })
    restart :
        (family : String)
        → (fleet.actors family).phase ≡ Phase.ended
        → FleetStep fleet (record fleet {
          carried = set_at family none fleet.carried;
          actors = set_at family (new_actor fleet.files []) fleet.actors;
        })

  pub data FleetReach (fleet : Fleet) : Fleet → Type 0 where
    here : FleetReach fleet fleet
    next : {mid end : Fleet} → FleetReach fleet mid → FleetStep mid end → FleetReach fleet end

  abbrev Fits : String → Option FamilyState → Instance → Type 0
  Fits family carried = IsInStep service family carried Nobody (Nobody-Relies family)

  abbrev IsFitting : Fleet → Type 0
  IsFitting fleet = (family : String) → Fits family (fleet.carried family) (seat fleet family)

  new_actor-Fits :
      (family : String) (carried : Option FamilyState) (c : MockCluster) (log : List Event)
      → IsWellFormed c
      → ((state : FamilyState)
          → carried ≡ some state
          → IsClean log
          → state_of c family ≡ some state)
      → Fits family carried (new_actor c log)
  unfolding new_actor
  new_actor-Fits family carried c log formed was = (formed, (refl, was))

  FleetStep-IsFitting : {f g : Fleet} → FleetStep f g → IsFitting f → IsFitting g
  unfolding new_actor
  FleetStep-IsFitting {f} (turn family i st) fits other = elim (string_eq.dec other family) [
    | yes same ↦ rw (if_pos _ same) (
        subst (λ x. Fits x (f.carried x) i) (sym same)
          (Step-IsInStep service family (f.carried family) Nobody (Nobody-Relies family) st
            (fits family)))
    | no differ ↦ rw (if_neg _ differ) (
        IsInStep-Relies service other (f.carried other) Nobody (Nobody-Relies other) (seat f other)
          i.site.files (rely differ) (fits other))
  ]
    where
      rely : other ≢ family → Relies other f.files i.site.files
      rely differ =
          elim (Step-Guarantees service family (f.carried family) Nobody (Nobody-Relies family) st
            (fits family) other differ) [ inl kept ↦ kept | inr never ↦ absurd never ]
  FleetStep-IsFitting {f} (renew family state at) fits other = elim (string_eq.dec other family) [
    | yes same ↦ rw (if_pos _ same) (
        subst (λ x. Fits x state (new_actor f.files (f.actors family).log)) (sym same)
          (new_actor-Fits family state f.files (f.actors family).log (fits family).0
            (λ carried is clean. rolled clean ∙ is)))
    | no differ ↦ rw (if_neg _ differ) (fits other)
  ]
    where
      rolled : IsClean (f.actors family).log → state_of f.files family ≡ state
      rolled clean =
          when_rolled service family (f.carried family) Nobody (Nobody-Relies family)
            (seat f family) (family, state) at (fits family) clean
  FleetStep-IsFitting {f} (restart family at) fits other = elim (string_eq.dec other family) [
    | yes same ↦ rw (if_pos _ same) (
        subst (λ x. Fits x none (new_actor f.files [])) (sym same)
          (new_actor-Fits family none f.files [] (fits family).0
            (λ state is _. none-some state is)))
    | no differ ↦ rw (if_neg _ differ) (fits other)
  ]

  fresh-IsFitting : (c : MockCluster) → IsWellFormed c → IsFitting (fresh c)
  unfolding fresh
  fresh-IsFitting c formed family =
      new_actor-Fits family none c [] formed (λ state is clean. none-some state is)

  FleetReach-IsFitting : {f g : Fleet} → FleetReach f g → IsFitting f → IsFitting g
  FleetReach-IsFitting here fits = fits
  FleetReach-IsFitting (next r st) fits = FleetStep-IsFitting st (FleetReach-IsFitting r fits)

  -- Whatever the actors of all families do to one cluster, from well-formed files, in any order of
  -- the steps of their handlers, with roll-overs and new starts in between: the files stay well
  -- formed, and every actor that is ready and whose lock is free remembers the stored state of its
  -- family, unless one of its commands has raised, before or after a roll-over, with no restore that
  -- returned since.
  pub fresh-IsCoherent :
      (c : MockCluster) (fleet : Fleet) (family : String)
      → IsWellFormed c
      → FleetReach (fresh c) fleet
      → (fleet.actors family).phase ≡ Phase.ready
      → (fleet.actors family).lock ≡ Lock.free
      → IsClean (fleet.actors family).log
      → IsWellFormed fleet.files
        × (state_of fleet.files family ≡ some (fleet.actors family).site.actor.state)
  fresh-IsCoherent c fleet family formed r at unlocked clean =
      let h = FleetReach-IsFitting r (fresh-IsFitting c formed) family in
      (
        h.0,
        (when_ready service family (fleet.carried family) Nobody (Nobody-Relies family)
              (seat fleet family) at unlocked h).1
            clean,
      )
