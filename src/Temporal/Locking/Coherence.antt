-- ===== src/Temporal/Locking/Coherence.antt =====
-- The state that an actor remembers, while the actors of other families write to the cluster
-- between any two steps of its handlers: a rely-guarantee argument over the scripts.
pub mod Scripts
pub mod System
pub mod Fleet
use mathlib.Core.Path.{subst}
use flink_control_plane_poc.Prelude.{String, ◌≡◌, ◌≢◌, refl, sym, Option, some, List}
use flink_control_plane_poc.Exec.{Result, ok, err, Ensures, gets, modify}
use flink_control_plane_poc.Domain.{FamilyState, running, suspended, FamilyStatus}
use flink_control_plane_poc.Cluster.{MockCluster}
use flink_control_plane_poc.Cluster
use flink_control_plane_poc.Cluster.Attempt.Operations.{
  trigger_savepoint-Attempt, suspend_job-Attempt, resume_job-Attempt,
}
use flink_control_plane_poc.Cluster.Frame.{state_of}
use flink_control_plane_poc.Cluster.WellFormed.{IsWellFormed}
use flink_control_plane_poc.Cluster.Changes.{
  OnlyState, OnlyDatatypes, OnlyState-refl, OnlyDatatypes-refl, savepoint-Ensures, suspend-Ensures,
  resume-Ensures, view_found,
}
use flink_control_plane_poc.Temporal.Engine.{Activity, Failure, Service}
use flink_control_plane_poc.Temporal.Activities
use flink_control_plane_poc.Temporal.Actor.{Site, Handler, set_state, execute, cluster_retry}
use flink_control_plane_poc.Temporal.Actor
use flink_control_plane_poc.Temporal.Executions.{on_cluster-Ensures, Reads, execute_activity-Reads}
use flink_control_plane_poc.Temporal.Handlers.{execute-Ensures, patch-returns}
use flink_control_plane_poc.Temporal.Scripts.{
  Program, done, step, Script, act, give, ◌>>=◌, script, program,
}

-- Assertions that the others cannot break: on the stored state and on the remembered one.
abbrev pub View : Type 1
View = Option FamilyState → FamilyState → Type 0

abbrev pub Anything : View
Anything x y = Unit

abbrev pub Remembers : Type 0 → View
Remembers G x y = G → x ≡ some y

abbrev pub Stores : FamilyState → View
Stores state x y = x ≡ some state

module _ (family : String) where
  -- What an actor relies on: the others keep the files well formed and the family's state.
  abbrev pub Relies : MockCluster → MockCluster → Type 0
  Relies before after = IsWellFormed after × (state_of after family ≡ state_of before family)

  -- What it guarantees in turn, by each of its steps.
  abbrev pub Guarantees : MockCluster → Site → Type 0
  Guarantees before s =
      IsWellFormed s.files
      × (s.actor.family ≡ family)
      × ((other : String) → other ≢ family → state_of s.files other ≡ state_of before other)

  abbrev pub IsCoherent : Site → Type 0
  IsCoherent s = state_of s.files family ≡ some s.actor.state

  abbrev pub At : View → Site → Type 0
  At P s = P (state_of s.files family) s.actor.state

  -- How one step ends.
  data Acts {A : Type 0} (before : MockCluster) (Q : A → View)
      : Result Failure A × Site → Type 0 where
    returned : (a : A) (s : Site) → Guarantees before s → At (Q a) s → Acts before Q (ok a, s)
    raised : (e : Failure) (s : Site) → Guarantees before s → Acts before Q (err e, s)

  changes-Acts :
      {A : Type 0} {before : MockCluster} {P : Site → Type 0} {Q : A → View}
      {r : Result Failure A × Site}
      → Ensures (λ t. OnlyState family before t.files × (t.actor.family ≡ family)) P r
      → ((a : A) (t : Site) → P t → At (Q a) t)
      → Acts before Q r
  changes-Acts (Ensures.returned a t i p) post =
      Acts.returned a t (i.0.formed, i.1, i.0.others) (post a t p)
  changes-Acts (Ensures.raised e t i) post = Acts.raised e t (i.0.formed, i.1, i.0.others)

  patches-Acts :
      {A : Type 0} {s : Site} {D : Site → Type 0} {P : View} {r : Result Failure A × Site}
      → Ensures
          (λ t. OnlyDatatypes family s.files t.files × (t.actor.family ≡ family))
          (λ t. D t × (t.actor ≡ s.actor))
          r
      → At P s
      → Acts s.files (λ _. P) r
  patches-Acts {s = s} {P = P} (Ensures.returned a t i p) before =
      Acts.returned a t (i.0.formed, i.1, λ other _. i.0.states other)
        (subst (λ x. P x t.actor.state) (sym (i.0.states family))
          (subst (λ x. P (state_of s.files family) x.state) (sym p.1) before))
  patches-Acts (Ensures.raised e t i) before =
      Acts.raised e t (i.0.formed, i.1, λ other _. i.0.states other)

  -- `G` is what the scripts start from, where they need anything.
  module _ (service : Service) (G : Type 0) where
    -- Whatever the others do before each step, every step keeps the guarantee, and a program that
    -- returns leaves the actor coherent, given `G`.
    abbrev pub IsSound : Program → Site → Type 0
    IsSound (done (ok a)) s = G → IsCoherent s
    IsSound (done (err e)) s = Unit
    IsSound (step next change) s =
        (c : MockCluster)
        → Relies s.files c
        → Guarantees c (change (record s { files = c }))
          × IsSound (next (record s { files = c })) (change (record s { files = c }))

    -- From `P`, a script comes to what follows it with `Q`.
    pub record Keeps {A : Type 0} (m : Script A) (P : View) (Q : A → View) : Type 0 where
      pub sound :
          (k : A → Program) (s : Site)
          → s.actor.family ≡ family
          → At P s
          → ((a : A) (t : Site) → t.actor.family ≡ family → At (Q a) t → IsSound (k a) t)
          → IsSound (m k) s

    Keeps-act :
        {A : Type 0} {P : View} {Q : A → View} (h : Handler A)
        → ((s : Site)
            → IsWellFormed s.files
            → s.actor.family ≡ family
            → At P s
            → Acts s.files Q (h s))
        → Keeps (act h) P Q
    unfolding act
    Keeps-act {A} {P} {Q} h each = record {
      sound = λ k s mine p later c (formed, same).
          let s' : Site = record s { files = c } in
          go k later (each s' formed mine (subst (λ x. P x s.actor.state) (sym same) p));
    }
      where
        go :
            {c : MockCluster} (k : A → Program)
            → ((a : A) (t : Site) → t.actor.family ≡ family → At (Q a) t → IsSound (k a) t)
            → {r : Result Failure A × Site} → Acts c Q r
            → Guarantees c r.1 × IsSound (elim r.0 [ ok a ↦ k a | err e ↦ done (err e) ]) r.1
        go k later (Acts.returned a t g q) = (g, later a t g.1 q)
        go k later (Acts.raised e t g) = (g, tt)

    pub Keeps-give :
        {A : Type 0} {P : View} {Q : A → View} (a : A)
        → ((x : Option FamilyState) (y : FamilyState) → P x y → Q a x y)
        → Keeps (give a) P Q
    Keeps-give a weaker = record { sound = λ k s mine p later. later a s mine (weaker _ _ p) }

    pub Keeps-bind :
        {A B : Type 0} {m : Script A} {f : A → Script B} {P : View} {Q : A → View} {R : B → View}
        → Keeps m P Q
        → ((a : A) → Keeps (f a) (Q a) R)
        → Keeps (m >>= f) P R
    Keeps-bind {f = f} first rest = record {
      sound = λ k s mine p later.
          first.sound (λ a. f a k) s mine p
            (λ a t mine' q. let next = rest a in next.sound k t mine' q later);
    }

    -- An activity on the state of the family.
    Keeps-execute :
        {A : Type 0} {P : View} {Q : A → View} {D : MockCluster → Type 0}
        (activity : String → Activity MockCluster A)
        → ((c₀ c : MockCluster)
            → OnlyState family c₀ c
            → Ensures (OnlyState family c₀) D (activity family c))
        → ((a : A) (t : Site) → D t.files → At (Q a) t)
        → Keeps (act (execute service activity)) P Q
    Keeps-execute activity each post = Keeps-act (execute service activity) (λ s formed mine _.
        changes-Acts
          (execute-Ensures service family s.files activity (each s.files) s
            (OnlyState-refl family s.files formed, mine))
          (λ a t d. post a t d.0))

    pub savepoint-Keeps :
        {P : View} → Keeps (act (execute service Activities.trigger_savepoint)) P (λ _. Anything)
    unfolding Activities.trigger_savepoint
    savepoint-Keeps =
        Keeps-execute Activities.trigger_savepoint
          (λ c₀ c h.
            on_cluster-Ensures (Cluster.trigger_savepoint family) c
              (savepoint-Ensures c₀ (trigger_savepoint-Attempt family c) h))
          (λ _ _ _. tt)

    pub suspend_job-Keeps :
        {P : View} → Keeps (act (execute service Activities.suspend_job)) P (λ _. Stores suspended)
    unfolding Activities.suspend_job
    suspend_job-Keeps =
        Keeps-execute Activities.suspend_job
          (λ c₀ c h.
            on_cluster-Ensures (Cluster.suspend_job family) c
              (suspend-Ensures c₀ (suspend_job-Attempt family c) h))
          (λ _ _ stored. stored)

    pub resume_job-Keeps :
        {P : View} → Keeps (act (execute service Activities.resume_job)) P (λ _. Stores running)
    unfolding Activities.resume_job
    resume_job-Keeps =
        Keeps-execute Activities.resume_job
          (λ c₀ c h.
            on_cluster-Ensures (Cluster.resume_job family) c
              (resume-Ensures c₀ (resume_job-Attempt family c) h))
          (λ _ _ stored. stored)

    pub set_state-Keeps :
        (state : FamilyState)
        → Keeps (act (modify (set_state state))) (Stores state) (λ _. Remembers G)
    set_state-Keeps state = Keeps-act (modify (set_state state)) (λ s formed mine stored.
        Acts.returned tt (set_state state s) (formed, mine, λ _ _. refl) (λ _. stored))

    pub state-Keeps : Keeps (act (gets (λ s. s.actor.state))) (Remembers G) (λ _. Remembers G)
    state-Keeps =
        Keeps-act (gets (λ s. s.actor.state))
          (λ s formed mine before. Acts.returned s.actor.state s (formed, mine, λ _ _. refl) before)

    pub patch-Keeps :
        {P : View} (datatypes : List String)
        → Keeps (act (Actor.patch service datatypes)) P (λ _. P)
    patch-Keeps {P} datatypes = Keeps-act (Actor.patch service datatypes) (λ s formed mine before.
        patches-Acts {P = P}
          (patch-returns service family s.files datatypes s
            (OnlyDatatypes-refl family s.files formed, mine))
          before)

    pub read_status-Keeps :
        {P : View}
        → Keeps (act (execute service Activities.read_status)) P (λ status. Stores status.state)
    unfolding execute
    read_status-Keeps = Keeps-act (execute service Activities.read_status) (λ s formed mine _.
        go s formed mine (
          subst
            (λ f.
              Reads family cluster_retry s.files
                (service.execute_activity cluster_retry (Activities.read_status f) s.files))
            (sym mine) (execute_activity-Reads family cluster_retry service s.files)))
      where
        go :
            (s : Site)
            → IsWellFormed s.files
            → s.actor.family ≡ family
            → {r : Result Failure FamilyStatus × MockCluster} → Reads family cluster_retry s.files r
            → Acts s.files (λ status. Stores status.state) (r.0, record s { files = r.1 })
        go s formed mine (Reads.known status found) =
            Acts.returned status s (formed, mine, λ _ _. refl)
              (view_found (λ x. x.state) family status s.files found)
        go s formed mine (Reads.failed e _) = Acts.raised e s (formed, mine, λ _ _. refl)
