-- ===== src/Restate/Contract.antt =====
-- What the handlers of a Restate actor change, and what they have reached when they return.
use mathlib.Core.Path.{subst}
use flink_control_plane_poc.Prelude.{String, ◌≡◌, refl, sym, ap, ◌∙◌, ◌≢◌, some, List, arith}
use flink_control_plane_poc.Prelude.Equality.{string_eq, list_eq}
use flink_control_plane_poc.Exec.{Result, ok, err, modify, ◌>>◌, Ensures, Ensures-bind, Ensures-map}
use flink_control_plane_poc.Domain.{FamilyState, running, suspended, state_eq}
use flink_control_plane_poc.Cluster.{MockCluster}
use flink_control_plane_poc.Cluster
use flink_control_plane_poc.Cluster.Attempt.Operations.{
  trigger_savepoint-Attempt, suspend_job-Attempt, resume_job-Attempt, patch_configmap-Attempt,
}
use flink_control_plane_poc.Cluster.Frame.{state_of, datatypes_of}
use flink_control_plane_poc.Cluster.WellFormed.{IsWellFormed}
use flink_control_plane_poc.Cluster.Changes.{
  OnlyState, OnlyDatatypes, OnlyState-refl, savepoint-Ensures, suspend-Ensures, resume-Ensures,
  patch-Ensures,
}
use flink_control_plane_poc.Restate.Steps.{Step, Engine, Tries-Ensures, call-Ensures}
use flink_control_plane_poc.Restate.Steps
use flink_control_plane_poc.Restate.Actor.{
  Store, set, run_typed, suspend, start, pause_from, pause, resume_from, resume, patch_config,
  enter,
}
use flink_control_plane_poc.Restate.Reads.{Caches, IsCached, cached_state-Caches}

module _ (engine : Engine) where
  -- A durable step keeps what its attempts keep, and the caches.
  run_typed-Ensures :
      {A : Type 0} {I Q : MockCluster → Type 0} (fn : Step A)
      → ((c : MockCluster) → I c → Ensures I Q (fn c))
      → (s : Store) → I s.files
      → Ensures (λ t. I t.files × (t.cache ≡ s.cache)) (λ t. Q t.files) (run_typed engine fn s)
  unfolding run_typed
  run_typed-Ensures {A} {I} {Q} fn each s i =
      go (Tries-Ensures fn each (engine.run_typed-Tries 4 fn s.files) i)
    where
      go :
          {r : Result String A × MockCluster}
          → Ensures I Q r
          → Ensures
              (λ t. I t.files × (t.cache ≡ s.cache))
              (λ t. Q t.files)
              (r.0, record s { files = r.1 })
      go (Ensures.returned a c j q) = Ensures.returned a _ (j, refl) q
      go (Ensures.raised e c j) = Ensures.raised e _ (j, refl)

  -- What the actor of a family may do: change its state, and forget its own suspension.
  abbrev pub Keeps : String → MockCluster → Store → Store → Type 0
  Keeps family c₀ s t =
      OnlyState family c₀ t.files
      × ((other : String)
          → other ≢ family
          → s.cache other ≡ some suspended
          → t.cache other ≡ some suspended)

  module _ (family : String) (c₀ : MockCluster) (s₀ : Store) where
    step_state :
        {A : Type 0} {Q : MockCluster → Type 0} (fn : Step A)
        → ((c : MockCluster) → OnlyState family c₀ c → Ensures (OnlyState family c₀) Q (fn c))
        → (s : Store) → Keeps family c₀ s₀ s
        → Ensures (Keeps family c₀ s₀) (λ t. Q t.files) (run_typed engine fn s)
    step_state fn each s (i, kept) =
        Ensures-map
          (λ t h. (h.0, λ other ne paused. ap (λ cache. cache other) h.1 ∙ kept other ne paused))
          (λ t h q. q) (run_typed-Ensures fn each s i)

    pub set-Keeps :
        (state : FamilyState) (s : Store)
        → Keeps family c₀ s₀ s
        → Keeps family c₀ s₀ (set family state s)
    set-Keeps state s (i, kept) = (i, λ other ne paused. ground (arith, ne, kept other ne paused))

    set_last :
        (state : FamilyState) (s : Store)
        → Keeps family c₀ s₀ s
        → state_of s.files family ≡ some state
        → Ensures {E = String} {A = Unit {0}}
            (Keeps family c₀ s₀)
            (λ t. (state_of t.files family ≡ some state) × (t.cache family ≡ some state))
            (ok tt, set family state s)
    set_last state s i reached = Ensures.returned tt _ (set-Keeps state s i) (reached, ground arith)

    suspend-returns :
        (s : Store)
        → Keeps family c₀ s₀ s
        → Ensures
            (Keeps family c₀ s₀)
            (λ t. (state_of t.files family ≡ some suspended) × (t.cache family ≡ some suspended))
            (suspend engine family s)
    unfolding suspend Steps.trigger_savepoint Steps.suspend_job
    suspend-returns s i =
        let last = modify {S = Store} {E = String} (set family suspended) in
        let job = run_typed engine (Steps.suspend_job family) in
        Ensures-bind (run_typed engine (Steps.trigger_savepoint family)) (λ _. job >> last) s
          (step_state (Steps.trigger_savepoint family)
            (λ c h.
              call-Ensures (Cluster.trigger_savepoint family) c
                (savepoint-Ensures c₀ (trigger_savepoint-Attempt family c) h))
            s i)
          (λ _ t j _.
            Ensures-bind job (λ _. last) t
              (step_state (Steps.suspend_job family)
                (λ c h.
                  call-Ensures (Cluster.suspend_job family) c
                    (suspend-Ensures c₀ (suspend_job-Attempt family c) h))
                t j)
              (λ _ u k reached. set_last suspended u k reached))

    start-returns :
        (s : Store)
        → Keeps family c₀ s₀ s
        → Ensures
            (Keeps family c₀ s₀)
            (λ t. (state_of t.files family ≡ some running) × (t.cache family ≡ some running))
            (start engine family s)
    unfolding start Steps.resume_job
    start-returns s i =
        Ensures-bind (run_typed engine (Steps.resume_job family))
          (λ _. modify {S = Store} {E = String} (set family running)) s
          (step_state (Steps.resume_job family)
            (λ c h.
              call-Ensures (Cluster.resume_job family) c
                (resume-Ensures c₀ (resume_job-Attempt family c) h))
            s i)
          (λ _ t j reached. set_last running t j reached)

    pub enter-returns :
        (desired : FamilyState) (s : Store)
        → Keeps family c₀ s₀ s
        → Ensures
            (Keeps family c₀ s₀)
            (λ t. state_of t.files family ≡ some desired)
            (enter engine family desired s)
    unfolding enter
    enter-returns suspended s i = Ensures-map (λ t h. h) (λ t h q. q.0) (suspend-returns s i)
    enter-returns running s i = Ensures-map (λ t h. h) (λ t h q. q.0) (start-returns s i)

  -- A command that goes by the cached state, which is what it was at the start or has been read.
  after_cache :
      (family : String) (s : Store) {Q : Store → Type 0}
      (rest : FamilyState → Store → Result String (Unit {0}) × Store)
      → IsWellFormed s.files
      → ((state : FamilyState) (t : Store)
          → IsCached engine family s t state
          → Keeps family s.files s t
          → Ensures (Keeps family s.files s) Q (rest state t))
      → {r : Result String FamilyState × Store} → Caches engine family s r
      → Ensures {E = String} {A = Unit {0}}
          (Keeps family s.files s)
          Q
          (elim r.0 [ ok state ↦ rest state r.1 | err e ↦ (err e, r.1) ])
  after_cache family s rest formed go (Caches.cached state t h) = go state t h (
    subst (OnlyState family s.files) (sym h.same_files) (OnlyState-refl family s.files formed),
    λ other _ paused. h.keeps other paused,
  )
  after_cache family s rest formed go (Caches.failed text) =
      Ensures.raised text s (OnlyState-refl family s.files formed, λ other _ paused. paused)

  pub pause_lem :
      (family : String) (s : Store)
      → IsWellFormed s.files
      → Ensures
          (Keeps family s.files s)
          (λ t. t.cache family ≡ some suspended)
          (pause engine family s)
  unfolding pause pause_from
  pause_lem family s formed =
      after_cache family s (pause_from engine family) formed (λ state t h i. from state t h i)
        (cached_state-Caches engine family s)
    where
      from :
          (state : FamilyState) (t : Store)
          → IsCached engine family s t state
          → Keeps family s.files s t
          → Ensures
              (Keeps family s.files s)
              (λ u. u.cache family ≡ some suspended)
              (pause_from engine family state t)
      from suspended t h i = Ensures.returned tt t i h.holds
      from running t h i =
          Ensures-map (λ _ j. j) (λ _ _ q. q.1) (suspend-returns family s.files s t i)

  pub resume_lem :
      (family : String) (s : Store)
      → IsWellFormed s.files
      → Ensures
          (Keeps family s.files s)
          (λ t. s.cache family ≡ some suspended → state_of t.files family ≡ some running)
          (resume engine family s)
  unfolding resume resume_from
  resume_lem family s formed =
      after_cache family s (resume_from engine family) formed (λ state t h i. from state t h i)
        (cached_state-Caches engine family s)
    where
      from :
          (state : FamilyState) (t : Store)
          → IsCached engine family s t state
          → Keeps family s.files s t
          → Ensures
              (Keeps family s.files s)
              (λ u. s.cache family ≡ some suspended → state_of u.files family ≡ some running)
              (resume_from engine family state t)
      from running t h i = Ensures.returned tt t i (λ paused.
          absurd (
            let clash : some suspended ≡ some running = sym (h.keeps family paused) ∙ h.holds in
            cc))
      from suspended t h i =
          Ensures-map (λ _ j. j) (λ _ _ q _. q.0) (start-returns family s.files s t i)

  pub patch_config_lem :
      (family : String) (datatypes : List String) (s t : Store)
      → OnlyDatatypes family s.files t.files
      → Ensures
          (λ u. OnlyDatatypes family s.files u.files × (u.cache ≡ t.cache))
          (λ u. datatypes_of u.files family ≡ some datatypes)
          (patch_config engine family datatypes t)
  unfolding patch_config Steps.patch_configmap
  patch_config_lem family datatypes s t h =
      run_typed-Ensures (Steps.patch_configmap family datatypes)
        (λ c k.
          call-Ensures (Cluster.patch_configmap family datatypes) c
            (patch-Ensures s.files datatypes (patch_configmap-Attempt family datatypes c) k))
        t h
