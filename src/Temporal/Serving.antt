-- ===== src/Temporal/Serving.antt =====
-- From a handler on its own actor to a command that a saga sends through the proxy.
use mathlib.Core.Path.{subst}
use flink_control_plane_poc.Prelude.{
  String, ◌≡◌, ◌≢◌, refl, sym, ap, ◌∙◌, Option, none, some, arith,
}
use flink_control_plane_poc.Prelude.Equality.{string_eq}
use flink_control_plane_poc.Exec.{Result, ok, err, Ensures, Ensures-inv}
use flink_control_plane_poc.Domain.{FamilyState, FamilyStatus}
use flink_control_plane_poc.Cluster.{MockCluster}
use flink_control_plane_poc.Temporal.Engine.{Failure, Service, UpdateResult}
use flink_control_plane_poc.Temporal.Actor.{
  Site, Handler, FlinkJobFamilyActor, cluster_retry, actor_id, start,
}
use flink_control_plane_poc.Temporal.Proxy.{
  World, CommandRequest, CommandResult, set_actor, on_actor, serve, handler,
}
use flink_control_plane_poc.Temporal.Executions.{Reads, execute_activity-Reads}
use flink_control_plane_poc.Temporal.Saga.{send}
use flink_control_plane_poc.Temporal.Once.{Once, send-Once, served, noted}

module _ (service : Service) (family : String) (J : MockCluster → Type 0)
    (Q : FamilyState → Site → Type 0) where
  -- Only the files, by `J`, and the actor of the family have changed.
  abbrev pub Changes : World → World → Type 0
  Changes w t =
      J t.files
      × ((other : String) → other ≢ family → t.actors other ≡ w.actors other)
      × (t.updates ≡ w.updates)

  -- The handler has returned: it ran from the state that the actor had, if it was running.
  pub record Handled (w t : World) : Type 0 where
    pub state : FamilyState
    pub site : Site
    pub was : (before : FamilyState) → w.actors family ≡ some before → state ≡ before
    pub reached : Q state site
    pub files : t.files ≡ site.files
    pub actor : t.actors family ≡ some site.actor.state

  abbrev Mine : Site → Type 0
  Mine s = J s.files × (s.actor.family ≡ family)

  module _ (fn : Handler UpdateResult)
      (each : (s : Site) → Mine s → Ensures Mine (Q s.actor.state) (fn s)) where
    on_actor-Ensures :
        (state : FamilyState) (w : World)
        → ((before : FamilyState) → w.actors family ≡ some before → state ≡ before)
        → J w.files
        → Ensures (Changes w) (Handled w) (on_actor service fn family state w)
    unfolding on_actor
    on_actor-Ensures state w was i = go (
        each (record { files = w.files; actor = record { family = family; state = state } })
          (i, refl))
      where
        go :
            {p : Result Failure UpdateResult × Site}
            → Ensures Mine (Q state) p
            → Ensures (Changes w) (Handled w) (
              p.0,
              record w { files = p.1.files; actors = set_actor family p.1.actor.state w.actors },
            )
        go (Ensures.returned a s j q) =
            Ensures.returned a _ (j.0, (λ other ne. ground (arith, ne)), refl)
              (record {
                state = state;
                site = s;
                was = was;
                reached = q;
                files = refl;
                actor = ground arith;
              })
        go (Ensures.raised e s j) = Ensures.raised e _ (j.0, (λ other ne. ground (arith, ne)), refl)

    serve-Ensures :
        (w : World) → J w.files → Ensures (Changes w) (Handled w) (serve service fn family w)
    unfolding serve start
    serve-Ensures w i = go (w.actors family) refl
      where
        started :
            w.actors family ≡ none
            → {r : Result Failure FamilyStatus × MockCluster} → Reads family cluster_retry w.files r
            → Ensures (Changes w) (Handled w) (
                let p : Result Failure FlinkJobFamilyActor × MockCluster = elim r.0 [
                  | ok status ↦ (ok (record { family = family; state = status.state }), r.1)
                  | err e ↦ (err e, r.1)
                ] in
                let q : Result Failure UpdateResult × World = elim p.0 [
                  | ok actor ↦ on_actor service fn family actor.state (record w { files = p.1 })
                  | err e ↦ (err e, record w { files = p.1 })
                ] in
                q)
        started absent (Reads.known status found) =
            on_actor-Ensures status.state w
              (λ before is. absurd (let clash : none ≡ some before = sym absent ∙ is in cc)) i
        started absent (Reads.failed e missing) = Ensures.raised e w (i, (λ _ _. refl), refl)

        go :
            (found : Option FamilyState)
            → w.actors family ≡ found
            → Ensures {E = Failure} {A = UpdateResult} (Changes w) (Handled w) (elim found [
              | some state ↦ on_actor service fn family state w
              | none ↦
                  (let p : Result Failure FlinkJobFamilyActor × MockCluster =
                      start service family none w.files in
                    let q : Result Failure UpdateResult × World = elim p.0 [
                      | ok actor ↦ on_actor service fn family actor.state (record w { files = p.1 })
                      | err e ↦ (err e, record w { files = p.1 })
                    ] in
                    q)
            ])
        go none absent =
            started absent (execute_activity-Reads family cluster_retry service w.files)
        go (some state) is =
            on_actor-Ensures state w
              (λ before is'. let e : some state ≡ some before = sym is ∙ is' in cc) i

  -- What a command may do through the proxy: of the updates, only its own may have finished.
  abbrev pub Sent : String → World → World → Type 0
  Sent id w t =
      J t.files
      × ((other : String) → other ≢ family → t.actors other ≡ w.actors other)
      × ((actor other : String) → other ≢ id → t.updates actor other ≡ w.updates actor other)

  module _ (request : CommandRequest)
      (each : (s : Site) → Mine s → Ensures Mine (Q s.actor.state) (handler service request s))
      (same_family : request.family ≡ family) where
    noted-Sent :
        (w t : World) (r : Result Failure UpdateResult)
        → Changes w t
        → Sent request.update_id w (noted service request r t)
    noted-Sent w t r (j, actors, updates) =
        (j, actors, λ actor other ne. ground (arith, ne, ap (λ u. u actor other) updates))

    -- The rule of a command with a new update id.
    pub send-Ensures :
        (w : World)
        → w.updates (actor_id request.family) request.update_id ≡ none
        → J w.files
        → Ensures (Sent request.update_id w) (Handled w) (send service request w)
    send-Ensures w fresh i = go (send-Once service request w fresh)
      where
        ran : Ensures (Changes w) (Handled w) (served service request w)
        ran =
            subst
              (λ f. Ensures (Changes w) (Handled w) (serve service (handler service request) f w))
              (sym same_family) (serve-Ensures (handler service request) each w i)

        ended :
            {a : UpdateResult} {t : World} (b : CommandResult)
            → Ensures {E = Failure} (Changes w) (Handled w) (ok a, t)
            → Ensures {E = Failure}
                (Sent request.update_id w)
                (Handled w)
                (ok b, noted service request (ok a) t)
        ended b (Ensures.returned a t j q) =
            Ensures.returned b _ (noted-Sent w t (ok a) j) (record {
              state = q.state;
              site = q.site;
              was = q.was;
              reached = q.reached;
              files = q.files;
              actor = q.actor;
            })

        go :
            {p : Result Failure CommandResult × World}
            → Once service request w p
            → Ensures (Sent request.update_id w) (Handled w) p
        go (Once.not_run e) = Ensures.raised e w (i, (λ _ _. refl), λ _ _ _. refl)
        go (Once.answered a t h) = ended _ (subst (Ensures (Changes w) (Handled w)) h ran)
        go (Once.unanswered r t e h) =
            Ensures.raised e _
              (noted-Sent w t r (Ensures-inv (subst (Ensures (Changes w) (Handled w)) h ran)))
