-- ===== src/Temporal/Once.antt =====
-- Sending a command with an update id, by all attempts at the proxy, while its actor does not roll
-- over. RollOver is about attempts with roll-overs in between.
pub mod RollOver
use mathlib.Core.Path.{subst}
use flink_control_plane_poc.Prelude.{ℕ, ◌≡◌, refl, sym, ap, ◌∙◌, none, some, arith}
use flink_control_plane_poc.Exec.{Result, ok, err}
use flink_control_plane_poc.Temporal.Engine.{
  ActivityError, RetryPolicy, Attempts, Failure, Service, UpdateResult, UpdateError, Update,
  Finished, finish,
}
use flink_control_plane_poc.Temporal.Actor.{actor_id}
use flink_control_plane_poc.Temporal.Proxy.{
  World, set_updates, CommandRequest, CommandResult, handler, serve, dispatch, command_result,
  proxy_error, execute_family_command,
}
use flink_control_plane_poc.Temporal.Saga.{send, proxy_retry}

module _ (service : Service) (request : CommandRequest) where
  -- the command on the actor's side
  abbrev pub served : World → Result Failure UpdateResult × World
  served = serve service (handler service request) request.family

  abbrev pub updates_of : World → Finished
  updates_of w = w.updates

  -- The world once the service has noted the outcome.
  abbrev pub noted : Result Failure UpdateResult → World → World
  noted r t = set_updates (finish (actor_id request.family) request.update_id r t.updates) t

  -- At most one run of the handler, and no result but the one that it had.
  pub data Once {E : Type 0} (w : World) : Result E CommandResult × World → Type 0 where
    not_run : (e : E) → Once w (err e, w)
    answered :
        (a : UpdateResult) (t : World)
        → served w ≡ (ok a, t)
        → Once w (ok (command_result service a), noted (ok a) t)
    unanswered :
        (r : Result Failure UpdateResult) (t : World) (e : E)
        → served w ≡ (r, t)
        → Once w (err e, noted r t)

  -- A later attempt, when the outcome has been noted: it changes nothing.
  pub data Replays {E : Type 0} (r : Result Failure UpdateResult) (w : World)
      : Result E CommandResult × World → Type 0 where
    failed : (e : E) → Replays r w (err e, w)
    repeated : (a : UpdateResult) → r ≡ ok a → Replays r w (ok (command_result service a), w)

  abbrev reply :
      Result UpdateError UpdateResult × World → Result ActivityError CommandResult × World
  reply p = elim p.0 [
    | ok a ↦ (ok (command_result service a), p.1)
    | err e ↦ (err (proxy_error service request e), p.1)
  ]

  pub first_attempt :
      (w : World)
      → w.updates (actor_id request.family) request.update_id ≡ none
      → Once w (execute_family_command service request w)
  unfolding execute_family_command dispatch
  first_attempt w fresh = go (
      service.execute_update-Update updates_of set_updates (actor_id request.family)
        request.update_id served w)
    where
      go :
          {p : Result UpdateError UpdateResult × World}
          → Update updates_of set_updates (actor_id request.family) request.update_id served w p
          → Once w (reply p)
      go (Update.unreached text) = Once.not_run _
      go (Update.ran (ok a) t new ran) = Once.answered a t ran
      go (Update.ran (err e) t new ran) = Once.unanswered (err e) t _ ran
      go (Update.ran_unheard r t text new ran) = Once.unanswered r t _ ran
      go (Update.known r old) = absurd (let clash : none ≡ some r = sym fresh ∙ old in cc)

  pub later_attempt :
      (r : Result Failure UpdateResult) (w : World)
      → w.updates (actor_id request.family) request.update_id ≡ some r
      → Replays r w (execute_family_command service request w)
  unfolding execute_family_command dispatch
  later_attempt r w old = go (
      service.execute_update-Update updates_of set_updates (actor_id request.family)
        request.update_id served w)
    where
      go :
          {p : Result UpdateError UpdateResult × World}
          → Update updates_of set_updates (actor_id request.family) request.update_id served w p
          → Replays r w (reply p)
      go (Update.unreached text) = Replays.failed _
      go (Update.ran r' t new ran) = absurd (let clash : none ≡ some r = sym new ∙ old in cc)
      go (Update.ran_unheard r' t text new ran) =
          absurd (let clash : none ≡ some r = sym new ∙ old in cc)
      go (Update.known (ok a) known) = Replays.repeated a (cc (known, old))
      go (Update.known (err e) known) = Replays.failed _

  pub is_noted :
      (r : Result Failure UpdateResult) (t : World)
      → (noted r t).updates (actor_id request.family) request.update_id ≡ some r
  is_noted r t = ground arith

  -- What a retry policy makes of the answer to one attempt.
  module _ {r : Result Failure UpdateResult} {w : World} where
    pub Replays-same :
        {E : Type 0} {p : Result E CommandResult × World} → Replays {E = E} r w p → p.1 ≡ w
    Replays-same (Replays.failed e) = refl
    Replays-same (Replays.repeated a same) = refl

    Replays-returned :
        {E F : Type 0} {a : CommandResult} {t : World}
        → Replays {E = E} r w (ok a, t)
        → Replays {E = F} r w (ok a, t)
    Replays-returned (Replays.repeated a same) = Replays.repeated a same

    Replays-failed :
        {E F : Type 0} {x : Result E CommandResult} {t : World} (e : F)
        → Replays {E = E} r w (x, t)
        → Replays {E = F} r w (err e, t)
    Replays-failed e (Replays.failed _) = Replays.failed e
    Replays-failed e (Replays.repeated a same) = Replays.failed e

  module _ {w : World} where
    Once-returned :
        {E F : Type 0} {a : CommandResult} {t : World}
        → Once {E = E} w (ok a, t)
        → Once {E = F} w (ok a, t)
    Once-returned (Once.answered a t ran) = Once.answered a t ran

    Once-failed :
        {E F : Type 0} {x : Result E CommandResult} {t : World} (e : F)
        → Once {E = E} w (x, t)
        → Once {E = F} w (err e, t)
    Once-failed e (Once.not_run _) = Once.not_run e
    Once-failed e (Once.answered a t ran) = Once.unanswered (ok a) t e ran
    Once-failed e (Once.unanswered r t _ ran) = Once.unanswered r t e ran

    Once-noted :
        {E : Type 0} (r : Result Failure UpdateResult) (t u : World)
        → u ≡ noted r t
        → served w ≡ (r, t)
        → {p : Result E CommandResult × World} → Replays {E = E} r u p
        → Once {E = E} w p
    Once-noted {E} r t u at ran (Replays.failed e) =
        subst (λ x. Once {E = E} w (err e, x)) (sym at) (Once.unanswered r t e ran)
    Once-noted {E} r t u at ran (Replays.repeated a same) =
        subst (λ x. Once {E = E} w (ok (command_result service a), x))
          (ap (λ x. noted x t) (sym same) ∙ sym at)
          (Once.answered a t (ran ∙ ap (λ x. (x, t)) same))

    -- Another attempt, after one that gave no answer.
    Once-again :
        {E F : Type 0} {x : Result E CommandResult} {t : World} {p : Result F CommandResult × World}
        → Once {E = E} w (x, t)
        → (t ≡ w → Once {E = F} w p)
        → ((r : Result Failure UpdateResult)
            → t.updates (actor_id request.family) request.update_id ≡ some r
            → Replays {E = F} r t p)
        → Once {E = F} w p
    Once-again (Once.not_run e) fresh known = fresh refl
    Once-again (Once.answered a t ran) fresh known =
        Once-noted (ok a) t _ refl ran (known (ok a) (is_noted (ok a) t))
    Once-again (Once.unanswered r t e ran) fresh known =
        Once-noted r t _ refl ran (known r (is_noted r t))

  module _ (policy : RetryPolicy) where
    Attempts-Replays :
        (r : Result Failure UpdateResult) {n : ℕ} {w : World}
        {p : Result Failure CommandResult × World}
        → Attempts policy (execute_family_command service request) n w p
        → w.updates (actor_id request.family) request.update_id ≡ some r
        → Replays r w p
    Attempts-Replays r (Attempts.returned a w t h) old =
        Replays-returned (subst (Replays r w) h (later_attempt r w old))
    Attempts-Replays r (Attempts.gave_up e w t h why) old =
        Replays-failed _ (subst (Replays r w) h (later_attempt r w old))
    Attempts-Replays r (Attempts.unanswered x text w t h limited) old =
        Replays-failed _ (subst (Replays r w) h (later_attempt r w old))
    Attempts-Replays r (Attempts.unstarted text w limited) old = Replays.failed _
    Attempts-Replays r (Attempts.going_on e w t h more unlimited) old =
        Replays-failed _ (subst (Replays r w) h (later_attempt r w old))
    Attempts-Replays r (Attempts.again e n w t p h more rest) old =
        let same = Replays-same (subst (Replays r w) h (later_attempt r w old)) in
        subst (λ x. Replays r x p) same
          (Attempts-Replays r rest (
            subst (λ x. x.updates (actor_id request.family) request.update_id ≡ some r) (sym same)
              old))
    Attempts-Replays r (Attempts.lost x n w t p h rest) old =
        let same = Replays-same (subst (Replays r w) h (later_attempt r w old)) in
        subst (λ x. Replays r x p) same
          (Attempts-Replays r rest (
            subst (λ x. x.updates (actor_id request.family) request.update_id ≡ some r) (sym same)
              old))
    Attempts-Replays r (Attempts.missed n w p rest) old = Attempts-Replays r rest old

    Attempts-Once :
        {n : ℕ} {w : World} {p : Result Failure CommandResult × World}
        → Attempts policy (execute_family_command service request) n w p
        → w.updates (actor_id request.family) request.update_id ≡ none
        → Once w p
    Attempts-Once (Attempts.returned a w t h) fresh =
        Once-returned (subst (Once w) h (first_attempt w fresh))
    Attempts-Once (Attempts.gave_up e w t h why) fresh =
        Once-failed _ (subst (Once w) h (first_attempt w fresh))
    Attempts-Once (Attempts.unanswered x text w t h limited) fresh =
        Once-failed _ (subst (Once w) h (first_attempt w fresh))
    Attempts-Once (Attempts.unstarted text w limited) fresh = Once.not_run _
    Attempts-Once (Attempts.going_on e w t h more unlimited) fresh =
        Once-failed _ (subst (Once w) h (first_attempt w fresh))
    Attempts-Once (Attempts.again e n w t p h more rest) fresh =
        Once-again (subst (Once w) h (first_attempt w fresh))
          (λ same.
            subst (λ x. Once x p) same
              (Attempts-Once rest (
                subst (λ x. x.updates (actor_id request.family) request.update_id ≡ none) (sym same)
                  fresh)))
          (λ r old. Attempts-Replays r rest old)
    Attempts-Once (Attempts.lost x n w t p h rest) fresh =
        Once-again (subst (Once w) h (first_attempt w fresh))
          (λ same.
            subst (λ x. Once x p) same
              (Attempts-Once rest (
                subst (λ x. x.updates (actor_id request.family) request.update_id ≡ none) (sym same)
                  fresh)))
          (λ r old. Attempts-Replays r rest old)
    Attempts-Once (Attempts.missed n w p rest) fresh = Attempts-Once rest fresh

  -- A command with a new id, sent while its actor does not roll over.
  pub send-Once :
      (w : World)
      → w.updates (actor_id request.family) request.update_id ≡ none
      → Once w (send service request w)
  unfolding send
  send-Once w fresh =
      let run =
        service.execute_activity-Executed proxy_retry (execute_family_command service request) w in
      Attempts-Once proxy_retry run.attempts fresh

  -- A command whose update has finished in the present run of its actor, which does not roll over.
  pub send-Replays :
      (r : Result Failure UpdateResult) (w : World)
      → w.updates (actor_id request.family) request.update_id ≡ some r
      → Replays r w (send service request w)
  unfolding send
  send-Replays r w old =
      let run =
        service.execute_activity-Executed proxy_retry (execute_family_command service request) w in
      Attempts-Replays proxy_retry r run.attempts old
