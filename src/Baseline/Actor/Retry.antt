-- ===== src/Baseline/Actor/Retry.antt =====
-- How many attempts `retryable` makes under a fault rule, and how it ends.
use flink_control_plane_poc.Prelude.{
  ℕ, zero, suc, ◌+◌, ◌-◌, ◌≤◌, ◌<◌, String, ◌≡◌, ap, ◌∙◌, Bool, some, arith, eqb, true, false,
}
use flink_control_plane_poc.Prelude.Dict.{lookup}
use flink_control_plane_poc.Prelude.Lists.{length}
use flink_control_plane_poc.Exec.{Result, ok, err}
use flink_control_plane_poc.Domain.{ClusterError, transient_error, permanent_error, FamilyStatus}
use flink_control_plane_poc.Cluster.{
  MockCluster, ClusterAction, ChaosMode, ChaosRule, audit, find_rule, seen,
}
use flink_control_plane_poc.Cluster.Attempt.{Mutation, op_of, Attempt}
use flink_control_plane_poc.Cluster.Attempt.Budget.{
  transient_fails, permanent_fails, attempt_returns, length-committed,
}
use flink_control_plane_poc.Baseline.Actor.{after_attempt, retry_from, retryable}

-- The four ways on from an attempt.
module _ (again : ClusterAction (Unit {0})) (r : Result ClusterError (Unit {0}) × MockCluster)
    (text : String) where
  pub after_ok : (last : Bool) → r.0 ≡ ok tt → after_attempt last again r ≡ (ok tt, r.1)
  unfolding after_attempt
  after_ok true e = rw (e, after_attempt)
  after_ok false e = rw (e, after_attempt)

  after_permanent :
      (last : Bool)
      → r.0 ≡ err (permanent_error text)
      → after_attempt last again r ≡ (err (permanent_error text), r.1)
  unfolding after_attempt
  after_permanent true e = rw (e, after_attempt)
  after_permanent false e = rw (e, after_attempt)

  after_last :
      (last : Bool)
      → last ≡ true
      → r.0 ≡ err (transient_error text)
      → after_attempt last again r ≡ (err (transient_error text), r.1)
  unfolding after_attempt
  after_last true at e = rw (e, after_attempt)
  after_last false at e = cc

  pub after_transient :
      (last : Bool)
      → last ≡ false
      → r.0 ≡ err (transient_error text)
      → after_attempt last again r ≡ again r.1
  unfolding after_attempt
  after_transient true at e = cc
  after_transient false at e = rw (e, after_attempt)

module _ (family : String) (m : Mutation) (fn : ClusterAction (Unit {0}))
    (attempts_at : (c : MockCluster) → Attempt family m c (fn c)) (rule : ChaosRule) where
  -- A transient rule with `faults` faults left to inject into a known family.
  pub record HasFaults (faults : ℕ) (c : MockCluster) : Type 0 where
    pub has : find_rule family (op_of m) c ≡ some rule
    pub mode : rule.mode ≡ ChaosMode.transient
    pub known : (status : FamilyStatus) × (lookup family c.families ≡ some status)
    pub left : seen family (op_of m) c + faults ≡ rule.times

  fails :
      (faults : ℕ) (c : MockCluster)
      → HasFaults (suc faults) c
      → (text : String) × ((fn c).0 ≡ err (transient_error text))
        × HasFaults faults (fn c).1
        × ((fn c).1.families ≡ c.families)
        × (length (audit (fn c).1) ≡ length (audit c) + 1)
  fails faults c h =
      let (text, e, next, counted) =
        transient_fails rule h.has h.mode (omega (arith, h.left)) (attempts_at c) in
      (
        text,
        e,
        record {
          has = next.same_rule;
          mode = h.mode;
          known = (h.known.0, ap (lookup family) next.same_families ∙ h.known.1);
          left = omega (arith, counted, h.left);
        },
        next.same_families,
        next.one_entry,
      )

  absorbs_from :
      (faults attempts attempt left : ℕ) (c : MockCluster)
      → faults ≤ left
      → attempt + suc left ≡ attempts
      → HasFaults faults c
      → ((retry_from attempts attempt (suc left) fn c).0 ≡ ok tt)
        × (length (audit (retry_from attempts attempt (suc left) fn c).1)
            ≡ length (audit c) + faults + 1)
  unfolding retry_from
  absorbs_from zero attempts attempt left c enough at h =
      let spent : rule.times ≤ seen family (op_of m) c = omega (arith, h.left) in
      let (_, returned, written) =
        attempt_returns h.known.0 h.known.1 (rw (h.has, h.mode) spent) (attempts_at c) in
      let ends =
        after_ok (retry_from attempts (attempt + 1) left fn) (fn c) "" (eqb attempt (attempts - 1))
          returned in
      (
        ap (λ r. r.0) ends,
        omega (
          arith,
          ap (λ r. length (audit r.1)) ends,
          ap (λ c'. length (audit c')) written,
          length-committed family m h.known.0 c,
        ),
      )
  absorbs_from (suc faults) attempts attempt (suc left) c enough at h =
      let (text, e, next, _, one) = fails faults c h in
      let goes =
        after_transient (retry_from attempts (attempt + 1) (suc left) fn) (fn c) text
          (eqb attempt (attempts - 1)) (ground arith) e in
      let (returned, entries) =
        absorbs_from faults attempts (attempt + 1) left (fn c).1 (omega arith) (omega arith) next in
      (
        ap (λ r. r.0) goes ∙ returned,
        omega (arith, ap (λ r. length (audit r.1)) goes, entries, one),
      )
  absorbs_from (suc faults) attempts attempt zero c enough at h = absurd (omega arith)

  -- With fewer faults left than attempts, `retryable` returns, and has made one attempt for each
  -- fault and one more.
  pub retryable_absorbs :
      (faults attempts : ℕ) (c : MockCluster)
      → faults < attempts
      → HasFaults faults c
      → ((retryable attempts fn c).0 ≡ ok tt)
        × (length (audit (retryable attempts fn c).1) ≡ length (audit c) + faults + 1)
  unfolding retryable
  retryable_absorbs faults zero c enough h = absurd (omega arith)
  retryable_absorbs faults (suc attempts) c enough h =
      absorbs_from faults (suc attempts) 0 attempts c (omega arith) (omega arith) h

  exhausts_from :
      (faults attempts attempt left : ℕ) (c : MockCluster)
      → left < faults
      → attempt + suc left ≡ attempts
      → HasFaults faults c
      → (text : String) × ((retry_from attempts attempt (suc left) fn c).0
          ≡ err (transient_error text))
        × ((retry_from attempts attempt (suc left) fn c).1.families ≡ c.families)
        × (length (audit (retry_from attempts attempt (suc left) fn c).1)
            ≡ length (audit c) + suc left)
  unfolding retry_from
  exhausts_from zero attempts attempt left c few at h = absurd (omega arith)
  exhausts_from (suc faults) attempts attempt zero c few at h =
      let (text, e, _, same, one) = fails faults c h in
      let ends =
        after_last (retry_from attempts (attempt + 1) zero fn) (fn c) text
          (eqb attempt (attempts - 1)) (ground arith) e in
      (
        text,
        ap (λ r. r.0) ends,
        ap (λ r. r.1.families) ends ∙ same,
        omega (arith, ap (λ r. length (audit r.1)) ends, one),
      )
  exhausts_from (suc faults) attempts attempt (suc left) c few at h =
      let (text, e, next, same, one) = fails faults c h in
      let goes =
        after_transient (retry_from attempts (attempt + 1) (suc left) fn) (fn c) text
          (eqb attempt (attempts - 1)) (ground arith) e in
      let (text', raised, same', entries) =
        exhausts_from faults attempts (attempt + 1) left (fn c).1 (omega arith) (omega arith)
          next in
      (
        text',
        ap (λ r. r.0) goes ∙ raised,
        ap (λ r. r.1.families) goes ∙ same' ∙ same,
        omega (arith, ap (λ r. length (audit r.1)) goes, entries, one),
      )

  -- With at least as many faults left as attempts, `retryable` raises the transient error after
  -- exactly that many attempts, and no family has changed.
  pub retryable_exhausts :
      (faults attempts : ℕ) (c : MockCluster)
      → 0 < attempts
      → attempts ≤ faults
      → HasFaults faults c
      → (text : String) × ((retryable attempts fn c).0 ≡ err (transient_error text))
        × ((retryable attempts fn c).1.families ≡ c.families)
        × (length (audit (retryable attempts fn c).1) ≡ length (audit c) + attempts)
  unfolding retryable
  retryable_exhausts faults zero c some_attempt few h = absurd (omega arith)
  retryable_exhausts faults (suc attempts) c some_attempt few h =
      exhausts_from faults (suc attempts) 0 attempts c (omega arith) (omega arith) h

  -- A permanent fault is not retried: one attempt, the permanent error, and no family has changed.
  pub retryable_permanent :
      (attempts : ℕ) (c : MockCluster)
      → 0 < attempts
      → find_rule family (op_of m) c ≡ some rule
      → rule.mode ≡ ChaosMode.permanent
      → (text : String) × ((retryable attempts fn c).0 ≡ err (permanent_error text))
        × ((retryable attempts fn c).1.families ≡ c.families)
        × (length (audit (retryable attempts fn c).1) ≡ length (audit c) + 1)
  unfolding retryable retry_from
  retryable_permanent zero c some_attempt has mode = absurd (omega arith)
  retryable_permanent (suc attempts) c some_attempt has mode =
      let (text, e, next) = permanent_fails rule has mode (attempts_at c) in
      let ends =
        after_permanent (retry_from (suc attempts) (0 + 1) attempts fn) (fn c) text
          (eqb 0 (suc attempts - 1)) e in
      (
        text,
        ap (λ r. r.0) ends,
        ap (λ r. r.1.families) ends ∙ next.same_families,
        omega (arith, ap (λ r. length (audit r.1)) ends, next.one_entry),
      )
