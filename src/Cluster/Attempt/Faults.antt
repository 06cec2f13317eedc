-- ===== src/Cluster/Attempt/Faults.antt =====
-- The faults that a rule injects before and after the write.
use flink_control_plane_poc.Prelude.{
  ℕ, ◌+◌, ◌≤◌, ◌<◌, String, ◌≡◌, refl, inl, inr, Option, none, some, arith, ltb, Bool-cases,
}
use flink_control_plane_poc.Exec.{Result, ok, err}
use flink_control_plane_poc.Domain.{ClusterError, transient_error, permanent_error}
use flink_control_plane_poc.Cluster.{
  MockCluster, Op, Outcome, Detail, ChaosMode, ChaosRule, find_rule, seen, record_attempt,
  count_hit, fail_by, maybe_fail, lose_by, maybe_lose_response,
}

-- A rule lets an attempt through once its `times` are used up; a permanent one never does.
abbrev pub PassesMode : ChaosMode → ℕ → ℕ → Type 0
PassesMode ChaosMode.permanent times tries = ⊥
PassesMode _ times tries = times ≤ tries

abbrev pub PassesRule : Option ChaosRule → ℕ → Type 0
PassesRule none tries = Unit
PassesRule (some rule) tries = PassesMode rule.mode rule.times tries

abbrev pub Passes : String → Op → MockCluster → Type 0
Passes family op c = PassesRule (find_rule family op c) (seen family op c)

-- The same of a fault before the write: a `lost_response` rule is not one.
abbrev pub ClearsMode : ChaosMode → ℕ → ℕ → Type 0
ClearsMode ChaosMode.permanent times tries = ⊥
ClearsMode ChaosMode.transient times tries = times ≤ tries
ClearsMode ChaosMode.lost_response times tries = Unit

abbrev pub ClearsRule : Option ChaosRule → ℕ → Type 0
ClearsRule none tries = Unit
ClearsRule (some rule) tries = ClearsMode rule.mode rule.times tries

abbrev pub Clears : String → Op → MockCluster → Type 0
Clears family op c = ClearsRule (find_rule family op c) (seen family op c)

module _ (family : String) (op : Op) (c : MockCluster) where
  pub data BeforeWrite : Result ClusterError (Unit {0}) × MockCluster → Type 0 where
    broken :
        (rule : ChaosRule) (text : String)
        → find_rule family op c ≡ some rule
        → rule.mode ≡ ChaosMode.permanent
        → BeforeWrite
            (err (permanent_error text), record_attempt op family Outcome.permanent Detail.empty c)
    failed :
        (rule : ChaosRule) (text : String)
        → find_rule family op c ≡ some rule
        → rule.mode ≡ ChaosMode.transient
        → seen family op c < rule.times
        → BeforeWrite (
          err (transient_error text),
          record_attempt op family Outcome.transient
              (Detail.attempt_number (seen family op c + 1))
              (count_hit family op c),
        )
    clear : Clears family op c → BeforeWrite (ok tt, c)

  fail_by-BeforeWrite :
      (rule : ChaosRule) (mode : ChaosMode)
      → find_rule family op c ≡ some rule
      → rule.mode ≡ mode
      → BeforeWrite (fail_by family op mode rule.times c)
  unfolding fail_by
  fail_by-BeforeWrite rule ChaosMode.permanent found e = broken rule _ found e
  fail_by-BeforeWrite rule ChaosMode.lost_response found e = clear (rw (found, e) tt)
  fail_by-BeforeWrite rule ChaosMode.transient found e =
      elim (Bool-cases (ltb (seen family op c) rule.times)) [
        | inl more ↦ rw more (failed rule _ found e (ground arith))
        | inr spent ↦ rw spent (clear (rw (found, e) (ground arith)))
      ]

  pub maybe_fail-BeforeWrite : BeforeWrite (maybe_fail family op c)
  unfolding maybe_fail
  maybe_fail-BeforeWrite = go (find_rule family op c) refl
    where
      go :
          (found : Option ChaosRule)
          → find_rule family op c ≡ found
          → BeforeWrite (elim found [
            | none ↦ (ok tt, c)
            | some rule ↦ fail_by family op rule.mode rule.times c
          ])
      go none h = clear (rw h tt)
      go (some rule) h = fail_by-BeforeWrite rule rule.mode h refl

  pub data AfterWrite : Result ClusterError (Unit {0}) × MockCluster → Type 0 where
    lost :
        (rule : ChaosRule) (text : String)
        → find_rule family op c ≡ some rule
        → rule.mode ≡ ChaosMode.lost_response
        → seen family op c < rule.times
        → AfterWrite (err (transient_error text), count_hit family op c)
    answered : (Clears family op c → Passes family op c) → AfterWrite (ok tt, c)

  lose_by-AfterWrite :
      (rule : ChaosRule) (mode : ChaosMode)
      → find_rule family op c ≡ some rule
      → rule.mode ≡ mode
      → AfterWrite (lose_by family op mode rule.times c)
  unfolding lose_by
  lose_by-AfterWrite rule ChaosMode.permanent found e = answered (rw (found, e) (λ h. h))
  lose_by-AfterWrite rule ChaosMode.transient found e = answered (rw (found, e) (λ h. h))
  lose_by-AfterWrite rule ChaosMode.lost_response found e =
      elim (Bool-cases (ltb (seen family op c) rule.times)) [
        | inl more ↦ rw more (lost rule _ found e (ground arith))
        | inr spent ↦ rw spent (answered (rw (found, e) (λ _. ground arith)))
      ]

  pub maybe_lose_response-AfterWrite : AfterWrite (maybe_lose_response family op c)
  unfolding maybe_lose_response
  maybe_lose_response-AfterWrite = go (find_rule family op c) refl
    where
      go :
          (found : Option ChaosRule)
          → find_rule family op c ≡ found
          → AfterWrite (elim found [
            | none ↦ (ok tt, c)
            | some rule ↦ lose_by family op rule.mode rule.times c
          ])
      go none h = answered (rw h (λ _. tt))
      go (some rule) h = lose_by-AfterWrite rule rule.mode h refl
