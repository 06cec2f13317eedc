-- ===== src/Baseline/Actor/Completion.antt =====
-- With no permanent fault, and fewer faults left than `retryable` makes attempts, the plain actors
-- carry out every command.
use mathlib.Core.Path.{subst}
use flink_control_plane_poc.Prelude.{
  ℕ, zero, suc, ◌+◌, ◌-◌, ◌≤◌, ◌<◌, String, ◌≡◌, ◌≢◌, refl, sym, ap, ◌∙◌, ◌⊎◌, inl, inr, none, some,
  List, arith, eqb,
}
use flink_control_plane_poc.Prelude.Equality.{string_eq}
use flink_control_plane_poc.Prelude.Dict.{lookup}
use flink_control_plane_poc.Exec.{Result, ok, err, pure, ◌>>◌, Returns, Returns-bind, Returns-pure}
use flink_control_plane_poc.Domain.{ClusterError, transient_error}
use flink_control_plane_poc.Cluster.{
  MockCluster, ClusterAction, ChaosMode, ChaosRule, Op, Outcome, Detail, count_hit, find_rule, seen,
}
use flink_control_plane_poc.Cluster
use flink_control_plane_poc.Cluster.Attempt.{
  Mutation, savepoint, suspend, resume, patch, op_of, committed, Attempt,
}
use flink_control_plane_poc.Cluster.Attempt.Budget.{
  find_rule-Attempt, seen-le-Attempt, find_rule-record_attempt, find_rule-count_hit,
  seen-record_attempt, seen-count_hit_self,
}
use flink_control_plane_poc.Cluster.Attempt.Operations.{
  find_rule-committed, seen-committed, with_value, trigger_savepoint-Attempt, suspend_job-Attempt,
  resume_job-Attempt, patch_configmap-Attempt,
}
use flink_control_plane_poc.Baseline.Actor.{
  after_attempt, retry_from, retryable, trigger_savepoint, pause, patch_config,
}
use flink_control_plane_poc.Cluster.Frame.{known-Attempt}
use flink_control_plane_poc.Baseline.Actor.Retry.{after_ok, after_transient}
use flink_control_plane_poc.Baseline.Actor

-- No permanent rule, and at most `faults` faults left, for an operation on a family.
pub record IsSpared (faults : ℕ) (family : String) (op : Op) (c : MockCluster) : Type 0 where
  pub passing :
      (rule : ChaosRule) → find_rule family op c ≡ some rule → rule.mode ≢ ChaosMode.permanent
  pub few :
      (rule : ChaosRule)
      → find_rule family op c ≡ some rule
      → rule.times ≤ seen family op c + faults

-- A family that has a file.
abbrev pub IsKnown : String → MockCluster → Type 0
IsKnown family c = lookup family c.families ≢ none

module _ {A : Type 0} {family : String} {m : Mutation} {c : MockCluster}
    {r : Result ClusterError A × MockCluster} (attempt : Attempt family m c r) where
  -- An attempt injects faults and adds none.
  pub IsSpared-Attempt :
      (faults : ℕ) (other : String) (op : Op)
      → IsSpared faults other op c
      → IsSpared faults other op r.1
  IsSpared-Attempt faults other op h =
      let same = find_rule-Attempt other op attempt in
      record {
        passing = λ rule has. h.passing rule (sym same ∙ has);
        few = λ rule has.
            omega (arith, h.few rule (sym same ∙ has), seen-le-Attempt other op attempt);
      }

  abbrev Ends : ℕ → Type 0
  Ends faults =
      ((a : A) × (r.0 ≡ ok a))
      ⊎ ((text : String) × (left : ℕ) × (r.0 ≡ err (transient_error text))
          × (faults ≡ suc left)
          × IsSpared left family (op_of m) r.1)

-- A fault that has been counted.
one_less :
    {family : String} {op : Op} (faults : ℕ) (c c' : MockCluster) (rule : ChaosRule)
    → find_rule family op c ≡ some rule
    → seen family op c < rule.times
    → find_rule family op c' ≡ find_rule family op c
    → seen family op c' ≡ seen family op c + 1
    → IsSpared faults family op c
    → (left : ℕ) × (faults ≡ suc left) × IsSpared left family op c'
one_less faults c c' rule has more same counted h =
    let enough = h.few rule has in
    (
      faults - 1,
      omega (arith, enough, more),
      record {
        passing = λ other there. h.passing other (sym same ∙ there);
        few = λ other there. omega (arith, h.few other (sym same ∙ there), counted, enough, more);
      },
    )

-- An attempt returns, or uses up a fault.
spared_attempt :
    {A : Type 0} {family : String} {m : Mutation} {c : MockCluster}
    {r : Result ClusterError A × MockCluster} (faults : ℕ)
    → IsSpared faults family (op_of m) c
    → IsKnown family c
    → (attempt : Attempt family m c r) → Ends attempt faults
spared_attempt {family = family} {m = m} {c = c} faults h known
      (Attempt.broken rule text found mode) =
    absurd (h.passing rule found mode)
spared_attempt {family = family} {m = m} {c = c} faults h known
      (Attempt.failed rule text found mode more) =
    let (left, is, spared) =
      one_less faults c _ rule found more
        (find_rule-record_attempt family (op_of m) _ _ _ family (op_of m)
          ∙ find_rule-count_hit family (op_of m) c family (op_of m))
        (seen-record_attempt family (op_of m) (count_hit family (op_of m) c) Outcome.transient
            (Detail.attempt_number (seen family (op_of m) c + 1)) family (op_of m)
          ∙ seen-count_hit_self family (op_of m) c)
        h in
    inr (text, left, refl, is, spared)
spared_attempt {family = family} {m = m} {c = c} faults h known
      (Attempt.missing text unknown clears) =
    absurd (known unknown)
spared_attempt {family = family} {m = m} {c = c} faults h known
      (Attempt.lost rule text status has mode more found) =
    let (left, is, spared) =
      one_less faults c _ rule has more
        (find_rule-count_hit family (op_of m) _ family (op_of m)
          ∙ find_rule-committed family m status c family (op_of m))
        (seen-count_hit_self family (op_of m) (committed family m status c)
          ∙ ap (λ n. n + 1) (seen-committed family m status c family (op_of m)))
        h in
    inr (text, left, refl, is, spared)
spared_attempt {family = family} {m = m} {c = c} faults h known
      (Attempt.done a status found passes) =
    inl (a, refl)

-- `retryable` around an operation that has no more faults left than the attempts after this one.
module _ (family : String) (m : Mutation) (fn : ClusterAction (Unit {0}))
    (attempts_at : (c : MockCluster) → Attempt family m c (fn c)) (P : MockCluster → Type 0)
    (keeps : (c : MockCluster) → P c → P (fn c).1)
    (knows : (c : MockCluster) → P c → IsKnown family c) where
  retry_from-Returns :
      (faults attempts attempt left : ℕ) (c : MockCluster)
      → faults ≤ left
      → attempt + suc left ≡ attempts
      → IsSpared faults family (op_of m) c
      → P c
      → Returns P (retry_from attempts attempt (suc left) fn c)
  unfolding retry_from
  retry_from-Returns faults attempts attempt zero c enough at spared p =
      elim (spared_attempt faults spared (knows c p) (attempts_at c)) [
        | inl (_, returned) ↦
            subst (Returns P)
              (sym (
                after_ok (retry_from attempts (attempt + 1) zero fn) (fn c) ""
                  (eqb attempt (attempts - 1)) returned))
              (Returns-pure tt _ (keeps c p))
        | inr (text, faults', raised, is, spared') ↦ absurd (omega (arith, is, enough))
      ]
  retry_from-Returns faults attempts attempt (suc left) c enough at spared p =
      elim (spared_attempt faults spared (knows c p) (attempts_at c)) [
        | inl (_, returned) ↦
            subst (Returns P)
              (sym (
                after_ok (retry_from attempts (attempt + 1) (suc left) fn) (fn c) ""
                  (eqb attempt (attempts - 1)) returned))
              (Returns-pure tt _ (keeps c p))
        | inr (text, faults', raised, is, spared') ↦
            subst (Returns P)
              (sym (
                after_transient (retry_from attempts (attempt + 1) (suc left) fn) (fn c) text
                  (eqb attempt (attempts - 1)) (ground (arith, at)) raised))
              (retry_from-Returns faults' attempts (attempt + 1) left (fn c).1
                (omega (arith, is, enough)) (omega (arith, at)) spared' (keeps c p))
      ]

  retryable-Returns :
      (attempts : ℕ) (c : MockCluster)
      → IsSpared attempts family (op_of m) c
      → P c
      → Returns P (retryable (suc attempts) fn c)
  unfolding retryable
  retryable-Returns attempts c spared p =
      retry_from-Returns attempts (suc attempts) 0 attempts c (omega arith) (omega arith) spared p

-- A family with a file, and no more faults left than `retryable` makes attempts after its first.
pub record IsServed (family : String) (c : MockCluster) : Type 0 where
  pub known : IsKnown family c
  pub spared : (m : Mutation) → IsSpared 3 family (op_of m) c

pub IsServed-Attempt :
    {A : Type 0} {family : String} {m : Mutation} {c : MockCluster}
    {r : Result ClusterError A × MockCluster} (other : String)
    → IsServed other c
    → Attempt family m c r
    → IsServed other r.1
IsServed-Attempt other h attempt = record {
  known = known-Attempt other h.known attempt;
  spared = λ m'. IsSpared-Attempt attempt 3 other (op_of m') (h.spared m');
}

-- Commands on one of the served families.
module _ (I : String → Type 0) (family : String) (served : I family) where
  abbrev All : MockCluster → Type 0
  All c = (other : String) → I other → IsServed other c

  command-Returns :
      (m : Mutation) (fn : ClusterAction (Unit {0}))
      → ((c : MockCluster) → Attempt family m c (fn c))
      → (c : MockCluster) → All c
      → Returns All (retryable 4 fn c)
  command-Returns m fn attempts_at c all =
      retryable-Returns family m fn attempts_at All
        (λ c' h other i. IsServed-Attempt other (h other i) (attempts_at c'))
        (λ c' h. let now = h family served in now.known) 3 c
        (let now = all family served in now.spared m) all

  pub pause-Returns : (c : MockCluster) → All c → Returns All (pause family c)
  unfolding pause trigger_savepoint Actor.suspend
  pause-Returns c all =
      Returns-bind (trigger_savepoint family) (λ _. Actor.suspend family) c
        (command-Returns savepoint (do Cluster.trigger_savepoint family; pure tt)
          (λ c'. with_value family savepoint c' tt (trigger_savepoint-Attempt family c')) c all)
        (λ _ c' h.
          command-Returns suspend (Cluster.suspend_job family) (suspend_job-Attempt family) c' h)

  pub patch_config-Returns :
      (datatypes : List String) (c : MockCluster)
      → All c
      → Returns All (patch_config family datatypes c)
  unfolding patch_config
  patch_config-Returns datatypes =
      command-Returns (patch datatypes) (Cluster.patch_configmap family datatypes)
        (patch_configmap-Attempt family datatypes)

  pub resume-Returns : (c : MockCluster) → All c → Returns All (Actor.resume family c)
  unfolding Actor.resume
  resume-Returns = command-Returns resume (Cluster.resume_job family) (resume_job-Attempt family)
