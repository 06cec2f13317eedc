-- ===== src/Cluster/Attempt/Budget.antt =====
-- The rules and counters across an attempt, and which way a rule makes an attempt end.
use mathlib.Core.Option.{some-injective}
use flink_control_plane_poc.Prelude.{◌+◌, ◌≤◌, ◌<◌, String, ◌≡◌, refl, sym, ap, ◌∙◌, some, arith}
use flink_control_plane_poc.Prelude.Equality.{string_eq}
use flink_control_plane_poc.Prelude.Dict.{lookup, lookup_or, lookup-insert}
use flink_control_plane_poc.Prelude.Lists.{length, length-append}
use flink_control_plane_poc.Exec.{Result, ok, err}
use flink_control_plane_poc.Domain.{ClusterError, transient_error, permanent_error, FamilyStatus}
use flink_control_plane_poc.Cluster.{
  MockCluster, Op, Outcome, Detail, ChaosMode, ChaosRule, rule_key, chaos_rules, hits, audit,
  find_rule, seen, record_attempt, count_hit, write, write_savepoint,
}
use flink_control_plane_poc.Cluster.Attempt.{Mutation, savepoint, op_of, committed, Attempt, Passes}
use flink_control_plane_poc.Cluster.Attempt.Operations.{find_rule-committed, seen-committed}

module _ (family : String) (op : Op) (c : MockCluster) where
  pub find_rule-count_hit :
      (other : String) (o : Op) → find_rule other o (count_hit family op c) ≡ find_rule other o c
  unfolding find_rule chaos_rules count_hit
  find_rule-count_hit other o = refl

  pub seen-count_hit_self : seen family op (count_hit family op c) ≡ seen family op c + 1
  unfolding seen hits count_hit lookup_or
  seen-count_hit_self = ground (
    arith,
    lookup-insert (rule_key family op) (rule_key family op) (seen family op c + 1) (hits c),
  )

  pub seen-le-count_hit :
      (other : String) (o : Op) → seen other o c ≤ seen other o (count_hit family op c)
  unfolding seen hits count_hit lookup_or
  seen-le-count_hit other o =
      ground (
        arith,
        lookup-insert (rule_key other o) (rule_key family op) (seen family op c + 1) (hits c),
      )

  pub audit-count_hit : audit (count_hit family op c) ≡ audit c
  unfolding audit count_hit
  audit-count_hit = refl

  module _ (outcome : Outcome) (info : Detail) where
    pub find_rule-record_attempt :
        (other : String) (o : Op)
        → find_rule other o (record_attempt op family outcome info c) ≡ find_rule other o c
    unfolding find_rule chaos_rules record_attempt
    find_rule-record_attempt other o = refl

    pub seen-record_attempt :
        (other : String) (o : Op)
        → seen other o (record_attempt op family outcome info c) ≡ seen other o c
    unfolding seen hits record_attempt
    seen-record_attempt other o = refl

    pub length-record_attempt :
        length (audit (record_attempt op family outcome info c)) ≡ length (audit c) + 1
    unfolding record_attempt
    length-record_attempt = length-append (audit c) _

pub length-committed :
    (family : String) (m : Mutation) (status : FamilyStatus) (c : MockCluster)
    → length (audit (committed family m status c)) ≡ length (audit c) + 1
unfolding record_attempt write write_savepoint audit
length-committed family savepoint status c = length-append (audit c) _
length-committed family _ status c = length-append (audit c) _

module _ {A : Type 0} {family : String} {m : Mutation} {c : MockCluster} where
  -- No attempt changes a rule.
  pub find_rule-Attempt :
      {r : Result ClusterError A × MockCluster} (other : String) (o : Op)
      → Attempt family m c r
      → find_rule other o r.1 ≡ find_rule other o c
  find_rule-Attempt other o (Attempt.broken rule text found mode) =
      find_rule-record_attempt family (op_of m) c _ _ other o
  find_rule-Attempt other o (Attempt.failed rule text found mode more) =
      find_rule-record_attempt family (op_of m) _ _ _ other o
      ∙ find_rule-count_hit family (op_of m) c other o
  find_rule-Attempt other o (Attempt.missing text unknown clears) = refl
  find_rule-Attempt other o (Attempt.lost rule text status has mode more found) =
      find_rule-count_hit family (op_of m) _ other o ∙ find_rule-committed family m status c other o
  find_rule-Attempt other o (Attempt.done a status found passes) =
      find_rule-committed family m status c other o

  -- No counter ever falls.
  pub seen-le-Attempt :
      {r : Result ClusterError A × MockCluster} (other : String) (o : Op)
      → Attempt family m c r
      → seen other o c ≤ seen other o r.1
  seen-le-Attempt other o (Attempt.broken rule text found mode) =
      omega (arith, seen-record_attempt family (op_of m) c Outcome.permanent Detail.empty other o)
  seen-le-Attempt other o (Attempt.failed rule text found mode more) = omega (
    arith,
    seen-le-count_hit family (op_of m) c other o,
    seen-record_attempt family (op_of m) (count_hit family (op_of m) c) Outcome.transient
        (Detail.attempt_number (seen family (op_of m) c + 1)) other o,
  )
  seen-le-Attempt other o (Attempt.missing text unknown clears) = omega arith
  seen-le-Attempt other o (Attempt.lost rule text status has mode more found) = omega (
    arith,
    seen-le-count_hit family (op_of m) (committed family m status c) other o,
    seen-committed family m status c other o,
  )
  seen-le-Attempt other o (Attempt.done a status found passes) =
      omega (arith, seen-committed family m status c other o)

-- What a failed attempt before the write leaves: the same families and rule, and one more entry.
pub record OneMoreTry (family : String) (op : Op) (rule : ChaosRule) (c c' : MockCluster)
    : Type 0 where
  pub same_families : c'.families ≡ c.families
  pub same_rule : find_rule family op c' ≡ some rule
  pub one_entry : length (audit c') ≡ length (audit c) + 1

module _ {A : Type 0} {family : String} {m : Mutation} {c : MockCluster} (rule : ChaosRule)
    (has : find_rule family (op_of m) c ≡ some rule) where
  pub transient_fails :
      {r : Result ClusterError A × MockCluster}
      → rule.mode ≡ ChaosMode.transient
      → seen family (op_of m) c < rule.times
      → Attempt family m c r
      → (text : String) × (r.0 ≡ err (transient_error text))
        × OneMoreTry family (op_of m) rule c r.1
        × (seen family (op_of m) r.1 ≡ seen family (op_of m) c + 1)
  unfolding record_attempt count_hit
  transient_fails mode more (Attempt.broken rule' text found mode') = absurd (ground arith)
  transient_fails mode more (Attempt.failed rule' text found mode' more') = (
    text,
    refl,
    record {
      same_families = refl;
      same_rule =
          find_rule-record_attempt family (op_of m) _ _ _ family (op_of m)
          ∙ find_rule-count_hit family (op_of m) c family (op_of m)
          ∙ has;
      one_entry = length-record_attempt family (op_of m) (count_hit family (op_of m) c) _ _;
    },
    (seen-record_attempt family (op_of m) (count_hit family (op_of m) c) Outcome.transient
          (Detail.attempt_number (seen family (op_of m) c + 1)) family (op_of m)
        ∙ seen-count_hit_self family (op_of m) c),
  )
  transient_fails mode more (Attempt.missing text unknown clears) = absurd (ground arith)
  transient_fails mode more (Attempt.lost rule' text status found mode' more' known) =
      absurd (ground arith)
  transient_fails mode more (Attempt.done a status known passes) = absurd (ground arith)

  pub permanent_fails :
      {r : Result ClusterError A × MockCluster}
      → rule.mode ≡ ChaosMode.permanent
      → Attempt family m c r
      → (text : String) × (r.0 ≡ err (permanent_error text))
        × OneMoreTry family (op_of m) rule c r.1
  unfolding record_attempt
  permanent_fails mode (Attempt.broken rule' text found mode') = (
    text,
    refl,
    record {
      same_families = refl;
      same_rule = find_rule-record_attempt family (op_of m) c _ _ family (op_of m) ∙ has;
      one_entry = length-record_attempt family (op_of m) c _ _;
    },
  )
  permanent_fails mode (Attempt.failed rule' text found mode' more') = absurd (ground arith)
  permanent_fails mode (Attempt.missing text unknown clears) = absurd (ground arith)
  permanent_fails mode (Attempt.lost rule' text status found mode' more' known) =
      absurd (ground arith)
  permanent_fails mode (Attempt.done a status known passes) = absurd (ground arith)

-- An attempt that nothing stands in the way of returns, and leaves one more entry.
pub attempt_returns :
    {A : Type 0} {family : String} {m : Mutation} {c : MockCluster} (status : FamilyStatus)
    {r : Result ClusterError A × MockCluster}
    → lookup family c.families ≡ some status
    → Passes family (op_of m) c
    → Attempt family m c r
    → (a : A) × (r.0 ≡ ok a) × (r.1 ≡ committed family m status c)
attempt_returns status known passes (Attempt.broken rule text found mode) = absurd (ground arith)
attempt_returns status known passes (Attempt.failed rule text found mode more) =
    absurd (ground arith)
attempt_returns status known passes (Attempt.missing text unknown clears) = absurd (ground arith)
attempt_returns status known passes (Attempt.lost rule text status' found mode more known') =
    absurd (ground arith)
attempt_returns {family = family} {m = m} {c = c} status known passes
      (Attempt.done a status' known' passes') =
    (a, refl, ap (λ s. committed family m s c) (some-injective _ _ (sym known' ∙ known)))
