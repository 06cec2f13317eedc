-- ===== src/Cluster/WellFormed.antt =====
-- The invariant of the cluster's files: what the audit log and the statuses say of one another.
use mathlib.Core.Path.{subst}
use flink_control_plane_poc.Prelude.{
  sym, ap, ◌∙◌, ℕ, suc, ◌+◌, String, ◌≡◌, refl, Bool, false, some, List, [], ◌∷◌, ◌++◌, arith,
  if◌then◌else◌,
}
use flink_control_plane_poc.Prelude.Equality.{◌==◌, string_eq}
use flink_control_plane_poc.Prelude.Dict.{Dict, lookup, insert, lookup-insert}
use flink_control_plane_poc.Prelude.Lists.{length}
use flink_control_plane_poc.Exec.{Result}
use flink_control_plane_poc.Domain.{ClusterError, FamilyStatus}
use flink_control_plane_poc.Cluster.{
  MockCluster, AuditEntry, Op, Outcome, Detail, audit, count_hit, record_attempt, write,
  write_savepoint, seed, write_all, set_chaos, ChaosRule,
}
use flink_control_plane_poc.Cluster.Attempt.{
  Mutation, savepoint, op_of, detail, update, bump, committed, Attempt,
}
use flink_control_plane_poc.Cluster.Frame.{IsNamed}

-- The entries are numbered in order, with no gap.
abbrev pub Numbered : ℕ → List AuditEntry → Type 0
Numbered n [] = Unit
Numbered n (e ∷ es) = (e.seq ≡ n) × Numbered (suc n) es

abbrev pub is_write : String → AuditEntry → Bool
is_write family e = elim e.outcome [ Outcome.ok ↦ family == e.family | _ ↦ false ]

-- How many entries record a write of the family.
abbrev pub writes : String → List AuditEntry → ℕ
writes family [] = 0
writes family (e ∷ es) = (if is_write family e then 1 else 0) + writes family es

pub record IsWellFormed (c : MockCluster) : Type 0 where
  pub named : IsNamed c
  pub numbered : Numbered 0 (audit c)
  pub counted :
      (family : String) (status : FamilyStatus)
      → lookup family c.families ≡ some status
      → status.generation ≡ writes family (audit c)

Numbered-append :
    (n : ℕ) (es : List AuditEntry) (e : AuditEntry)
    → Numbered n es
    → e.seq ≡ n + length es
    → Numbered n (es ++ e ∷ [])
Numbered-append n [] e h at = (omega arith, tt)
Numbered-append n (_ ∷ es) e h at = (h.0, Numbered-append (suc n) es e h.1 (omega arith))

writes-append :
    (family : String) (es : List AuditEntry) (e : AuditEntry)
    → writes family (es ++ e ∷ []) ≡ writes family es + (if is_write family e then 1 else 0)
writes-append family [] e = omega arith
writes-append family (x ∷ es) e = omega (arith, writes-append family es e)

-- How a step of the files keeps the invariant: by no write, and by one write with its entry.
module _ (c c' : MockCluster) where
  IsWellFormed-kept :
      (c'.families ≡ c.families) → audit c' ≡ audit c → IsWellFormed c → IsWellFormed c'
  IsWellFormed-kept same same_log h = record {
    named = λ family status found. h.named family status (ap (lookup family) (sym same) ∙ found);
    numbered = subst (Numbered 0) (sym same_log) h.numbered;
    counted = λ family status found.
        ground (arith, same_log, h.counted family status (ap (lookup family) (sym same) ∙ found));
  }

  IsWellFormed-failed :
      (e : AuditEntry)
      → (c'.families ≡ c.families)
      → audit c' ≡ audit c ++ e ∷ []
      → e.seq ≡ length (audit c)
      → ((family : String) → is_write family e ≡ false)
      → IsWellFormed c
      → IsWellFormed c'
  IsWellFormed-failed e same log at failed h = record {
    named = λ family status found. h.named family status (ap (lookup family) (sym same) ∙ found);
    numbered =
        subst (Numbered 0) (sym log) (Numbered-append 0 (audit c) e h.numbered (omega (arith, at)));
    counted = λ family status found. ground (
      arith,
      h.counted family status (ap (lookup family) (sym same) ∙ found),
      ap (writes family) log,
      writes-append family (audit c) e,
      failed family,
    );
  }

  IsWellFormed-written :
      (e : AuditEntry) (old new : FamilyStatus)
      → lookup old.family c.families ≡ some old
      → (new.family ≡ old.family)
      → (new.generation ≡ old.generation + 1)
      → (c'.families ≡ insert old.family new c.families)
      → audit c' ≡ audit c ++ e ∷ []
      → e.seq ≡ length (audit c)
      → ((family : String) → is_write family e ≡ (family == old.family))
      → IsWellFormed c
      → IsWellFormed c'
  IsWellFormed-written e old new was same_family next wrote log at written h = record {
    named = λ family status found. ground (
      arith,
      h.named family status,
      ap (lookup family) wrote,
      lookup-insert family old.family new c.families,
    );
    numbered =
        subst (Numbered 0) (sym log) (Numbered-append 0 (audit c) e h.numbered (omega (arith, at)));
    counted = λ family status found. ground (
      arith,
      h.counted family status,
      h.counted old.family old was,
      ap (lookup family) wrote,
      lookup-insert family old.family new c.families,
      ap (writes family) log,
      writes-append family (audit c) e,
      written family,
    );
  }

entry : ℕ → Op → String → Outcome → Detail → AuditEntry
entry n op family outcome info = record {
  seq = n;
  op = op;
  family = family;
  outcome = outcome;
  detail = info;
}

committed-IsWellFormed :
    (family : String) (m : Mutation) (status : FamilyStatus) (c : MockCluster)
    → lookup family c.families ≡ some status
    → IsWellFormed c
    → IsWellFormed (committed family m status c)
unfolding record_attempt write write_savepoint entry
committed-IsWellFormed family savepoint status c found h =
    IsWellFormed-written c _
      (entry (length (audit c)) (op_of savepoint) status.family Outcome.ok
        (detail family savepoint status))
      status (bump (update family savepoint status))
      (ap (λ k. lookup k c.families) (h.named family status found) ∙ found) refl refl refl refl refl
      (λ _. refl) h
committed-IsWellFormed family m status c found h =
    IsWellFormed-written c _
      (entry (length (audit c)) (op_of m) status.family Outcome.ok (detail family m status)) status
      (bump (update family m status))
      (ap (λ k. lookup k c.families) (h.named family status found) ∙ found) refl refl refl refl refl
      (λ _. refl) h

count_hit-IsWellFormed :
    (family : String) (op : Op) (c : MockCluster)
    → IsWellFormed c
    → IsWellFormed (count_hit family op c)
unfolding count_hit audit
count_hit-IsWellFormed family op c h = IsWellFormed-kept c _ refl refl h

-- An attempt keeps the invariant, however it ends.
pub Attempt-IsWellFormed :
    {A : Type 0} {family : String} {m : Mutation} {c : MockCluster}
    {r : Result ClusterError A × MockCluster}
    → IsWellFormed c
    → Attempt family m c r
    → IsWellFormed r.1
unfolding record_attempt entry
Attempt-IsWellFormed {family = family} {m = m} {c = c} h (Attempt.broken rule text found mode) =
    IsWellFormed-failed c _
      (entry (length (audit c)) (op_of m) family Outcome.permanent Detail.empty) refl refl refl
      (λ _. refl) h
Attempt-IsWellFormed {family = family} {m = m} {c = c} h
      (Attempt.failed rule text found mode more) =
    let counted = count_hit family (op_of m) c in
    IsWellFormed-failed counted _
      (entry (length (audit counted)) (op_of m) family Outcome.transient _) refl refl refl
      (λ _. refl) (count_hit-IsWellFormed family (op_of m) c h)
Attempt-IsWellFormed h (Attempt.missing text unknown clears) = h
Attempt-IsWellFormed {family = family} {m = m} {c = c} h
      (Attempt.lost rule text status has mode more found) =
    count_hit-IsWellFormed family (op_of m) _ (committed-IsWellFormed family m status c found h)
Attempt-IsWellFormed {family = family} {m = m} {c = c} h (Attempt.done a status found passes) =
    committed-IsWellFormed family m status c found h

-- A fresh status is written while the log is empty.
write-IsWellFormed :
    (status : FamilyStatus) (c : MockCluster)
    → status.generation ≡ 0
    → audit c ≡ []
    → IsWellFormed c
    → IsWellFormed (write status c)
unfolding write audit
write-IsWellFormed status c new log h = record {
  named = λ family old found.
      ground (arith, h.named family old, lookup-insert family status.family status c.families);
  numbered = h.numbered;
  counted = λ family old found. ground (
    arith,
    h.counted family old,
    ap (writes family) log,
    lookup-insert family status.family status c.families,
  );
}

write_all-IsWellFormed :
    (families : Dict (List String)) (c : MockCluster)
    → audit c ≡ []
    → IsWellFormed c
    → IsWellFormed (write_all families c)
unfolding write_all write audit
write_all-IsWellFormed [] c log h = h
write_all-IsWellFormed ((name, datatypes) ∷ rest) c log h =
    write_all-IsWellFormed rest _ log (write-IsWellFormed _ c refl log h)

-- Seeding a directory without families makes it well formed.
pub seed-IsWellFormed :
    (families : Dict (List String)) (c : MockCluster)
    → c.families ≡ []
    → IsWellFormed (seed families c)
unfolding seed audit lookup
seed-IsWellFormed families c fresh = write_all-IsWellFormed families _ refl (record {
  named = λ family status found. ground (arith, ap (lookup family) fresh);
  numbered = tt;
  counted = λ family status found. ground (arith, ap (lookup family) fresh);
})

-- Rules may be set at any time.
pub set_chaos-IsWellFormed :
    (rules : Dict ChaosRule) (c : MockCluster) → IsWellFormed c → IsWellFormed (set_chaos rules c)
unfolding set_chaos audit
set_chaos-IsWellFormed rules c h = IsWellFormed-kept c _ refl refl h
