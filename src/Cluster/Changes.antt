-- ===== src/Cluster/Changes.antt =====
-- The two kinds of change to a family: of its state, and of its datatypes.
use flink_control_plane_poc.Prelude.{String, ◌≡◌, refl, ◌∙◌, ◌≢◌, Option, none, some, List, ◌<>◌}
use flink_control_plane_poc.Prelude.Dict.{lookup}
use flink_control_plane_poc.Exec.{Result, ok, err, ◌>>=◌, Ensures}
use flink_control_plane_poc.Domain.{ClusterError, permanent_error, running, suspended, FamilyStatus}
use flink_control_plane_poc.Cluster.{MockCluster, ClusterAction, read}
use flink_control_plane_poc.Cluster.Attempt.{
  Mutation, savepoint, suspend, resume, patch, update, bump, Attempt,
}
use flink_control_plane_poc.Cluster.Frame.{
  view, state_of, datatypes_of, view-Attempt, view-Attempt_self, view-Attempt_ne,
}
use flink_control_plane_poc.Cluster.WellFormed.{IsWellFormed, Attempt-IsWellFormed}

-- From `c`, no state but that of `family` has changed, and no datatypes.
pub record OnlyState (family : String) (c c' : MockCluster) : Type 0 where
  pub formed : IsWellFormed c'
  pub datatypes : (other : String) → datatypes_of c' other ≡ datatypes_of c other
  pub others : (other : String) → other ≢ family → state_of c' other ≡ state_of c other

-- From `c`, no datatypes but those of `family` have changed, and no state.
pub record OnlyDatatypes (family : String) (c c' : MockCluster) : Type 0 where
  pub formed : IsWellFormed c'
  pub states : (other : String) → state_of c' other ≡ state_of c other
  pub others : (other : String) → other ≢ family → datatypes_of c' other ≡ datatypes_of c other

pub OnlyState-refl : (family : String) (c : MockCluster) → IsWellFormed c → OnlyState family c c
OnlyState-refl family c h = record { formed = h; datatypes = λ _. refl; others = λ _ _. refl }

pub OnlyDatatypes-refl :
    (family : String) (c : MockCluster) → IsWellFormed c → OnlyDatatypes family c c
OnlyDatatypes-refl family c h = record { formed = h; states = λ _. refl; others = λ _ _. refl }

Attempt-Ensures :
    {A : Type 0} {family : String} {m : Mutation} {c : MockCluster} {I Q : MockCluster → Type 0}
    {r : Result ClusterError A × MockCluster}
    → Attempt family m c r
    → I r.1
    → ((a : A) (c' : MockCluster) → Attempt family m c (ok a, c') → Q c')
    → Ensures I Q r
Attempt-Ensures (Attempt.broken rule text found mode) i q = Ensures.raised _ _ i
Attempt-Ensures (Attempt.failed rule text found mode more) i q = Ensures.raised _ _ i
Attempt-Ensures (Attempt.missing text unknown clears) i q = Ensures.raised _ _ i
Attempt-Ensures (Attempt.lost rule text status has mode more found) i q = Ensures.raised _ _ i
Attempt-Ensures (Attempt.done a status found passes) i q =
    Ensures.returned a _ i (q a _ (Attempt.done a status found passes))

module _ {A : Type 0} {family : String} (c₀ : MockCluster) {c : MockCluster}
    {r : Result ClusterError A × MockCluster} where
  step_state :
      (m : Mutation)
      → ((status : FamilyStatus) → (bump (update family m status)).datatypes ≡ status.datatypes)
      → OnlyState family c₀ c
      → Attempt family m c r
      → OnlyState family c₀ r.1
  step_state m keeps h attempt = record {
    formed = Attempt-IsWellFormed h.formed attempt;
    datatypes = λ other.
        view-Attempt (λ status. status.datatypes) keeps other h.formed.named attempt
        ∙ h.datatypes other;
    others = λ other ne.
        view-Attempt_ne (λ status. status.state) other h.formed.named ne attempt
        ∙ h.others other ne;
  }

  pub savepoint-Ensures :
      Attempt family savepoint c r
      → OnlyState family c₀ c
      → Ensures (OnlyState family c₀) (λ _. Unit) r
  savepoint-Ensures attempt h =
      Attempt-Ensures attempt (step_state savepoint (λ _. refl) h attempt) (λ _ _ _. tt)

  pub suspend-Ensures :
      Attempt family suspend c r
      → OnlyState family c₀ c
      → Ensures (OnlyState family c₀) (λ c'. state_of c' family ≡ some suspended) r
  suspend-Ensures attempt h =
      Attempt-Ensures attempt (step_state suspend (λ _. refl) h attempt) (λ a c' returned.
        view-Attempt_self (λ status. status.state) suspended (λ _. refl) a c' h.formed.named
          returned)

  pub resume-Ensures :
      Attempt family resume c r
      → OnlyState family c₀ c
      → Ensures (OnlyState family c₀) (λ c'. state_of c' family ≡ some running) r
  resume-Ensures attempt h =
      Attempt-Ensures attempt (step_state resume (λ _. refl) h attempt) (λ a c' returned.
        view-Attempt_self (λ status. status.state) running (λ _. refl) a c' h.formed.named returned)

  pub patch-Ensures :
      (datatypes : List String)
      → Attempt family (patch datatypes) c r
      → OnlyDatatypes family c₀ c
      → Ensures (OnlyDatatypes family c₀) (λ c'. datatypes_of c' family ≡ some datatypes) r
  patch-Ensures datatypes attempt h =
      Attempt-Ensures attempt
        (record {
          formed = Attempt-IsWellFormed h.formed attempt;
          states = λ other.
              view-Attempt (λ status. status.state) (λ _. refl) other h.formed.named attempt
              ∙ h.states other;
          others = λ other ne.
              view-Attempt_ne (λ status. status.datatypes) other h.formed.named ne attempt
              ∙ h.others other ne;
        })
        (λ a c' returned.
          view-Attempt_self (λ status. status.datatypes) datatypes (λ _. refl) a c' h.formed.named
            returned)

-- A read changes nothing, and raises for a family with no file.
pub read-Ensures :
    {A : Type 0} {I Q : MockCluster → Type 0} (family : String)
    (rest : FamilyStatus → ClusterAction A) (c : MockCluster)
    → I c
    → ((status : FamilyStatus)
        → lookup family c.families ≡ some status
        → Ensures I Q (rest status c))
    → Ensures I Q ((read family >>= rest) c)
unfolding read
read-Ensures {A} {I} {Q} family rest c i known = go (lookup family c.families) refl
  where
    go :
        (found : Option FamilyStatus)
        → lookup family c.families ≡ found
        → Ensures I Q (
            let r : Result ClusterError FamilyStatus × MockCluster = elim found [
              | none ↦ (err (permanent_error ("unknown job family: " <> family)), c)
              | some status ↦ (ok status, c)
            ] in
            let q : Result ClusterError A × MockCluster = elim r.0 [
              | ok status ↦ rest status r.1
              | err e ↦ (err e, r.1)
            ] in
            q)
    go none h = Ensures.raised _ c i
    go (some status) h = known status h

pub view_found :
    {B : Type 0} (part : FamilyStatus → B) (family : String) (status : FamilyStatus)
    (c : MockCluster)
    → lookup family c.families ≡ some status
    → view part c family ≡ some (part status)
view_found part family status c found = rw (found, view)
