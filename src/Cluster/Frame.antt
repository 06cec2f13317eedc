-- ===== src/Cluster/Frame.antt =====
-- What an attempt may change in the families' files, on every branch.
use flink_control_plane_poc.Prelude.{
  String, ◌≡◌, refl, sym, ap, ◌∙◌, ◌≢◌, ◌⊎◌, inl, inr, Option, none, some, List, arith,
}
use flink_control_plane_poc.Prelude.Equality.{string_eq}
use flink_control_plane_poc.Prelude.Dict.{lookup, insert, lookup-insert}
use flink_control_plane_poc.Exec.{Result, ok}
use flink_control_plane_poc.Domain.{ClusterError, FamilyState, FamilyStatus}
use flink_control_plane_poc.Cluster.{
  MockCluster, count_hit, record_attempt, write, write_savepoint, snapshot,
}
use flink_control_plane_poc.Cluster.Attempt.{Mutation, savepoint, update, bump, committed, Attempt}

-- Every status lies in the file that is named after its family.
abbrev pub IsNamed : MockCluster → Type 0
IsNamed c =
    (family : String) (status : FamilyStatus)
    → lookup family c.families ≡ some status
    → status.family ≡ family

-- A family's state, and the datatypes that are routed to it.
abbrev pub view {ℓ} : {B : Type ℓ} → (FamilyStatus → B) → MockCluster → String → Option B
view part c family = elim (lookup family c.families) [
  | none ↦ none
  | some status ↦ some (part status)
]

abbrev pub state_of : MockCluster → String → Option FamilyState
state_of = view (λ status. status.state)

abbrev pub datatypes_of : MockCluster → String → Option (List String)
datatypes_of = view (λ status. status.datatypes)

pub snapshot-eq :
    (c c' : MockCluster) (family : String)
    → state_of c' family ≡ state_of c family
    → datatypes_of c' family ≡ datatypes_of c family
    → snapshot c' family ≡ snapshot c family
unfolding snapshot
snapshot-eq c c' family same_state same_datatypes = ground arith

-- One write of the mutated status, or none.
abbrev Wrote : String → Mutation → MockCluster → MockCluster → Type 0
Wrote family m c c' =
    (status : FamilyStatus) × (lookup family c.families ≡ some status)
    × (c'.families ≡ insert status.family (bump (update family m status)) c.families)

families-committed :
    (family : String) (m : Mutation) (status : FamilyStatus) (c : MockCluster)
    → ((committed family m status c).families
        ≡ insert status.family (bump (update family m status)) c.families)
unfolding record_attempt write write_savepoint
families-committed family savepoint status c = refl
families-committed family _ status c = refl

family-update :
    (family : String) (m : Mutation) (status : FamilyStatus)
    → ((update family m status).family ≡ status.family)
family-update family savepoint status = refl
family-update family _ status = refl

module _ {A : Type 0} {family : String} {m : Mutation} {c : MockCluster} where
  Attempt-Wrote :
      {r : Result ClusterError A × MockCluster}
      → Attempt family m c r
      → (r.1.families ≡ c.families) ⊎ Wrote family m c r.1
  unfolding record_attempt count_hit
  Attempt-Wrote (Attempt.broken rule text found mode) = inl refl
  Attempt-Wrote (Attempt.failed rule text found mode more) = inl refl
  Attempt-Wrote (Attempt.missing text unknown clears) = inl refl
  Attempt-Wrote (Attempt.lost rule text status has mode more found) =
      inr (status, found, families-committed family m status c)
  Attempt-Wrote (Attempt.done a status found passes) =
      inr (status, found, families-committed family m status c)

  -- No family loses its file.
  pub known-Attempt :
      {r : Result ClusterError A × MockCluster} (other : String)
      → lookup other c.families ≢ none
      → Attempt family m c r
      → lookup other r.1.families ≢ none
  known-Attempt {r} other known attempt lost = elim (Attempt-Wrote attempt) [
    | inl same ↦ known (ap (lookup other) (sym same) ∙ lost)
    | inr (status, found, wrote) ↦ ground (
      arith,
      known,
      ap (lookup other) wrote,
      lost,
      lookup-insert other status.family (bump (update family m status)) c.families,
    )
  ]

  -- Every other family keeps its file.
  pub lookup-Attempt_ne :
      {r : Result ClusterError A × MockCluster} (other : String)
      → IsNamed c
      → other ≢ family
      → Attempt family m c r
      → lookup other r.1.families ≡ lookup other c.families
  lookup-Attempt_ne {r} other named ne attempt = elim (Attempt-Wrote attempt) [
    | inl same ↦ ap (lookup other) same
    | inr (status, found, wrote) ↦ rw wrote (
        ground (
          arith,
          named family status found,
          lookup-insert other status.family (bump (update family m status)) c.families,
        ))
  ]

  pub view-Attempt_ne :
      {B : Type 0} (part : FamilyStatus → B)
      → {r : Result ClusterError A × MockCluster} (other : String) → IsNamed c
      → other ≢ family
      → Attempt family m c r
      → view part r.1 other ≡ view part c other
  view-Attempt_ne part {r} other named ne attempt =
      ap (λ file. elim file [ none ↦ none | some status ↦ some (part status) ])
        (lookup-Attempt_ne other named ne attempt)

  pub Attempt-IsNamed :
      {r : Result ClusterError A × MockCluster} → IsNamed c → Attempt family m c r → IsNamed r.1
  Attempt-IsNamed {r} named attempt other old h = elim (Attempt-Wrote attempt) [
    | inl same ↦ named other old (ap (lookup other) (sym same) ∙ h)
    | inr (status, found, wrote) ↦ ground (
      arith,
      family-update family m status,
      named other old,
      ap (lookup other) wrote,
      lookup-insert other status.family (bump (update family m status)) c.families,
    )
  ]

  -- What the mutation leaves alone stays the same for every family.
  pub view-Attempt :
      {B : Type 0} (part : FamilyStatus → B)
      → ((status : FamilyStatus) → part (bump (update family m status)) ≡ part status)
      → {r : Result ClusterError A × MockCluster} (other : String) → IsNamed c
      → Attempt family m c r
      → view part r.1 other ≡ view part c other
  view-Attempt part keeps {r} other named attempt = elim (Attempt-Wrote attempt) [
    | inl same ↦
        ap (λ files. elim (lookup other files) [ none ↦ none | some status ↦ some (part status) ])
          same
    | inr (status, found, wrote) ↦ ground (
      arith,
      keeps status,
      named family status found,
      ap (lookup other) wrote,
      lookup-insert other status.family (bump (update family m status)) c.families,
    )
  ]

  -- A call that returns has written its part.
  pub view-Attempt_self :
      {B : Type 0} (part : FamilyStatus → B) (b : B)
      → ((status : FamilyStatus) → part (bump (update family m status)) ≡ b)
      → (a : A) (c' : MockCluster) → IsNamed c
      → Attempt family m c (ok a, c')
      → view part c' family ≡ some b
  view-Attempt_self part b sets a c' named (Attempt.done _ status found passes) = ground (
    arith,
    sets status,
    named family status found,
    ap (lookup family) (families-committed family m status c),
    lookup-insert family status.family (bump (update family m status)) c.families,
  )
