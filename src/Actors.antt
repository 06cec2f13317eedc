-- ===== src/Actors.antt =====
-- What a saga asks of the actors of the job families, whichever engine runs them: the commands of
-- `FamilyCommand`, as actions over the state of the cluster and of the actors.
pub mod Steps
use flink_control_plane_poc.Prelude.{ℕ, String, ◌≡◌, ◌≢◌, Bool, Option, none, some, List}
use flink_control_plane_poc.Prelude.Dict.{lookup}
use flink_control_plane_poc.Exec.{ok, err, Exec, Ensures}
use flink_control_plane_poc.Domain.{FamilyState, running, FamilyStatus}
use flink_control_plane_poc.Cluster.{MockCluster}
use flink_control_plane_poc.Cluster.Frame.{state_of, datatypes_of}
use flink_control_plane_poc.Cluster.WellFormed.{IsWellFormed}
use flink_control_plane_poc.Cluster.Changes.{OnlyState, OnlyDatatypes}

-- `_Compensation`
pub record Compensation : Type 0 where
  pub label : String
  pub family : String
  pub datatypes : Option (List String)
  pub desired_state : Option FamilyState

-- The commands that one run can send: each step once, and the n-th restore of the unwinding.
pub data Command : Type 0 where
  pause patch resume : String → Command
  restore : ℕ → String → Command

pub record Actors : Type 1 where
  pub S : Type 0
  pub E : Type 0
  pub cluster : S → MockCluster
  -- `str(err)`
  pub text : E → String
  pub read_status : String → Exec S E FamilyStatus
  pub pause : String → Exec S E (Unit {0})
  pub patch_config : String → List String → Exec S E (Unit {0})
  pub resume : String → Exec S E (Unit {0})
  -- the restore of an intent, with its place in the unwinding
  pub restore : ℕ → Compensation → Exec S E Bool
  -- For the contract: the actor of the family remembers a pause that returned, so that a resume is
  -- carried out; and a command has not been sent.
  pub IsPaused : S → String → Type 0
  pub IsFresh : S → Command → Type 0

-- The contract of the commands.
pub record IsLawful (A : Actors) : Type 1 where
  pub read-ok :
      (family : String) (s t : A.S) (status : FamilyStatus)
      → A.read_status family s ≡ (ok status, t)
      → (t ≡ s) × (lookup family (A.cluster s).families ≡ some status)
  pub read-err :
      (family : String) (s t : A.S) (e : A.E)
      → A.read_status family s ≡ (err e, t)
      → (t ≡ s) × (lookup family (A.cluster s).families ≡ none)
  pub pause-Ensures :
      (family : String) (s : A.S)
      → A.IsFresh s (pause family)
      → IsWellFormed (A.cluster s)
      → Ensures
          (λ t.
            OnlyState family (A.cluster s) (A.cluster t)
            × ((other : Command) → other ≢ pause family → A.IsFresh s other → A.IsFresh t other)
            × ((other : String) → other ≢ family → A.IsPaused s other → A.IsPaused t other))
          (λ t. A.IsPaused t family)
          (A.pause family s)
  pub patch-Ensures :
      (family : String) (datatypes : List String) (s : A.S)
      → A.IsFresh s (patch family)
      → IsWellFormed (A.cluster s)
      → Ensures
          (λ t.
            OnlyDatatypes family (A.cluster s) (A.cluster t)
            × ((other : Command) → other ≢ patch family → A.IsFresh s other → A.IsFresh t other))
          (λ t.
            (datatypes_of (A.cluster t) family ≡ some datatypes)
            × ((other : String) → A.IsPaused s other → A.IsPaused t other))
          (A.patch_config family datatypes s)
  pub resume-Ensures :
      (family : String) (s : A.S)
      → A.IsFresh s (resume family)
      → IsWellFormed (A.cluster s)
      → Ensures
          (λ t.
            OnlyState family (A.cluster s) (A.cluster t)
            × ((other : Command) → other ≢ resume family → A.IsFresh s other → A.IsFresh t other)
            × ((other : String) → other ≢ family → A.IsPaused s other → A.IsPaused t other))
          (λ t. A.IsPaused s family → state_of (A.cluster t) family ≡ some running)
          (A.resume family s)
  pub restore-state-Ensures :
      (index : ℕ) (item : Compensation) (desired : FamilyState) (s : A.S)
      → (item.desired_state ≡ some desired)
      → (item.datatypes ≡ none)
      → A.IsFresh s (restore index item.label)
      → IsWellFormed (A.cluster s)
      → Ensures
          (λ t.
            OnlyState item.family (A.cluster s) (A.cluster t)
            × ((other : Command)
                → other ≢ restore index item.label
                → A.IsFresh s other
                → A.IsFresh t other))
          (λ t. state_of (A.cluster t) item.family ≡ some desired)
          (A.restore index item s)
  pub restore-datatypes-Ensures :
      (index : ℕ) (item : Compensation) (datatypes : List String) (s : A.S)
      → (item.datatypes ≡ some datatypes)
      → (item.desired_state ≡ none)
      → A.IsFresh s (restore index item.label)
      → IsWellFormed (A.cluster s)
      → Ensures
          (λ t.
            OnlyDatatypes item.family (A.cluster s) (A.cluster t)
            × ((other : Command)
                → other ≢ restore index item.label
                → A.IsFresh s other
                → A.IsFresh t other))
          (λ t. datatypes_of (A.cluster t) item.family ≡ some datatypes)
          (A.restore index item s)
