-- ===== src/Restate/Reads.antt =====
-- The reads of the Restate actors: of the stored status, and of the cached state.
use mathlib.Core.Path.{subst}
use flink_control_plane_poc.Prelude.{String, ◌≡◌, refl, sym, Option, none, some, arith}
use flink_control_plane_poc.Prelude.Equality.{string_eq}
use flink_control_plane_poc.Prelude.Dict.{lookup}
use flink_control_plane_poc.Exec.{Result, ok, err}
use flink_control_plane_poc.Domain.{FamilyState, suspended, FamilyStatus}
use flink_control_plane_poc.Cluster.{MockCluster}
use flink_control_plane_poc.Cluster
use flink_control_plane_poc.Restate.Steps.{StepError, Tries, Engine, call}
use flink_control_plane_poc.Restate.Steps
use flink_control_plane_poc.Restate.Actor.{Store, set, run_typed, fill, cached_state}

-- A read leaves the state alone, and fails only on an unknown family.
pub data Reads {S : Type 0} (files : S → MockCluster) (family : String) (s : S)
    : Result String FamilyStatus × S → Type 0 where
  known :
      (status : FamilyStatus)
      → lookup family (files s).families ≡ some status
      → Reads files family s (ok status, s)
  unknown :
      (text : String) → lookup family (files s).families ≡ none → Reads files family s (err text, s)

abbrev own_files : MockCluster → MockCluster
own_files c = c

read-cases :
    (family : String) (c : MockCluster) (r : Result StepError FamilyStatus × MockCluster)
    → Steps.read_status family c ≡ r
    → (r.1 ≡ c)
      × ((status : FamilyStatus) → r.0 ≡ ok status → lookup family c.families ≡ some status)
      × ((e : StepError) → r.0 ≡ err e → lookup family c.families ≡ none)
unfolding Steps.read_status call Cluster.read
read-cases family c r h = ground arith

Tries-Reads :
    (family : String) {c : MockCluster} {r : Result String FamilyStatus × MockCluster}
    → Tries (Steps.read_status family) c r
    → Reads own_files family c r
Tries-Reads family (Tries.returned status c c' h) =
    let (same, found, _) = read-cases family c _ h in
    subst (λ x. Reads own_files family c (ok status, x)) (sym same)
      (Reads.known status (found status refl))
Tries-Reads family (Tries.gave_up e text c c' h) =
    let (same, _, missing) = read-cases family c _ h in
    subst (λ x. Reads own_files family c (err text, x)) (sym same)
      (Reads.unknown text (missing e refl))
Tries-Reads family (Tries.again e c c' r h rest) =
    let (same, _, _) = read-cases family c _ h in
    subst (λ x. Reads own_files family x r) same (Tries-Reads family rest)

module _ (engine : Engine) (family : String) where
  abbrev pub files_of : Store → MockCluster
  files_of s = s.files

  pub run_typed-Reads :
      (s : Store) → Reads files_of family s (run_typed engine (Steps.read_status family) s)
  unfolding run_typed
  run_typed-Reads s =
      go (Tries-Reads family (engine.run_typed-Tries 4 (Steps.read_status family) s.files))
    where
      go :
          {r : Result String FamilyStatus × MockCluster}
          → Reads own_files family s.files r
          → Reads files_of family s (r.0, record s { files = r.1 })
      go (Reads.known status found) = Reads.known status found
      go (Reads.unknown text missing) = Reads.unknown text missing

  -- The state that a command goes by: it is now cached, and no file and no cached suspension has
  -- changed.
  pub record IsCached (s t : Store) (state : FamilyState) : Type 0 where
    pub same_files : t.files ≡ s.files
    pub holds : t.cache family ≡ some state
    pub keeps : (other : String) → s.cache other ≡ some suspended → t.cache other ≡ some suspended

  pub data Caches (s : Store) : Result String FamilyState × Store → Type 0 where
    cached : (state : FamilyState) (t : Store) → IsCached s t state → Caches s (ok state, t)
    failed : (text : String) → Caches s (err text, s)

  fill-Caches : (s : Store) → s.cache family ≡ none → Caches s (fill engine family s)
  unfolding fill
  fill-Caches s absent = go (run_typed-Reads s)
    where
      go :
          {r : Result String FamilyStatus × Store}
          → Reads files_of family s r
          → Caches s (elim r.0 [
            | ok status ↦ (ok status.state, set family status.state r.1)
            | err e ↦ (err e, r.1)
          ])
      go (Reads.known status found) = Caches.cached status.state _ (record {
        same_files = refl;
        holds = ground arith;
        keeps = λ other paused. ground (arith, absent, paused);
      })
      go (Reads.unknown text missing) = Caches.failed text

  pub cached_state-Caches : (s : Store) → Caches s (cached_state engine family s)
  unfolding cached_state
  cached_state-Caches s = go (s.cache family) refl
    where
      go :
          (found : Option FamilyState)
          → s.cache family ≡ found
          → Caches s (elim found [ some state ↦ (ok state, s) | none ↦ fill engine family s ])
      go none absent = fill-Caches s absent
      go (some state) found =
          Caches.cached state s
            (record { same_files = refl; holds = found; keeps = λ other paused. paused })
