-- ===== src/Saga/Contract.antt =====
-- What a run promises, by how it ends.
use flink_control_plane_poc.Prelude.{
  String, ◌≡◌, ◌≢◌, ◌⊎◌, true, false, none, some, List, [], ◌∷◌, ◌++◌,
}
use flink_control_plane_poc.Prelude.Equality.{string_eq, contains, without}
use flink_control_plane_poc.Prelude.Dict.{lookup}
use flink_control_plane_poc.Exec.{Result, ok, err}
use flink_control_plane_poc.Domain.{
  running, SagaOutcome, rejected, compensated, compensation_incomplete, MoveDatatypeRequest,
}
use flink_control_plane_poc.Cluster.{MockCluster, snapshot}
use flink_control_plane_poc.Cluster.Frame.{state_of, datatypes_of}
use flink_control_plane_poc.Cluster.WellFormed.{IsWellFormed}
use flink_control_plane_poc.Actors.{Actors}
use flink_control_plane_poc.Saga.{Failed, saga_error, unhandled, expected_steps}

-- The datatype has left the source, has joined the target, and both families run.
pub record IsMoved (request : MoveDatatypeRequest) (before after : MockCluster) : Type 0 where
  pub old_source : List String
  pub old_target : List String
  pub source_before : datatypes_of before request.source_family ≡ some old_source
  pub target_before : datatypes_of before request.target_family ≡ some old_target
  pub owned : contains request.datatype old_source ≡ true
  pub not_owned : contains request.datatype old_target ≡ false
  pub source_after :
      datatypes_of after request.source_family ≡ some (without request.datatype old_source)
  pub target_after :
      datatypes_of after request.target_family ≡ some (old_target ++ request.datatype ∷ [])
  pub source_runs : state_of after request.source_family ≡ some running
  pub target_runs : state_of after request.target_family ≡ some running
  pub others :
      (family : String)
      → family ≢ request.source_family
      → family ≢ request.target_family
      → snapshot after family ≡ snapshot before family

module _ (A : Actors) where
  open A use {S, E, cluster}

  -- The stored datatypes do not allow the move.
  abbrev pub IsRefused : MoveDatatypeRequest → S → Type 0
  IsRefused request s =
      (old_source old_target : List String)
      → datatypes_of (cluster s) request.source_family ≡ some old_source
      → datatypes_of (cluster s) request.target_family ≡ some old_target
      → request.source_family ≢ request.target_family
      → contains request.datatype old_source ≡ true
      → contains request.datatype old_target ≡ true

  -- A family of the move has no file.
  abbrev pub IsUnknown : MoveDatatypeRequest → S → Type 0
  IsUnknown request s =
      (lookup request.source_family (cluster s).families ≡ none)
      ⊎ (lookup request.target_family (cluster s).families ≡ none)

  -- What each verdict promises of the final state.
  abbrev pub Promises : MoveDatatypeRequest → SagaOutcome → List String → S → S → Type 0
  Promises request rejected errors s t = (t ≡ s) × IsRefused request s
  Promises request compensated errors s t =
      (errors ≡ [])
      × IsWellFormed (cluster t)
      × ((family : String) → snapshot (cluster t) family ≡ snapshot (cluster s) family)
  Promises request compensation_incomplete errors s t = (errors ≢ []) × IsWellFormed (cluster t)

  -- The contract of the saga, by how it ends.
  abbrev pub AllOrNothing : MoveDatatypeRequest → S → Result (Failed E) (List String) × S → Type 0
  AllOrNothing request s (ok steps, t) =
      (steps ≡ expected_steps request)
      × IsWellFormed (cluster t)
      × IsMoved request (cluster s) (cluster t)
  AllOrNothing request s (err (unhandled e), t) = (t ≡ s) × IsUnknown request s
  AllOrNothing request s (err (saga_error e), t) =
      Promises request e.failure.outcome e.failure.compensation_errors s t
