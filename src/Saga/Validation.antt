-- ===== src/Saga/Validation.antt =====
-- What `_validation_error` accepts, and the statuses and configs of an accepted request.
use flink_control_plane_poc.Prelude.{◌≡◌, ◌≢◌, true, false, none, [], ◌∷◌, ◌++◌, arith}
use flink_control_plane_poc.Prelude.Equality.{string_eq, contains, without}
use flink_control_plane_poc.Domain.{MoveDatatypeRequest}
use flink_control_plane_poc.Saga.{Statuses, status_of, validation_error, new_config}

module _ (request : MoveDatatypeRequest) where
  -- What a request that passes validation satisfies.
  pub valid_request :
      (statuses : Statuses)
      → validation_error request statuses ≡ none
      → (request.source_family ≢ request.target_family)
        × (contains request.datatype statuses.source.datatypes ≡ true)
        × (contains request.datatype statuses.target.datatypes ≡ false)
  unfolding validation_error
  valid_request statuses h = (ground arith, ground arith, ground arith)

  -- What makes a request valid.
  pub accepted :
      (statuses : Statuses)
      → request.source_family ≢ request.target_family
      → contains request.datatype statuses.source.datatypes ≡ true
      → contains request.datatype statuses.target.datatypes ≡ false
      → validation_error request statuses ≡ none
  unfolding validation_error status_of
  accepted statuses distinct owned new = ground arith

  pub status_of_source :
      (statuses : Statuses)
      → request.source_family ≢ request.target_family
      → status_of request statuses request.source_family ≡ statuses.source
  unfolding status_of
  status_of_source statuses distinct = ground arith

  pub status_of_target :
      (statuses : Statuses) → status_of request statuses request.target_family ≡ statuses.target
  unfolding status_of
  status_of_target statuses = ground arith

  pub new_config_source :
      (statuses : Statuses)
      → request.source_family ≢ request.target_family
      → new_config request statuses request.source_family
        ≡ without request.datatype statuses.source.datatypes
  unfolding new_config
  new_config_source statuses distinct = ground arith

  pub new_config_target :
      (statuses : Statuses)
      → new_config request statuses request.target_family
        ≡ statuses.target.datatypes ++ request.datatype ∷ []
  unfolding new_config
  new_config_target statuses = ground arith
