-- ===== src/Domain.antt =====
-- poc/common/domain.py: the models and the error taxonomy.
use flink_control_plane_poc.Prelude.{ℕ, String, Option, List, [], ◌∷◌}
use flink_control_plane_poc.Prelude.Equality.{Eq}

-- The two subclasses of `ClusterError`, with the message that `str(err)` prints.
pub data ClusterError : Type 0 where
  transient_error permanent_error : String → ClusterError

abbrev pub error_text : ClusterError → String
error_text (transient_error message) = message
error_text (permanent_error message) = message

pub data FamilyState : Type 0 where
  running suspended : FamilyState

pub FamilyState-discrete : Discrete FamilyState
FamilyState-discrete running running = yes (λ i. running)
FamilyState-discrete suspended suspended = yes (λ i. suspended)
FamilyState-discrete running suspended = no (λ p. cc)
FamilyState-discrete suspended running = no (λ p. cc)

instance unfoldable pub state_eq : Eq FamilyState
unfolding FamilyState-discrete
state_eq = record { dec = FamilyState-discrete }

pub record FamilyStatus : Type 0 where
  pub family : String
  pub state : FamilyState
  pub datatypes : List String
  pub generation : ℕ
  pub savepoint_uri : Option String

pub data SagaOutcome : Type 0 where
  rejected compensated compensation_incomplete : SagaOutcome

-- `SagaOutcome.value`
unfoldable pub outcome_value : SagaOutcome → String
outcome_value rejected = "REJECTED"
outcome_value compensated = "COMPENSATED"
outcome_value compensation_incomplete = "COMPENSATION_INCOMPLETE"

-- `SAGA_ERROR_TYPES`
unfoldable pub saga_error_type : SagaOutcome → String
saga_error_type rejected = "SagaRejectedError"
saga_error_type compensated = "SagaCompensatedError"
saga_error_type compensation_incomplete = "SagaCompensationIncompleteError"

pub record MoveDatatypeRequest : Type 0 where
  pub datatype : String
  pub source_family : String
  pub target_family : String

-- `MoveDatatypeRequest.families`
unfoldable pub families : MoveDatatypeRequest → List String
families request = request.source_family ∷ request.target_family ∷ []

pub record SagaFailure : Type 0 where
  pub outcome : SagaOutcome
  pub failed_step : String
  pub reason : String
  pub compensated : List String
  pub compensation_noops : List String
  pub compensation_errors : List String

-- `SagaError`: its `type` is `saga_error_type` of the outcome.
pub record SagaError : Type 0 where
  pub message : String
  pub failure : SagaFailure
  pub type : String
