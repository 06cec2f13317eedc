-- ===== src/Tests/Envelope.antt =====
-- The theorems on Restate.Envelope and Cli.Failures at one verdict and the response that carries it.
use text.Mathlib.TextLemmas.{cons-ne-nil}
use flink_control_plane_poc.Prelude.{String, ◌<>◌, ◌≡◌, refl, Option, none, some, List, [], ◌∷◌}
use flink_control_plane_poc.Prelude.Equality.{string_eq}
use flink_control_plane_poc.Exec.{ok, err}
use flink_control_plane_poc.Domain.{
  SagaOutcome, compensated, SagaFailure, SagaError, outcome_value, saga_error_type,
}
use flink_control_plane_poc.Restate.Saga.{saga_terminal_error, encode_saga_failure}
use flink_control_plane_poc.Restate.Envelope.{
  Json, Members, Uncaught, Response, find_member, marker, decode_saga_failure, search,
  match_outcomes, match_types,
}
use flink_control_plane_poc.Prelude.Lists.{All}
use flink_control_plane_poc.Restate.Envelope.First.{IsFirst}
use flink_control_plane_poc.Restate.Envelope.Search.{Named, search-Exact}
use flink_control_plane_poc.Temporal.Saga.{application_error}
use flink_control_plane_poc.Cli.Failures.{Causes, body_or}
use flink_control_plane_poc.Cli.Failures.Extraction.{
  Wrapper, IsSilent, wrap, plain, converted, Finds, extract-SagaError,
}
use flink_control_plane_poc.Restate.Envelope.Decoding.{
  Carries, HasNoObject, decode-saga_terminal_error, decode-raises,
}

abbrev failure : SagaFailure
failure = record {
  outcome = compensated;
  failed_step = "resume:bfs-cold";
  reason = "job is gone";
  compensated = "pause:bfs-cold" ∷ [];
  compensation_noops = [];
  compensation_errors = [];
}

abbrev dumped : SagaFailure → String
dumped f = "{...}"

abbrev validated : String → Option SagaFailure
validated text = some failure

abbrev metadata : Members
metadata = Members.member "payload" (Json.str "{...}") Members.closed

abbrev fields : Members
fields = Members.member "metadata" (Json.object metadata) Members.closed

abbrev loaded : String → Option Json
loaded text = some (Json.object fields)

abbrev body : String
body = "500 RESTATE_SAGA_V1:COMPENSATED:SagaCompensatedError"

carries : Carries loaded validated dumped body (saga_terminal_error failure)
unfolding saga_terminal_error encode_saga_failure outcome_value saga_error_type find_member
    string_eq
carries = record {
  before = "500 ";
  after = "";
  message = refl;
  fields = fields;
  parsed = refl;
  metadata = metadata;
  has_metadata = refl;
  has_payload = refl;
}

first : IsFirst carries.before ((saga_terminal_error failure).message <> carries.after)
unfolding carries IsFirst match_outcomes match_types marker outcome_value saga_error_type
    saga_terminal_error encode_saga_failure
first = (refl, (refl, (refl, (refl, tt))))

decode-saga_terminal_error_example :
    decode_saga_failure loaded validated (some (Response.str body))
    ≡ ok (some (failure, saga_error_type failure.outcome))
decode-saga_terminal_error_example =
    decode-saga_terminal_error loaded validated dumped body failure refl (cons-ne-nil _ _) carries
      first

search-Exact_example :
    ((type : SagaOutcome) → search body ≡ some type → Named body type)
    × (search body ≡ none → (type : SagaOutcome) → ¬ Named body type)
search-Exact_example = search-Exact body

named : Named body compensated
unfolding marker outcome_value saga_error_type
named = record { before = "500 "; outcome = compensated; after = ""; at = refl }

-- A server that answers with `"metadata": null`.
abbrev no_metadata : Members
no_metadata = Members.member "metadata" Json.null Members.closed

abbrev loaded_null : String → Option Json
loaded_null text = some (Json.object no_metadata)

null_metadata : HasNoObject (Json.object no_metadata)
unfolding find_member string_eq
null_metadata = HasNoObject.no_metadata no_metadata Json.null refl (λ members e. cc)

decode-raises_example :
    decode_saga_failure loaded_null validated (some (Response.str body)) ≡ err Uncaught.no_get
decode-raises_example =
    decode-raises loaded_null validated dumped body compensated (Json.object no_metadata) named refl
      null_metadata

abbrev converted_detail : SagaFailure → SagaFailure
converted_detail f = f

abbrev verdict : SagaError
verdict = record { message = "compensated"; failure = failure; type = "SagaCompensatedError" }

-- The client's exception, an ApplicationError without details, and a response with no verdict.
abbrev outer : List (Wrapper SagaFailure)
outer =
    Wrapper.other "Workflow execution failed"
    ∷ Wrapper.application_error "" [] none
    ∷ Wrapper.http_error "502" none
    ∷ []

unnamed : search "502" ≡ none
unfolding search match_outcomes match_types marker outcome_value saga_error_type
unnamed = refl

outer-IsSilent : All (IsSilent some) outer
unfolding IsSilent body_or
outer-IsSilent = (tt, (tt, ((search-Exact "502").1 unnamed, tt)))

extract-SagaError_example :
    Finds some converted_detail loaded validated dumped (wrap outer (plain verdict)) failure
    × Finds some converted_detail loaded validated dumped
        (wrap outer (converted converted_detail (application_error verdict)))
        failure
    × Finds some converted_detail loaded validated dumped
        (wrap outer (Causes.http_error "500" (some body) Causes.done))
        failure
unfolding saga_error_type
extract-SagaError_example =
    extract-SagaError some converted_detail loaded validated dumped verdict refl refl refl
      (cons-ne-nil _ _) outer outer-IsSilent "500" body Causes.done carries first
