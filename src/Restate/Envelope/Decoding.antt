-- ===== src/Restate/Envelope/Decoding.antt =====
-- What `decode_saga_failure` makes of a response that carries a terminal error of the saga.
use flink_control_plane_poc.Prelude.{String, ◌<>◌, ◌≡◌, ◌≢◌, refl, sym, ap, ◌∙◌, Option, none, some}
use flink_control_plane_poc.Prelude.Equality.{string_eq}
use mathlib.Core.Logic.{if_neg}
use flink_control_plane_poc.Exec.{ok, err}
use flink_control_plane_poc.Domain.{SagaOutcome, SagaFailure, outcome_value, saga_error_type}
use flink_control_plane_poc.Restate.Saga.{TerminalError, encode_saga_failure, saga_terminal_error}
use flink_control_plane_poc.Restate.Envelope.{
  Json, Members, Uncaught, Response, find_member, get, marker, match_types, match_outcomes, search,
  validate, read_payload, decode_text, decode_saga_failure,
}
use flink_control_plane_poc.Restate.Envelope.First.{IsFirst, search-IsFirst}
use flink_control_plane_poc.Restate.Envelope.Search.{Named, Named-search}

search_empty : search "" ≡ none
unfolding search match_outcomes match_types marker outcome_value saga_error_type
search_empty = refl

pub Named-filled : {s : String} {type : SagaOutcome} → Named s type → s ≢ ""
Named-filled named is =
    let (type, found) = Named-search named in
    let clash : none ≡ some type = sym search_empty ∙ ap search (sym is) ∙ found in absurd cc

-- A body whose metadata, or which itself, is JSON but no object.
pub data HasNoObject : Json → Type 0 where
  no_body : (body : Json) → ((members : Members) → body ≢ Json.object members) → HasNoObject body
  no_metadata :
      (fields : Members) (metadata : Json)
      → find_member "metadata" fields ≡ some metadata
      → ((members : Members) → metadata ≢ Json.object members)
      → HasNoObject (Json.object fields)

module _ (loads : String → Option Json) (model_validate_json : String → Option SagaFailure)
    (model_dump_json : SagaFailure → String) where
  -- A response of the server: JSON with the message somewhere in its text, and with the payload
  -- under its metadata.
  pub record Carries (text : String) (e : TerminalError) : Type 0 where
    pub before : String
    pub after : String
    pub message : text ≡ before <> (e.message <> after)
    pub fields : Members
    pub parsed : loads text ≡ some (Json.object fields)
    pub metadata : Members
    pub has_metadata : find_member "metadata" fields ≡ some (Json.object metadata)
    pub has_payload : find_member "payload" metadata ≡ some (Json.str (model_dump_json e.payload))

  found-decode :
      (text : String) (type : SagaOutcome) (body : Json)
      → search text ≡ some type
      → loads text ≡ some body
      → decode_saga_failure loads model_validate_json (some (Response.str text))
        ≡ read_payload loads model_validate_json type body
  unfolding decode_saga_failure decode_text
  found-decode text type body found parsed =
      rw (if_neg (string_eq.dec text "") empty, found, parsed)
    where
      empty : text ≢ ""
      empty is =
          let clash : none ≡ some type = sym search_empty ∙ ap search (sym is) ∙ found in absurd cc

  pub Carries-Named :
      {text : String} (failure : SagaFailure)
      → Carries text (saga_terminal_error failure)
      → Named text failure.outcome
  unfolding saga_terminal_error encode_saga_failure marker
  Carries-Named failure c = record {
    before = c.before;
    outcome = failure.outcome;
    after = c.after;
    at = c.message;
  }

  -- The verdict that a terminal error of the saga carries is decoded, with the type of its error, from
  -- every response with it in which the pattern matches nowhere before the message, if pydantic reads
  -- back the text that it has written for the verdict, and this text is not empty: the message that
  -- the saga writes is what the pattern looks for.
  pub decode-saga_terminal_error :
      (text : String) (failure : SagaFailure)
      → model_validate_json (model_dump_json failure) ≡ some failure
      → model_dump_json failure ≢ ""
      → (c : Carries text (saga_terminal_error failure))
      → IsFirst c.before ((saga_terminal_error failure).message <> c.after)
      → decode_saga_failure loads model_validate_json (some (Response.str text))
        ≡ ok (some (failure, saga_error_type failure.outcome))
  unfolding saga_terminal_error encode_saga_failure marker read_payload get validate
  decode-saga_terminal_error text failure again written c first =
      found-decode text failure.outcome (Json.object c.fields)
        (ap search c.message
          ∙ search-IsFirst c.before failure.outcome failure.outcome c.after first)
        c.parsed
      ∙ rw (
        read_payload,
        get,
        c.has_metadata,
        c.has_payload,
        validate,
        if_neg (string_eq.dec _ "") written,
        again,
      )

  get-raises :
      (key : String) (default value : Json)
      → ((members : Members) → value ≢ Json.object members)
      → get key default value ≡ err Uncaught.no_get
  unfolding get
  get-raises key default Json.null other = refl
  get-raises key default (Json.bool b) other = refl
  get-raises key default (Json.number n) other = refl
  get-raises key default (Json.str s) other = refl
  get-raises key default (Json.array xs) other = refl
  get-raises key default (Json.object members) other = absurd (other members refl)

  -- A text that names a verdict and is JSON without an object where the metadata is looked up raises
  -- the AttributeError of `get`, which is not caught, in place of None.
  pub decode-raises :
      (text : String) (type : SagaOutcome) (body : Json)
      → Named text type
      → loads text ≡ some body
      → HasNoObject body
      → decode_saga_failure loads model_validate_json (some (Response.str text))
        ≡ err Uncaught.no_get
  unfolding read_payload get
  decode-raises text type body named parsed bad =
      let (first, found) = Named-search named in
      found-decode text first body found parsed ∙ go first bad
    where
      go :
          (first : SagaOutcome) {value : Json}
          → HasNoObject value
          → read_payload loads model_validate_json first value ≡ err Uncaught.no_get
      go first (HasNoObject.no_body value other) =
          rw (read_payload, get-raises "metadata" (Json.object Members.closed) value other) refl
      go first (HasNoObject.no_metadata fields metadata has other) =
          rw (read_payload, get, has, get-raises "payload" Json.null metadata other) refl
