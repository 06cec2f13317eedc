-- ===== src/Restate/Envelope.antt =====
-- poc/restate/errors.py: the search for a verdict in the text of a Restate error or of the body of an
-- HTTP response. `json.loads` and the pydantic model's `model_validate_json` are parameters.
pub mod Search
pub mod First
pub mod Decoding
use text.Mathlib.Text.{starts_with}
use Prim.Native.String.{String as Text}
use flink_control_plane_poc.Prelude.{
  String, ◌<>◌, Bool, Option, none, some, List, [], ◌∷◌, if◌then◌else◌,
}
use flink_control_plane_poc.Prelude.Equality.{◌==◌, string_eq}
use flink_control_plane_poc.Exec.{Result, ok, err}
use flink_control_plane_poc.Domain.{
  SagaOutcome, rejected, compensated, compensation_incomplete, SagaFailure, outcome_value,
  saga_error_type,
}

-- What `json.loads` returns: a number by its text, an object by its members.
mutual
  pub data Json : Type 0 where
    null : Json
    bool : Bool → Json
    number : String → Json
    str : String → Json
    array : Jsons → Json
    object : Members → Json

  pub data Jsons : Type 0 where
    empty : Jsons
    item : Json → Jsons → Jsons

  pub data Members : Type 0 where
    closed : Members
    member : String → Json → Members → Members

-- The exceptions that `decode_saga_failure` does not catch: the AttributeError of `get`, and the
-- UnicodeDecodeError of `text.decode`, which stands before the `try`.
pub data Uncaught : Type 0 where
  no_get no_utf8 : Uncaught

-- A str, or bytes by what `decode("utf-8")` makes of them; of the empty ones only, the empty text.
pub data Response : Type 0 where
  str : String → Response
  bytes : Option String → Response

unfoldable pub find_member : String → Members → Option Json
find_member key Members.closed = none
find_member key (Members.member name value rest) =
    let later = find_member key rest in if name == key then some value else later

-- `value.get(key, default)`
unfoldable pub get : String → Json → Json → Result Uncaught Json
unfolding find_member
get key default (Json.object members) = elim (find_member key members) [
  | none ↦ ok default
  | some value ↦ ok value
]
get key default other = err Uncaught.no_get

-- A text that the pattern matches, by its two groups.
unfoldable pub marker : SagaOutcome → SagaOutcome → String
unfolding outcome_value saga_error_type
marker outcome type = "RESTATE_SAGA_V1:" <> outcome_value outcome <> ":" <> saga_error_type type

abbrev pub outcomes : List SagaOutcome
outcomes = rejected ∷ compensated ∷ compensation_incomplete ∷ []

-- The alternatives of the second group, after one of the first.
unfoldable pub match_types : String → SagaOutcome → List SagaOutcome → Option SagaOutcome
unfolding marker
match_types text outcome [] = none
match_types text outcome (type ∷ rest) =
    let later = match_types text outcome rest in
    if starts_with text (marker outcome type) then some type else later

unfoldable pub match_outcomes : String → List SagaOutcome → Option SagaOutcome
unfolding match_types
match_outcomes text [] = none
match_outcomes text (outcome ∷ rest) =
    let later = match_outcomes text rest in
    elim (match_types text outcome outcomes) [ some type ↦ some type | none ↦ later ]

-- `_ENVELOPE.search(text)`, by its second group: the first position at which the pattern matches.
unfoldable pub search : String → Option SagaOutcome
unfolding match_outcomes
search Text.[] = match_outcomes Text.[] outcomes
search (Text.◌∷◌ c s) =
    let later = search s in
    elim (match_outcomes (Text.◌∷◌ c s) outcomes) [ some type ↦ some type | none ↦ later ]

module _ (loads : String → Option Json) (model_validate_json : String → Option SagaFailure) where
  -- A payload that is missing, empty or no text is none, as pydantic refuses what is no text.
  unfoldable pub validate : SagaOutcome → Json → Option (SagaFailure × String)
  validate type (Json.str payload) =
      if payload == "" then none else elim (model_validate_json payload) [
        | none ↦ none
        | some failure ↦ some (failure, saga_error_type type)
      ]
  validate type other = none

  unfoldable pub read_payload : SagaOutcome → Json → Result Uncaught (Option (SagaFailure × String))
  unfolding get validate
  read_payload type body = elim (get "metadata" (Json.object Members.closed) body) [
    | err e ↦ err e
    | ok metadata ↦ elim (get "payload" Json.null metadata) [
      | err e ↦ err e
      | ok payload ↦ ok (validate type payload)
    ]
  ]

  -- once the text is a str
  unfoldable pub decode_text : String → Result Uncaught (Option (SagaFailure × String))
  unfolding search read_payload
  decode_text text = if text == "" then ok none else elim (search text) [
    | none ↦ ok none
    | some type ↦ elim (loads text) [ none ↦ ok none | some body ↦ read_payload type body ]
  ]

  -- `decode_saga_failure`
  unfoldable pub decode_saga_failure :
      Option Response → Result Uncaught (Option (SagaFailure × String))
  unfolding decode_text
  decode_saga_failure none = ok none
  decode_saga_failure (some (Response.str text)) = decode_text text
  decode_saga_failure (some (Response.bytes (some text))) = decode_text text
  decode_saga_failure (some (Response.bytes none)) = err Uncaught.no_utf8
