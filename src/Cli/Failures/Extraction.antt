-- ===== src/Cli/Failures/Extraction.antt =====
-- The verdict that is found, whichever engine has run the saga.
use mathlib.Core.Logic.{if_neg, if_pos}
use flink_control_plane_poc.Prelude.{
  String, ◌<>◌, ◌≡◌, ◌≢◌, refl, ap, ◌∙◌, Option, none, some, List, [], ◌∷◌, inl, inr, Option-cases,
}
use flink_control_plane_poc.Prelude.Lists.{All}
use flink_control_plane_poc.Prelude.Equality.{string_eq}
use flink_control_plane_poc.Exec.{Result, ok}
use flink_control_plane_poc.Domain.{SagaOutcome, SagaFailure, SagaError, saga_error_type}
use flink_control_plane_poc.Restate.Saga.{saga_terminal_error}
use flink_control_plane_poc.Restate.Envelope.{
  Json, Uncaught, Response, decode_text, decode_saga_failure, search,
}
use flink_control_plane_poc.Restate.Envelope.Search.{Named, search-Exact}
use flink_control_plane_poc.Restate.Envelope.First.{IsFirst}
use flink_control_plane_poc.Restate.Envelope.Decoding.{
  Carries, Carries-Named, Named-filled, decode-saga_terminal_error,
}
use flink_control_plane_poc.Temporal.Saga.{ApplicationError}
use flink_control_plane_poc.Temporal.Saga as TemporalSaga
use flink_control_plane_poc.Cli.Failures.{
  Causes, Verdict, body_or, first_detail, extract_saga_failure,
}

-- An exception around a cause.
pub data Wrapper (Detail : Type 0) : Type 0 where
  other : String → Wrapper Detail
  application_error : String → List Detail → Option String → Wrapper Detail
  http_error : String → Option String → Wrapper Detail

unfoldable pub wrap : {Detail : Type 0} → List (Wrapper Detail) → Causes Detail → Causes Detail
wrap [] causes = causes
wrap (Wrapper.other text ∷ rest) causes = Causes.other text (wrap rest causes)
wrap (Wrapper.application_error text details type ∷ rest) causes =
    Causes.application_error text details type (wrap rest causes)
wrap (Wrapper.http_error text body ∷ rest) causes = Causes.http_error text body (wrap rest causes)

-- It has no verdict of its own: pydantic refuses the first of its details, or it has none, and the
-- pattern matches nowhere in the text of its response.
unfoldable pub IsSilent :
    {Detail : Type 0} → (Detail → Option SagaFailure) → Wrapper Detail → Type 0
IsSilent model_validate (Wrapper.other text) = Unit
IsSilent model_validate (Wrapper.application_error text [] type) = Unit
IsSilent model_validate (Wrapper.application_error text (detail ∷ rest) type) =
    model_validate detail ≡ none
IsSilent model_validate (Wrapper.http_error text body) =
    (type : SagaOutcome) → ¬ Named (body_or body text) type

-- The exception of a saga that ran in plain Python.
abbrev pub plain : {Detail : Type 0} → SagaError → Causes Detail
plain e = Causes.saga_error e Causes.done

-- The ApplicationError, with its detail as the data converter has passed it on.
abbrev pub converted : {Detail : Type 0} → (SagaFailure → Detail) → ApplicationError → Causes Detail
converted convert e =
    Causes.application_error e.message (convert e.details ∷ []) (some e.type) Causes.done

module _ {Detail : Type 0} (model_validate : Detail → Option SagaFailure)
    (convert : SagaFailure → Detail) (loads : String → Option Json)
    (model_validate_json : String → Option SagaFailure)
    (model_dump_json : SagaFailure → String) where
  abbrev pub extract : Causes Detail → Result Uncaught (Option Verdict)
  extract = extract_saga_failure model_validate loads model_validate_json

  -- The verdict and its own type are found.
  abbrev pub Finds : Causes Detail → SagaFailure → Type 0
  Finds causes failure =
      extract_saga_failure model_validate loads model_validate_json causes
      ≡ ok (some (failure, some (saga_error_type failure.outcome)))

  unnamed-decode :
      (text : String)
      → ((type : SagaOutcome) → ¬ Named text type)
      → decode_saga_failure loads model_validate_json (some (Response.str text)) ≡ ok none
  unfolding decode_saga_failure decode_text
  unnamed-decode text unnamed = elim (string_eq.dec text "") [
    | yes empty ↦ rw (decode_text, if_pos (string_eq.dec text "") empty) refl
    | no filled ↦ elim (Option-cases (search text)) [
      | inl missing ↦ rw (decode_saga_failure, if_neg (string_eq.dec text "") filled, missing) refl
      | inr (type, found) ↦ absurd (unnamed type ((search-Exact text).0 type found))
    ]
  ]

  extract-wrap :
      (wrappers : List (Wrapper Detail)) (causes : Causes Detail)
      → All (IsSilent model_validate) wrappers
      → extract (wrap wrappers causes) ≡ extract causes
  unfolding wrap extract_saga_failure first_detail IsSilent
  extract-wrap [] causes silent = refl
  extract-wrap (Wrapper.other text ∷ rest) causes (here, silent) = extract-wrap rest causes silent
  extract-wrap (Wrapper.application_error text [] type ∷ rest) causes (here, silent) =
      extract-wrap rest causes silent
  extract-wrap (Wrapper.application_error text (detail ∷ details) type ∷ rest) causes
        (here, silent) =
      rw (extract_saga_failure, here) (extract-wrap rest causes silent)
  extract-wrap (Wrapper.http_error text body ∷ rest) causes (here, silent) =
      rw (extract_saga_failure, unnamed-decode (body_or body text) here)
        (extract-wrap rest causes silent)

  extract-converted :
      (e : SagaError)
      → model_validate (convert e.failure) ≡ some e.failure
      → extract (converted convert (TemporalSaga.application_error e))
        ≡ ok (some (e.failure, some (saga_error_type e.failure.outcome)))
  unfolding extract_saga_failure first_detail TemporalSaga.application_error
  extract-converted e again = rw (extract_saga_failure, again) refl

  extract-decoded :
      (text body : String) (rest : Causes Detail) (failure : SagaFailure)
      → body ≢ ""
      → decode_saga_failure loads model_validate_json (some (Response.str body))
        ≡ ok (some (failure, saga_error_type failure.outcome))
      → extract (Causes.http_error text (some body) rest)
        ≡ ok (some (failure, some (saga_error_type failure.outcome)))
  unfolding extract_saga_failure body_or
  extract-decoded text body rest failure filled decoded =
      rw (extract_saga_failure, body_or, if_neg (string_eq.dec body "") filled, decoded) refl

  -- Whichever engine has run the saga, and whatever exceptions without a verdict of their own stand
  -- around, ApplicationErrors and HTTP responses too, the verdict that is found is the one that the
  -- saga has raised, with the type of its outcome: from the saga's own exception, whose type is that;
  -- from the ApplicationError made of it, if pydantic reads back the detail that the data converter
  -- passes on; and from an HTTP response that carries the terminal error made of it, with no match of
  -- the pattern before its message, if pydantic reads back the text that it has written for the
  -- verdict, and this text is not empty.
  pub extract-SagaError :
      (e : SagaError)
      → e.type ≡ saga_error_type e.failure.outcome
      → model_validate (convert e.failure) ≡ some e.failure
      → model_validate_json (model_dump_json e.failure) ≡ some e.failure
      → model_dump_json e.failure ≢ ""
      → (wrappers : List (Wrapper Detail)) → All (IsSilent model_validate) wrappers
      → (text body : String) (rest : Causes Detail)
      → (c : Carries loads model_validate_json model_dump_json body (saga_terminal_error e.failure))
      → IsFirst c.before ((saga_terminal_error e.failure).message <> c.after)
      → Finds (wrap wrappers (plain e)) e.failure
        × Finds (wrap wrappers (converted convert (TemporalSaga.application_error e))) e.failure
        × Finds (wrap wrappers (Causes.http_error text (some body) rest)) e.failure
  unfolding extract_saga_failure
  extract-SagaError e typed again again_json written wrappers silent text body rest c first = (
    extract-wrap wrappers (plain e) silent ∙ ap (λ type. ok (some (e.failure, some type))) typed,
    extract-wrap wrappers _ silent ∙ extract-converted e again,
    extract-wrap wrappers _ silent
        ∙ extract-decoded text body rest e.failure
            (Named-filled (Carries-Named loads model_validate_json model_dump_json e.failure c))
            (decode-saga_terminal_error loads model_validate_json model_dump_json body e.failure
              again_json written c first),
  )
