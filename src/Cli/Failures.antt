-- ===== src/Cli/Failures.antt =====
-- poc/cli.py: the verdict in a chain of exceptions, and what is printed of it. The details of an
-- ApplicationError and the texts of the payloads are read by pydantic, which is a parameter.
pub mod Extraction
use flink_control_plane_poc.Prelude.{String, ◌<>◌, Option, none, some, List, [], ◌∷◌, if◌then◌else◌}
use flink_control_plane_poc.Prelude.Equality.{◌==◌, string_eq}
use flink_control_plane_poc.Prelude.Text.{decimal}
use flink_control_plane_poc.Prelude.Lists.{length}
use flink_control_plane_poc.Exec.{Result, ok, err}
use flink_control_plane_poc.Domain.{SagaFailure, SagaError, outcome_value}
use flink_control_plane_poc.Restate.Envelope.{Json, Uncaught, Response, decode_saga_failure}

-- An exception with its causes, from the outside in: each is followed by its `__cause__`, or else its
-- `cause`, where it has one.
pub data Causes (Detail : Type 0) : Type 0 where
  done : Causes Detail
  saga_error : SagaError → Causes Detail → Causes Detail
  -- its text, its details and its type
  application_error : String → List Detail → Option String → Causes Detail → Causes Detail
  -- its text and its body
  http_error : String → Option String → Causes Detail → Causes Detail
  other : String → Causes Detail → Causes Detail

-- A verdict with the type of its error, which an ApplicationError need not have.
abbrev pub Verdict : Type 0
Verdict = SagaFailure × Option String

-- `cause.body or str(cause)`
unfoldable pub body_or : Option String → String → String
body_or none text = text
body_or (some body) text = if body == "" then text else body

module _ {Detail : Type 0} (model_validate : Detail → Option SagaFailure)
    (loads : String → Option Json) (model_validate_json : String → Option SagaFailure) where
  -- the first detail, if it is a verdict
  unfoldable pub first_detail : List Detail → Option SagaFailure
  first_detail [] = none
  first_detail (detail ∷ rest) = model_validate detail

  -- `_extract_saga_failure`
  unfoldable pub extract_saga_failure : Causes Detail → Result Uncaught (Option Verdict)
  unfolding first_detail body_or
  extract_saga_failure Causes.done = ok none
  extract_saga_failure (Causes.saga_error e rest) = ok (some (e.failure, some e.type))
  extract_saga_failure (Causes.application_error text details type rest) =
      let later = extract_saga_failure rest in
      elim (first_detail details) [ some failure ↦ ok (some (failure, type)) | none ↦ later ]
  extract_saga_failure (Causes.http_error text body rest) =
      let later = extract_saga_failure rest in
      elim (decode_saga_failure loads model_validate_json
        (some (Response.str (body_or body text)))) [
          | err e ↦ err e
          | ok (some (failure, type)) ↦ ok (some (failure, some type))
          | ok none ↦ later
        ]
  extract_saga_failure (Causes.other text rest) = extract_saga_failure rest

  abbrev or_none : Option String → String
  or_none none = "None"
  or_none (some text) = text

  -- `_print_failure`, as the text that it prints for an exception with a text
  unfoldable pub print_failure : String → Causes Detail → Result Uncaught String
  unfolding extract_saga_failure outcome_value
  print_failure text causes = elim (extract_saga_failure causes) [
    | err e ↦ err e
    | ok none ↦ ok ("RESULT   : failed - " <> text <> "\n\n")
    | ok (some (failure, type)) ↦ ok (
        "RESULT   : failed - "
        <> outcome_value failure.outcome
        <> " ("
        <> or_none type
        <> ")\n"
        <> "  step   : "
        <> failure.failed_step
        <> "\n"
        <> "  reason : "
        <> failure.reason
        <> "\n"
        <> "  rollback: applied="
        <> decimal (length failure.compensated)
        <> " no-op="
        <> decimal (length failure.compensation_noops)
        <> " failed="
        <> decimal (length failure.compensation_errors)
        <> "\n\n")
  ]
