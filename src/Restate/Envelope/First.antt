-- ===== src/Restate/Envelope/First.antt =====
-- The search in a text whose first verdict is known.
use text.Mathlib.Text.{starts_with}
use text.Mathlib.TextPositions.{starts_with-append}
use text.Mathlib.TextLemmas.{
  nil-append, cons-append, append_assoc, append_cancel_left, head-eq_of_cons-eq,
}
use Prim.Native.String.{String as Text}
use Prim.Native.Char.{Char, code}
use flink_control_plane_poc.Prelude.{
  String, ◌<>◌, ◌≡◌, ◌≢◌, arith, refl, sym, ap, ◌∙◌, Option, none, some,
}
use flink_control_plane_poc.Domain.{
  SagaOutcome, rejected, compensated, compensation_incomplete, outcome_value, saga_error_type,
}
use flink_control_plane_poc.Restate.Envelope.{marker, outcomes, match_outcomes, search}
use flink_control_plane_poc.Restate.Envelope.Search.{match_outcomes-Leads, match_outcomes-some}

-- Texts that part after `p`.
diverge :
    (p u v x y : String) (c d : Char)
    → code c ≢ code d
    → (p <> Text.◌∷◌ c u) <> x ≢ (p <> Text.◌∷◌ d v) <> y
diverge p u v x y c d differ same = differ (
    ap code (
      head-eq_of_cons-eq (
        sym (cons-append c u x)
        ∙ append_cancel_left p _ _
            (sym (append_assoc p (Text.◌∷◌ c u) x) ∙ same ∙ append_assoc p (Text.◌∷◌ d v) y)
        ∙ cons-append d v y)))

-- No value of an outcome starts another.
outcome_value-prefix :
    (o o' : SagaOutcome) (x y : String) → outcome_value o <> x ≡ outcome_value o' <> y → o ≡ o'
unfolding outcome_value
outcome_value-prefix rejected rejected x y h = refl
outcome_value-prefix compensated compensated x y h = refl
outcome_value-prefix compensation_incomplete compensation_incomplete x y h = refl
outcome_value-prefix rejected compensated x y h =
    absurd (diverge "" "EJECTED" "OMPENSATED" x y "R" "C" (omega arith) h)
outcome_value-prefix rejected compensation_incomplete x y h =
    absurd (diverge "" "EJECTED" "OMPENSATION_INCOMPLETE" x y "R" "C" (omega arith) h)
outcome_value-prefix compensated rejected x y h =
    absurd (diverge "" "OMPENSATED" "EJECTED" x y "C" "R" (omega arith) h)
outcome_value-prefix compensated compensation_incomplete x y h =
    absurd (diverge "COMPENSAT" "D" "ON_INCOMPLETE" x y "E" "I" (omega arith) h)
outcome_value-prefix compensation_incomplete rejected x y h =
    absurd (diverge "" "OMPENSATION_INCOMPLETE" "EJECTED" x y "C" "R" (omega arith) h)
outcome_value-prefix compensation_incomplete compensated x y h =
    absurd (diverge "COMPENSAT" "ON_INCOMPLETE" "D" x y "I" "E" (omega arith) h)

-- No name of an error type starts another.
saga_error_type-prefix :
    (o o' : SagaOutcome) (x y : String) → saga_error_type o <> x ≡ saga_error_type o' <> y → o ≡ o'
unfolding saga_error_type
saga_error_type-prefix rejected rejected x y h = refl
saga_error_type-prefix compensated compensated x y h = refl
saga_error_type-prefix compensation_incomplete compensation_incomplete x y h = refl
saga_error_type-prefix rejected compensated x y h =
    absurd (diverge "Saga" "ejectedError" "ompensatedError" x y "R" "C" (omega arith) h)
saga_error_type-prefix rejected compensation_incomplete x y h =
    absurd (diverge "Saga" "ejectedError" "ompensationIncompleteError" x y "R" "C" (omega arith) h)
saga_error_type-prefix compensated rejected x y h =
    absurd (diverge "Saga" "ompensatedError" "ejectedError" x y "C" "R" (omega arith) h)
saga_error_type-prefix compensated compensation_incomplete x y h =
    absurd (diverge "SagaCompensat" "dError" "onIncompleteError" x y "e" "i" (omega arith) h)
saga_error_type-prefix compensation_incomplete rejected x y h =
    absurd (diverge "Saga" "ompensationIncompleteError" "ejectedError" x y "C" "R" (omega arith) h)
saga_error_type-prefix compensation_incomplete compensated x y h =
    absurd (diverge "SagaCompensat" "onIncompleteError" "dError" x y "i" "e" (omega arith) h)

marker-append :
    (o t : SagaOutcome) (x : String)
    → marker o t <> x ≡ "RESTATE_SAGA_V1:" <> (outcome_value o <> (":" <> (saga_error_type t <> x)))
unfolding marker
marker-append o t x =
    append_assoc "RESTATE_SAGA_V1:" _ x
    ∙ ap (λ s. "RESTATE_SAGA_V1:" <> s)
        (append_assoc (outcome_value o) _ x
          ∙ ap (λ s. outcome_value o <> s) (append_assoc ":" (saga_error_type t) x))

-- A text starts with one verdict at most.
marker-prefix :
    (o t o' t' : SagaOutcome) (x y : String) → marker o t <> x ≡ marker o' t' <> y → t ≡ t'
marker-prefix o t o' t' x y h =
    let rest =
      append_cancel_left "RESTATE_SAGA_V1:" _ _
        (sym (marker-append o t x) ∙ h ∙ marker-append o' t' y) in
    let same = outcome_value-prefix o o' _ _ rest in
    saga_error_type-prefix t t' x y (
      append_cancel_left ":" _ _ (
        append_cancel_left (outcome_value o') _ _
          (ap (λ a. outcome_value a <> (":" <> (saga_error_type t <> x))) (sym same) ∙ rest)))

-- The pattern matches nowhere in the text at a position before `rest`.
unfoldable pub IsFirst : String → String → Type 0
IsFirst Text.[] rest = Unit
IsFirst (Text.◌∷◌ c before) rest =
    (match_outcomes (Text.◌∷◌ c (before <> rest)) outcomes ≡ none) × IsFirst before rest

front :
    (s : String) (o t : SagaOutcome) (after : String)
    → s ≡ marker o t <> after
    → match_outcomes s outcomes ≡ some t
front s o t after at = go (match_outcomes s outcomes) refl
  where
    go : (r : Option SagaOutcome) → match_outcomes s outcomes ≡ r → r ≡ some t
    go none missing = absurd (
        match_outcomes-some s o t
          (ap (λ x. starts_with x (marker o t)) at ∙ starts_with-append (marker o t) after) missing)
    go (some found) is =
        let leads = match_outcomes-Leads s outcomes found is in
        ap some (sym (marker-prefix o t leads.outcome found after leads.after (sym at ∙ leads.at)))

search-front :
    (s : String) (t : SagaOutcome) → match_outcomes s outcomes ≡ some t → search s ≡ some t
unfolding search
search-front Text.[] t h = h
search-front (Text.◌∷◌ c s) t h = rw (search, h) refl

-- The search finds the first verdict.
pub search-IsFirst :
    (before : String) (o t : SagaOutcome) (after : String)
    → IsFirst before (marker o t <> after)
    → search (before <> (marker o t <> after)) ≡ some t
unfolding IsFirst search
search-IsFirst Text.[] o t after first =
    ap search (nil-append (marker o t <> after))
    ∙ search-front (marker o t <> after) t (front _ o t after refl)
search-IsFirst (Text.◌∷◌ c before) o t after (none_here, first) =
    ap search (cons-append c before (marker o t <> after))
    ∙ rw (search, none_here) (search-IsFirst before o t after first)
