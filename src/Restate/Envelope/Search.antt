-- ===== src/Restate/Envelope/Search.antt =====
-- Where the search finds a verdict, and which.
use text.Mathlib.Text.{starts_with}
use text.Mathlib.TextEquality.{starts_with_iff}
use text.Mathlib.TextPositions.{starts_with-append}
use text.Mathlib.TextLemmas.{nil-append, cons-append}
use Prim.Native.String.{String as Text}
use Prim.Native.Char.{Char}
use mathlib.Core.Path.{subst}
use flink_control_plane_poc.Prelude.{
  String, ◌<>◌, ◌≡◌, ◌≢◌, arith, refl, sym, ap, ◌∙◌, Bool, true, false, Option, none, some, List,
  [], ◌∷◌, if◌then◌else◌,
}
use flink_control_plane_poc.Domain.{SagaOutcome, rejected, compensated, compensation_incomplete}
use flink_control_plane_poc.Restate.Envelope.{marker, outcomes, match_types, match_outcomes, search}

-- A verdict with a type stands in the text.
pub record Named (s : String) (type : SagaOutcome) : Type 0 where
  pub before : String
  pub outcome : SagaOutcome
  pub after : String
  pub at : s ≡ before <> (marker outcome type <> after)

-- It stands at the front.
pub record Leads (s : String) (type : SagaOutcome) : Type 0 where
  pub outcome : SagaOutcome
  pub after : String
  pub at : s ≡ marker outcome type <> after

starts-Leads :
    (s : String) (outcome type : SagaOutcome)
    → starts_with s (marker outcome type) ≡ true
    → Leads s type
starts-Leads s outcome type is =
    let (after, at) = (starts_with_iff s (marker outcome type)).0 is in
    record { outcome = outcome; after = after; at = sym at }

module _ (s : String) where
  match_types-Leads :
      (outcome : SagaOutcome) (types : List SagaOutcome) (type : SagaOutcome)
      → match_types s outcome types ≡ some type
      → Leads s type
  unfolding match_types
  match_types-Leads outcome [] type is = absurd (let clash : none ≡ some type = is in cc)
  match_types-Leads outcome (x ∷ rest) type is =
      go (match_types-Leads outcome rest type) (starts_with s (marker outcome x)) refl is
    where
      go :
          (match_types s outcome rest ≡ some type → Leads s type)
          → (b : Bool) → starts_with s (marker outcome x) ≡ b
          → (if b then some x else match_types s outcome rest) ≡ some type
          → Leads s type
      go later true starts is =
          let same : x ≡ type = cc in
          starts-Leads s outcome type
            (subst (λ y. starts_with s (marker outcome y) ≡ true) same starts)
      go later false _ is = later is

  pub match_outcomes-Leads :
      (some_outcomes : List SagaOutcome) (type : SagaOutcome)
      → match_outcomes s some_outcomes ≡ some type
      → Leads s type
  unfolding match_outcomes
  match_outcomes-Leads [] type is = absurd (let clash : none ≡ some type = is in cc)
  match_outcomes-Leads (x ∷ rest) type is =
      go (match_outcomes-Leads rest type) (match_types s x outcomes) refl is
    where
      go :
          (match_outcomes s rest ≡ some type → Leads s type)
          → (r : Option SagaOutcome) → match_types s x outcomes ≡ r
          → elim r [ some y ↦ some y | none ↦ match_outcomes s rest ] ≡ some type
          → Leads s type
      go later (some y) found is = match_types-Leads x outcomes type (found ∙ is)
      go later none _ is = later is

  -- The pattern matches at the front of a text that starts with a verdict.
  pub match_outcomes-some :
      (outcome type : SagaOutcome)
      → starts_with s (marker outcome type) ≡ true
      → match_outcomes s outcomes ≢ none
  unfolding match_outcomes match_types
  match_outcomes-some outcome type h = go outcome type h
    where
      go :
          (outcome type : SagaOutcome)
          → starts_with s (marker outcome type) ≡ true
          → match_outcomes s outcomes ≢ none
      go rejected rejected h = ground arith
      go rejected compensated h = ground arith
      go rejected compensation_incomplete h = ground arith
      go compensated rejected h = ground arith
      go compensated compensated h = ground arith
      go compensated compensation_incomplete h = ground arith
      go compensation_incomplete rejected h = ground arith
      go compensation_incomplete compensated h = ground arith
      go compensation_incomplete compensation_incomplete h = ground arith

Leads-Named : {s : String} {type : SagaOutcome} → Leads s type → Named s type
Leads-Named l = record {
  before = "";
  outcome = l.outcome;
  after = l.after;
  at = l.at ∙ sym (nil-append _);
}

Named-cons : {c : Char} {s : String} {type : SagaOutcome} → Named s type → Named (Text.◌∷◌ c s) type
Named-cons {c} n = record {
  before = Text.◌∷◌ c n.before;
  outcome = n.outcome;
  after = n.after;
  at = ap (Text.◌∷◌ c) n.at ∙ sym (cons-append c n.before _);
}

-- What the search finds is named by the text.
pub search-Named : (s : String) (type : SagaOutcome) → search s ≡ some type → Named s type
unfolding search
search-Named Text.[] type is = Leads-Named (match_outcomes-Leads Text.[] outcomes type is)
search-Named (Text.◌∷◌ c s) type is =
    go (search-Named s type) (match_outcomes (Text.◌∷◌ c s) outcomes) refl is
  where
    go :
        (search s ≡ some type → Named s type)
        → (r : Option SagaOutcome) → match_outcomes (Text.◌∷◌ c s) outcomes ≡ r
        → elim r [ some y ↦ some y | none ↦ search s ] ≡ some type
        → Named (Text.◌∷◌ c s) type
    go later (some y) found is =
        Leads-Named (match_outcomes-Leads (Text.◌∷◌ c s) outcomes type (found ∙ is))
    go later none _ is = Named-cons (later is)

search-front :
    (s : String) (outcome type : SagaOutcome)
    → starts_with s (marker outcome type) ≡ true
    → search s ≢ none
unfolding search
search-front Text.[] outcome type h is = match_outcomes-some Text.[] outcome type h is
search-front (Text.◌∷◌ c s) outcome type h is =
    go (match_outcomes (Text.◌∷◌ c s) outcomes) (match_outcomes-some (Text.◌∷◌ c s) outcome type h)
      is
  where
    go : (r : Option SagaOutcome) → r ≢ none → elim r [ some y ↦ some y | none ↦ search s ] ≢ none
    go none found is = found refl
    go (some y) found is = cc

search-later : (c : Char) (s : String) → search (Text.◌∷◌ c s) ≡ none → search s ≡ none
unfolding search
search-later c s is = go (match_outcomes (Text.◌∷◌ c s) outcomes) is
  where
    go :
        (r : Option SagaOutcome)
        → elim r [ some y ↦ some y | none ↦ search s ] ≡ none
        → search s ≡ none
    go none is = is
    go (some y) is = absurd (let clash : some y ≡ none = is in cc)

search-somewhere :
    (before : String) (outcome type : SagaOutcome) (after : String)
    → search (before <> (marker outcome type <> after)) ≢ none
search-somewhere Text.[] outcome type after is =
    search-front (marker outcome type <> after) outcome type
      (starts_with-append (marker outcome type) after)
      (ap search (sym (nil-append (marker outcome type <> after))) ∙ is)
search-somewhere (Text.◌∷◌ c before) outcome type after is =
    search-somewhere before outcome type after (
      search-later c (before <> (marker outcome type <> after))
        (ap search (sym (cons-append c before (marker outcome type <> after))) ∙ is))

-- A text that names a verdict has one that is found.
pub Named-search :
    {s : String} {type : SagaOutcome}
    → Named s type
    → (found : SagaOutcome) × (search s ≡ some found)
Named-search {s} {type} n = go (search s) refl
  where
    go : (r : Option SagaOutcome) → search s ≡ r → (found : SagaOutcome) × (search s ≡ some found)
    go none missing =
        absurd (search-somewhere n.before n.outcome type n.after (ap search (sym n.at) ∙ missing))
    go (some found) is = (found, is)

-- The search finds a verdict in exactly the texts that name one, and the type that it gives is that
-- of one that the text names.
pub search-Exact :
    (s : String)
    → ((type : SagaOutcome) → search s ≡ some type → Named s type)
      × (search s ≡ none → (type : SagaOutcome) → ¬ Named s type)
search-Exact s = (
  search-Named s,
  λ missing type named.
      let (found, is) = Named-search named in
      let clash : none ≡ some found = sym missing ∙ is in absurd cc,
)
