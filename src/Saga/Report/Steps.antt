-- ===== src/Saga/Report/Steps.antt =====
-- The first missing step of a list without repetitions.
use mathlib.Core.Path.{subst}
use flink_control_plane_poc.Prelude.{
  String, ◌≡◌, ◌≢◌, refl, ap, ◌∙◌, true, false, List, [], ◌∷◌, ◌++◌, map, arith,
}
use flink_control_plane_poc.Prelude.Equality.{◌==◌, string_eq, contains}
use flink_control_plane_poc.Prelude.Lists.{All}
use flink_control_plane_poc.Domain.{MoveDatatypeRequest, families}
use flink_control_plane_poc.Actors.{Command, pause, patch, resume, restore}
use flink_control_plane_poc.Actors.Steps.{step_key, step_key-injective}
use flink_control_plane_poc.Saga.{expected_steps, next_step, first_missing}

-- No step twice.
abbrev AreDistinct : List String → Type 0
AreDistinct [] = Unit
AreDistinct (x ∷ xs) = (contains x xs ≡ false) × AreDistinct xs

contains-split :
    (x step : String) (before rest : List String)
    → contains x (before ++ step ∷ rest) ≡ false
    → (contains x before ≡ false) × (x ≢ step)
unfolding contains
contains-split x step [] rest h = ground (arith, h)
contains-split x step (y ∷ before) rest h =
    let later = contains-split x step before rest in ground (arith, h, later)

-- The step after some of the steps is not among them.
not_before :
    (before : List String) (step : String) (rest : List String)
    → AreDistinct (before ++ step ∷ rest)
    → contains step before ≡ false
unfolding contains
not_before [] step rest h = refl
not_before (x ∷ before) step rest h =
    ground (arith, not_before before step rest h.1, contains-split x step before rest h.0)

abbrev AreIn : List String → List String → Type 0
AreIn ys = All (λ x. contains x ys ≡ true)

AreIn-cons : (y : String) (ys xs : List String) → AreIn ys xs → AreIn (y ∷ ys) xs
unfolding contains
AreIn-cons y ys [] h = tt
AreIn-cons y ys (x ∷ xs) h = (ground (arith, h.0), AreIn-cons y ys xs h.1)

AreIn-refl : (xs : List String) → AreIn xs xs
unfolding contains
AreIn-refl [] = tt
AreIn-refl (x ∷ xs) = (ground arith, AreIn-cons x xs xs (AreIn-refl xs))

first_missing_lem :
    (before : List String) (step : String) (rest finished : List String)
    → AreIn finished before
    → contains step finished ≡ false
    → first_missing (before ++ step ∷ rest) finished ≡ step
unfolding first_missing
first_missing_lem [] step rest finished all new = ground (arith, new)
first_missing_lem (x ∷ before) step rest finished all new =
    ground (arith, all.0, first_missing_lem before step rest finished all.1 new)

unlike : (c d : Command) → c ≢ d → (step_key c == step_key d) ≡ false
unlike c d differ = ground (arith, differ, step_key-injective c d)

not_among : (x : String) (xs : List String) → All (λ y. (x == y) ≡ false) xs → contains x xs ≡ false
unfolding contains
not_among x [] h = refl
not_among x (y ∷ ys) h = ground (arith, h.0, not_among x ys h.1)

-- Commands that differ from each other.
abbrev Differ : List Command → Type 0
Differ [] = Unit
Differ (c ∷ cs) = All (λ d. c ≢ d) cs × Differ cs

steps-AreDistinct : (cs : List Command) → Differ cs → AreDistinct (map step_key cs)
steps-AreDistinct [] h = tt
steps-AreDistinct (c ∷ cs) h =
    (not_among (step_key c) (map step_key cs) (go cs h.0), steps-AreDistinct cs h.1)
  where
    go :
        (ds : List Command)
        → All (λ d. c ≢ d) ds
        → All (λ y. (step_key c == y) ≡ false) (map step_key ds)
    go [] k = tt
    go (d ∷ ds) k = (unlike c d k.0, go ds k.1)

-- A part of a command that tells commands of one kind apart.
family_of : Command → String
family_of (pause f) = f
family_of (patch f) = f
family_of (resume f) = f
family_of (restore index label) = label

expected_steps-AreDistinct :
    (request : MoveDatatypeRequest)
    → request.source_family ≢ request.target_family
    → AreDistinct (expected_steps request)
unfolding expected_steps families step_key family_of
expected_steps-AreDistinct request distinct =
    let f = request.source_family in
    let g = request.target_family in
    steps-AreDistinct (pause f ∷ pause g ∷ patch f ∷ patch g ∷ resume f ∷ resume g ∷ []) (
      ((λ e. distinct (ap family_of e)), ((λ e. cc), ((λ e. cc), ((λ e. cc), ((λ e. cc), tt))))),
      (
        ((λ e. cc), ((λ e. cc), ((λ e. cc), ((λ e. cc), tt)))),
        (
          ((λ e. distinct (ap family_of e)), ((λ e. cc), ((λ e. cc), tt))),
          (((λ e. cc), ((λ e. cc), tt)), (((λ e. distinct (ap family_of e)), tt), (tt, tt))),
        ),
      ),
    )

-- With the steps before it done, and no others, the next step is the one that follows.
pub next_step-follows :
    (request : MoveDatatypeRequest) (before : List String) (step : String) (rest : List String)
    → request.source_family ≢ request.target_family
    → expected_steps request ≡ before ++ step ∷ rest
    → next_step request before ≡ step
unfolding next_step
next_step-follows request before step rest distinct splits =
    ap (λ steps. first_missing steps before) splits
    ∙ first_missing_lem before step rest before (AreIn-refl before) (
        not_before before step rest
          (subst AreDistinct splits (expected_steps-AreDistinct request distinct)))
