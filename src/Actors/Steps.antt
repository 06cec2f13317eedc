-- ===== src/Actors/Steps.antt =====
-- The `step` that a saga makes up for each of its commands: the names under which the steps are
-- reported, and the last part of the update ids on Temporal.
use Prim.Native.Char.{Char, code}
use Prim.Native.String.append
use text.Mathlib.TextLemmas.{append_cancel_left}
use flink_control_plane_poc.Prelude.{ℕ, String, ◌<>◌, ◌≡◌, sym, ap, ◌∙◌, arith, decimal}
use flink_control_plane_poc.Prelude.Text.Decimals.{decimal-injective}
use flink_control_plane_poc.Actors.{Command, pause, patch, resume, restore}

-- the `step` of `_call` and `_compensate`
unfoldable pub step_key : Command → String
step_key (pause family) = "pause:" <> family
step_key (patch family) = "patch:" <> family
step_key (resume family) = "resume:" <> family
step_key (restore index label) = "comp:" <> (decimal index <> (":" <> label))

-- The third letter tells the four kinds of step apart.
third : String → ℕ
third (String.◌∷◌ a (String.◌∷◌ b (String.◌∷◌ c s))) = code c
third s = 0

third-append :
    (a b c : Char) (s t : String)
    → third ((String.◌∷◌ a (String.◌∷◌ b (String.◌∷◌ c s))) <> t) ≡ code c
unfolding third
third-append a b c s t = ap third (
    append.cons a (String.◌∷◌ b (String.◌∷◌ c s)) t
    ∙ ap (String.◌∷◌ a) (append.cons b (String.◌∷◌ c s) t ∙ ap (String.◌∷◌ b) (append.cons c s t)))

kind : Command → ℕ
kind (pause family) = 117
kind (patch family) = 116
kind (resume family) = 115
kind (restore index label) = 109

third-step_key : (c : Command) → third (step_key c) ≡ kind c
unfolding step_key kind
third-step_key (pause f) = third-append "p" "a" "u" "se:" f
third-step_key (patch f) = third-append "p" "a" "t" "ch:" f
third-step_key (resume f) = third-append "r" "e" "s" "ume:" f
third-step_key (restore i l) = third-append "c" "o" "m" "p:" (decimal i <> (":" <> l))

-- Commands of one kind.
same_kind : (c d : Command) → kind c ≡ kind d → step_key c ≡ step_key d → c ≡ d
unfolding step_key kind
same_kind (pause f) (pause g) k h = ap pause (append_cancel_left "pause:" f g h)
same_kind (patch f) (patch g) k h = ap patch (append_cancel_left "patch:" f g h)
same_kind (resume f) (resume g) k h = ap resume (append_cancel_left "resume:" f g h)
same_kind (restore i l) (restore j m) k h =
    let (same, rest) = decimal-injective i j l m (append_cancel_left "comp:" _ _ h) in
    ap (λ n. restore n l) same ∙ ap (restore j) rest
same_kind _ _ k h = absurd (omega (arith, k))

-- No two commands have the same step.
pub step_key-injective : (c d : Command) → step_key c ≡ step_key d → c ≡ d
step_key-injective c d h = same_kind c d (sym (third-step_key c) ∙ ap third h ∙ third-step_key d) h
