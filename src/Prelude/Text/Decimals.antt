-- ===== src/Prelude/Text/Decimals.antt =====
-- What a text that starts with a number in decimal says: the number, and the rest.
use Prim.Native.Nat.{ℕ, zero, suc, ◌+◌, ◌-◌, ◌*◌, ◌/◌, ◌%◌, ◌<◌}
use Prim.Native.Char.{Char, code}
use Prim.Native.String.{String, ◌++◌}
use Prim.Native.String.append
use mathlib.Core.Path.{◌≡◌, refl, sym, ap, ◌∙◌}
use mathlib.Core.Bool.{Bool, true, ◌&&◌}
use native.Mathlib.Omega.{arith}
use text.Mathlib.TextLemmas.{append_assoc, append_cancel_left}
use mathlib.Core.Logic.{inl, inr}
use flink_control_plane_poc.Prelude.Tests.{ltb, if◌then◌else◌, Bool-cases}
use flink_control_plane_poc.Prelude.Text.{digit, decimal_from, decimal}

is_digit : Char → Bool
is_digit c = ltb 47 (code c) && ltb (code c) 58

read : ℕ → String → ℕ × String
read n String.[] = (n, String.[])
read n (String.◌∷◌ c s) =
    let more = read (n * 10 + (code c - 48)) s in if is_digit c then more else (n, String.◌∷◌ c s)

read-cons :
    (acc : ℕ) (c : Char) (rest : String)
    → is_digit c ≡ true
    → read acc ((String.◌∷◌ c String.[]) ++ rest) ≡ read (acc * 10 + (code c - 48)) rest
unfolding read
read-cons acc c rest h =
    ap (read acc) (append.cons c String.[] rest ∙ ap (String.◌∷◌ c) (append.nil rest)) ∙ rw h

digit_char :
    (d : ℕ)
    → d < 10
    → (c : Char) × (digit d ≡ String.◌∷◌ c String.[]) × (is_digit c ≡ true) × (code c ≡ 48 + d)
unfolding digit is_digit
digit_char zero h = (_, refl, refl, refl)
digit_char (suc zero) h = (_, refl, refl, refl)
digit_char (suc (suc zero)) h = (_, refl, refl, refl)
digit_char (suc (suc (suc zero))) h = (_, refl, refl, refl)
digit_char (suc (suc (suc (suc zero)))) h = (_, refl, refl, refl)
digit_char (suc (suc (suc (suc (suc zero))))) h = (_, refl, refl, refl)
digit_char (suc (suc (suc (suc (suc (suc zero)))))) h = (_, refl, refl, refl)
digit_char (suc (suc (suc (suc (suc (suc (suc zero))))))) h = (_, refl, refl, refl)
digit_char (suc (suc (suc (suc (suc (suc (suc (suc zero)))))))) h = (_, refl, refl, refl)
digit_char (suc (suc (suc (suc (suc (suc (suc (suc (suc zero))))))))) h = (_, refl, refl, refl)
digit_char (suc (suc (suc (suc (suc (suc (suc (suc (suc (suc d)))))))))) h = absurd (omega arith)

read-digit :
    (acc d : ℕ) (rest : String) → d < 10 → read acc (digit d ++ rest) ≡ read (acc * 10 + d) rest
read-digit acc d rest h =
    let (c, is_c, ok, at) = digit_char d h in
    ap (λ s. read acc (s ++ rest)) is_c
    ∙ read-cons acc c rest ok
    ∙ ap (λ n. read n rest) (omega (arith, at))

-- The fuel is above the number.
read-decimal_from :
    (fuel n : ℕ) (rest : String) → n < fuel → read 0 (decimal_from fuel n ++ rest) ≡ read n rest
unfolding decimal_from
read-decimal_from zero n rest h = absurd (omega arith)
read-decimal_from (suc fuel) n rest h = elim (Bool-cases (ltb n 10)) [
  | inl small ↦
      rw small (read-digit 0 n rest (ground (arith, small)) ∙ ap (λ m. read m rest) (omega arith))
  | inr large ↦ rw large (
      ap (read 0) (append_assoc (decimal_from fuel (n / 10)) (digit (n % 10)) rest)
      ∙ read-decimal_from fuel (n / 10) (digit (n % 10) ++ rest) (ground (arith, large))
      ∙ read-digit (n / 10) (n % 10) rest (omega arith)
      ∙ ap (λ m. read m rest) (omega arith))
]

colon_stops : (n : ℕ) (rest : String) → read n (":" ++ rest) ≡ (n, ":" ++ rest)
unfolding read is_digit
colon_stops n rest =
    ap (read n) (append.cons ":" String.[] rest ∙ ap (String.◌∷◌ ":") (append.nil rest))
    ∙ ap (λ s. (n, s))
        (sym (append.cons ":" String.[] rest ∙ ap (String.◌∷◌ ":") (append.nil rest)))

-- Reading back a number that a colon follows.
read-decimal : (n : ℕ) (rest : String) → read 0 (decimal n ++ (":" ++ rest)) ≡ (n, ":" ++ rest)
unfolding decimal
read-decimal n rest = read-decimal_from (suc n) n (":" ++ rest) (omega arith) ∙ colon_stops n rest

pub decimal-injective :
    (m n : ℕ) (s t : String) → decimal m ++ (":" ++ s) ≡ decimal n ++ (":" ++ t) → (m ≡ n) × (s ≡ t)
decimal-injective m n s t h =
    let e = sym (read-decimal m s) ∙ ap (read 0) h ∙ read-decimal n t in
    (ap (λ p. p.0) e, append_cancel_left ":" s t (ap (λ p. p.1) e))
