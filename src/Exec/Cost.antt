-- ===== src/Exec/Cost.antt =====
-- How much a call adds to a number that its state holds.
use flink_control_plane_poc.Prelude.{ℕ, ◌+◌, ◌≤◌, ap, arith}
use flink_control_plane_poc.Exec.{Result, Exec, ◌>>=◌, bind_cases}

-- At most `n` more than in `s`, however the call ends.
abbrev pub Adds : {S E A : Type 0} → (S → ℕ) → ℕ → S → Result E A × S → Type 0
Adds cost n s r = cost r.1 ≤ cost s + n

module _ {S E : Type 0} (cost : S → ℕ) where
  pub Adds-bind :
      {A B : Type 0} (a b : ℕ) (m : Exec S E A) (f : A → Exec S E B) (s : S)
      → Adds cost a s (m s)
      → ((x : A) (t : S) → Adds cost b t (f x t))
      → Adds cost (a + b) s ((m >>= f) s)
  Adds-bind a b m f s first rest =
      bind_cases m f s (Adds cost (a + b) s) (λ e t h. omega (arith, first, ap (λ r. cost r.1) h))
        (λ x t h. omega (arith, first, rest x t, ap (λ r. cost r.1) h))
