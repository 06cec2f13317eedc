-- ===== src/Exec.antt =====
-- A method that changes an object and may raise. What was written before a raise stays written,
-- so the state comes back beside the error too.
pub mod Cost
use mathlib.Core.Path.{◌≡◌, refl}

pub data Result {ℓ κ} (E : Type ℓ) (A : Type κ) : Type (ℓ ⊔ κ) where
  ok : A → Result E A
  err : E → Result E A

abbrev pub Exec {ℓ} : Type ℓ → Type ℓ → Type ℓ → Type ℓ
Exec S E A = S → Result E A × S

module _ {ℓ} {S E A : Type ℓ} where
  abbrev pub pure : A → Exec S E A
  pure a s = (ok a, s)

  abbrev pub raise : E → Exec S E A
  raise e s = (err e, s)

  abbrev pub gets : (S → A) → Exec S E A
  gets f s = (ok (f s), s)

abbrev pub modify : {S E : Type 0} → (S → S) → Exec S E (Unit {0})
modify f s = (ok tt, f s)

infixl 5 ◌>>=◌ ◌>>◌
abbrev pub ◌>>=◌ {ℓ} : {S E A B : Type ℓ} → Exec S E A → (A → Exec S E B) → Exec S E B
◌>>=◌ m f s = let (r, s') = m s in elim r [ ok a ↦ f a s' | err e ↦ (err e, s') ]

abbrev pub ◌>>◌ {ℓ} : {S E A B : Type ℓ} → Exec S E A → Exec S E B → Exec S E B
m >> k = m >>= λ _. k

-- A property of a block holds if it holds where its first step raises and where the rest goes on.
pub bind_cases {ℓ κ} :
    {S E A B : Type ℓ} (m : Exec S E A) (f : A → Exec S E B) (s : S) (P : Result E B × S → Type κ)
    → ((e : E) (t : S) → m s ≡ (err e, t) → P (err e, t))
    → ((a : A) (t : S) → m s ≡ (ok a, t) → P (f a t))
    → P ((m >>= f) s)
bind_cases {S} {E} {A} {B} m f s P raised returned = go (m s) refl
  where
    go : (r : Result E A × S) → m s ≡ r → P (elim r.0 [ ok a ↦ f a r.1 | err e ↦ (err e, r.1) ])
    go (ok a, t) h = returned a t h
    go (err e, t) h = raised e t h

-- `I` holds of the state however a call ends, and `Q` too if it returns.
pub data Ensures {S E A : Type 0} (I Q : S → Type 0) : Result E A × S → Type 0 where
  returned : (a : A) (s : S) → I s → Q s → Ensures I Q (ok a, s)
  raised : (e : E) (s : S) → I s → Ensures I Q (err e, s)

module _ {S E : Type 0} {I : S → Type 0} where
  pub Ensures-bind :
      {A B : Type 0} {P Q : S → Type 0} (m : Exec S E A) (f : A → Exec S E B) (s : S)
      → Ensures I P (m s)
      → ((a : A) (t : S) → I t → P t → Ensures I Q (f a t))
      → Ensures I Q ((m >>= f) s)
  Ensures-bind {A} {B} {P} {Q} m f s first rest = go first
    where
      go :
          {r : Result E A × S}
          → Ensures I P r
          → Ensures {E = E} {A = B} I Q (elim r.0 [ ok a ↦ f a r.1 | err e ↦ (err e, r.1) ])
      go (Ensures.returned a t i p) = rest a t i p
      go (Ensures.raised e t i) = Ensures.raised e t i

  -- A weaker invariant and postcondition.
  pub Ensures-map :
      {A : Type 0} {J P Q : S → Type 0} {r : Result E A × S}
      → ((s : S) → I s → J s)
      → ((s : S) → I s → P s → Q s)
      → Ensures I P r
      → Ensures J Q r
  Ensures-map f g (Ensures.returned a s i p) = Ensures.returned a s (f s i) (g s i p)
  Ensures-map f g (Ensures.raised e s i) = Ensures.raised e s (f s i)

  pub Ensures-pure :
      {A : Type 0} {Q : S → Type 0} (a : A) (s : S) → I s → Q s → Ensures {E = E} I Q (ok a, s)
  Ensures-pure a s i q = Ensures.returned a s i q

  -- The invariant of an `Ensures`, whichever way the call ended.
  pub Ensures-inv : {A : Type 0} {P : S → Type 0} {r : Result E A × S} → Ensures I P r → I r.1
  Ensures-inv (Ensures.returned a s i p) = i
  Ensures-inv (Ensures.raised e s i) = i

-- A call that returns, in a state with `P`.
pub data Returns {S E A : Type 0} (P : S → Type 0) : Result E A × S → Type 0 where
  returned : (a : A) (s : S) → P s → Returns P (ok a, s)

pub Returns-bind :
    {S E A B : Type 0} {P Q : S → Type 0} (m : Exec S E A) (f : A → Exec S E B) (s : S)
    → Returns P (m s)
    → ((a : A) (t : S) → P t → Returns Q (f a t))
    → Returns Q ((m >>= f) s)
Returns-bind {S} {E} {A} {B} {P} {Q} m f s first rest = go first
  where
    go :
        {r : Result E A × S}
        → Returns P r
        → Returns {E = E} {A = B} Q (elim r.0 [ ok a ↦ f a r.1 | err e ↦ (err e, r.1) ])
    go (Returns.returned a t p) = rest a t p

pub Returns-pure :
    {S E A : Type 0} {P : S → Type 0} (a : A) (s : S) → P s → Returns {E = E} P (ok a, s)
Returns-pure a s p = Returns.returned a s p
