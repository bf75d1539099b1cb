-- ===== src/Prelude/Effect.antt =====
-- A Go call that may fail and that acts on the world outside: its error or value, and the world
-- after it. What was done before an error stays done.

use mathlib.Core.Path.{◌≡◌, refl, ap}

pub data Result {ℓ κ} (E : Type ℓ) (A : Type κ) : Type (ℓ ⊔ κ) where
  ok : A → Result E A
  err : E → Result E A

abbrev pub Action : Type 0 → Type 0 → Type 0 → Type 0
Action E W A = W → Result E A × W

module _ {E W : Type 0} where
  abbrev pub pure : {A : Type 0} → A → Action E W A
  pure a w = (ok a, w)

  abbrev pub fail : {A : Type 0} → E → Action E W A
  fail e w = (err e, w)

  abbrev pub continue : {A B : Type 0} → (A → Action E W B) → W → Result E A → Result E B × W
  continue f w (ok a) = f a w
  continue f w (err e) = (err e, w)

  infixl 5 ◌>>=◌ ◌>>◌
  unfoldable pub ◌>>=◌ : {A B : Type 0} → Action E W A → (A → Action E W B) → Action E W B
  ◌>>=◌ m f w = let (r, w') = m w in continue f w' r

  abbrev pub ◌>>◌ : {B : Type 0} → Action E W (Unit {0}) → Action E W B → Action E W B
  m >> k = m >>= λ _. k

  -- `v, err := m`: the caller looks at the error itself.
  abbrev pub attempt : {A : Type 0} → Action E W A → Action E W (Result E A)
  attempt m w = let (r, w') = m w in (ok r, w')

module _ {E W A B : Type 0} where
  -- What a successful `m >>= f` says of its parts.
  pub record BindOk (m : Action E W A) (f : A → Action E W B) (w : W) (b : B) (w' : W)
      : Type 0 where
    pub value : A
    pub between : W
    pub first : m w ≡ (ok value, between)
    pub second : f value between ≡ (ok b, w')

  continue-eq-ok :
      (f : A → Action E W B) (w : W) (r : Result E A) {b : B} {w' : W}
      → continue f w r ≡ (ok b, w')
      → (a : A) × (r ≡ ok a) × (f a w ≡ (ok b, w'))
  continue-eq-ok f w (ok a) h = (a, refl, h)
  continue-eq-ok f w (err e) h = cc

  pub bind-eq-ok :
      (m : Action E W A) (f : A → Action E W B) (w : W) {b : B} {w' : W}
      → (m >>= f) w ≡ (ok b, w')
      → BindOk m f w b w'
  unfolding ◌>>=◌
  bind-eq-ok m f w h =
      let (r, w1) = m w in
      let (a, e, g) = continue-eq-ok f w1 r h in
      record { value = a; between = w1; first = ap (λ (x : Result E A). (x, w1)) e; second = g }

pub pure-eq-ok :
    {E W A : Type 0} (a : A) (w : W) {b : A} {w' : W}
    → ◌≡◌ {A = Result E A × W} (ok a, w) (ok b, w')
    → a ≡ b
pure-eq-ok a w h = cc
