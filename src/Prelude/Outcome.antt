-- ===== src/Prelude/Outcome.antt =====
-- Asynchronous code over a world `W`: an awaited call returns a value or throws, and changes `W`.

pub data Outcome (E : Type 0) (A : Type 0) : Type 0 where
  returned : A → Outcome E A
  thrown : E → Outcome E A

abbrev pub Action : Type 0 → Type 0 → Type 0 → Type 0
Action E W A = W → Outcome E A × W

module _ {E W A B : Type 0} where
  -- What follows an awaited call.
  abbrev pub resume : (A → Action E W B) → Outcome E A × W → Outcome E B × W
  resume f (returned a, w) = f a w
  resume f (thrown e, w) = (thrown e, w)

  infixl 5 ◌>>=◌
  abbrev pub ◌>>=◌ : Action E W A → (A → Action E W B) → Action E W B
  ◌>>=◌ m f w = resume f (m w)

  infixl 5 ◌>>◌
  abbrev pub ◌>>◌ : Action E W A → Action E W B → Action E W B
  ◌>>◌ m k w = resume (λ _. k) (m w)

module _ {E W A : Type 0} where
  abbrev pub return : A → Action E W A
  return a w = (returned a, w)

  abbrev pub throw : E → Action E W A
  throw e w = (thrown e, w)

  -- `Q` holds of what is returned, `R` of what is thrown.
  abbrev pub Ends {ℓ} : (A → W → Type ℓ) → (E → W → Type ℓ) → Outcome E A × W → Type ℓ
  Ends Q R (returned a, w) = Q a w
  Ends Q R (thrown e, w) = R e w

-- The rule for one call and what follows it.
pub resume-Ends {ℓ} :
    {E W A B : Type 0} (Q : A → W → Type ℓ) (Q' : B → W → Type ℓ) (R : E → W → Type ℓ)
    (f : A → Action E W B) (r : Outcome E A × W)
    → Ends Q R r
    → ((a : A) (w : W) → Q a w → Ends Q' R (f a w))
    → Ends Q' R (resume f r)
resume-Ends Q Q' R f (returned a, w) h k = k a w h
resume-Ends Q Q' R f (thrown e, w) h k = h

pub Ends-weaken {ℓ} :
    {E W A : Type 0} (Q : A → W → Type ℓ) (R R' : E → W → Type ℓ) (r : Outcome E A × W)
    → Ends Q R r
    → ((e : E) (w : W) → R e w → R' e w)
    → Ends Q R' r
Ends-weaken Q R R' (returned a, w) h k = h
Ends-weaken Q R R' (thrown e, w) h k = k e w h

pub world_of_Ends {ℓ κ} :
    {E W A : Type 0} (Q : A → W → Type ℓ) (R : E → W → Type ℓ) (B : W → Type κ)
    (r : Outcome E A × W)
    → Ends Q R r
    → ((a : A) (w : W) → Q a w → B w)
    → ((e : E) (w : W) → R e w → B w)
    → B r.1
world_of_Ends Q R B (returned a, w) h k l = k a w h
world_of_Ends Q R B (thrown e, w) h k l = l e w h

pub Ends-of_world {ℓ} :
    {E W A : Type 0} (B : W → Type ℓ) (r : Outcome E A × W) → B r.1 → Ends (λ _. B) (λ _. B) r
Ends-of_world B (returned a, w) h = h
Ends-of_world B (thrown e, w) h = h
