-- ===== src/Common/Runs.antt =====
-- What a Go call does that may also panic: it returns a value, returns an error, or panics.
use mathlib.Core.Path.{◌≡◌, refl}
use mathlib.Core.List.{List, [], ◌∷◌}
use Prim.Native.Nat.{ℕ, zero, suc}
use centralized_relay.Common.Results.{Error, Result, ok, err}

pub data Run {ℓ} (A : Type ℓ) : Type ℓ where
  returns : A → Run A
  fails : Error → Run A
  panics : Run A

infixl 5 ◌>>!◌
abbrev pub ◌>>!◌ {ℓ κ} : {A : Type ℓ} {B : Type κ} → Run A → (A → Run B) → Run B
returns a >>! f = f a
fails e >>! f = fails e
panics >>! f = panics

-- A call that does not panic.
abbrev pub lift {ℓ} : {A : Type ℓ} → Result A → Run A
lift (ok a) = returns a
lift (err e) = fails e

-- `xs[n]`, which panics when `n` is out of range.
unfoldable pub at {ℓ} : {A : Type ℓ} → List A → ℕ → Run A
at [] n = panics
at (x ∷ xs) zero = returns x
at (x ∷ xs) (suc n) = at xs n

-- A chain that returns has a first call that returns, and what follows from both calls holds.
pub >>!-gives {ℓ κ μ} :
    {A : Type ℓ} {B : Type κ} {P : Type μ} (r : Run A) (f : A → Run B) (b : B)
    → (r >>! f) ≡ returns b
    → ((a : A) → r ≡ returns a → f a ≡ returns b → P)
    → P
>>!-gives (returns a) f b h k = k a refl h
>>!-gives (fails e) f b h k = absurd (cc)
>>!-gives panics f b h k = absurd (cc)

pub >>!-returns {ℓ κ} :
    {A : Type ℓ} {B : Type κ} (r : Run A) (f : A → Run B) (a : A) (b : B)
    → r ≡ returns a
    → f a ≡ returns b
    → (r >>! f) ≡ returns b
>>!-returns r f a b p q = rw p q

pub lift-returns {ℓ} : {A : Type ℓ} (r : Result A) (a : A) → lift r ≡ returns a → r ≡ ok a
lift-returns (ok b) a h = cc
lift-returns (err e) a h = absurd (cc)

pub fails-ne {ℓ} : {A : Type ℓ} (e : Error) (a : A) → fails e ≡ returns a → ⊥
fails-ne e a h = cc

pub returns_injective {ℓ} : {A : Type ℓ} {a b : A} → returns a ≡ returns b → a ≡ b
returns_injective h = cc
