-- ===== src/Common/Decimal.antt =====
-- Integers and their decimal text: `big.Int.String` of the Go library.
use Prim.Native.Nat.{ℕ, zero, suc, ◌+◌, ◌-◌, ◌*◌, ◌/◌, ◌%◌, ◌≤◌}
use mathlib.Core.Path.{◌≡◌, sym, ap, ◌∙◌}
use mathlib.Core.Logic.{inl, inr}
use mathlib.Core.List.{[], ◌∷◌}
use native.Mathlib.Omega.{arith}
use mathlib.Core.Option.{Option, none, some}
use centralized_relay.Common.Tests.{◌==◌, ltb, if◌then◌else◌, Bool-cases}
use centralized_relay.Common.Texts.{Text}
use centralized_relay.Common.Lists.{All}

-- `negsuc n` is -(n + 1).
pub data ℤ : Type 0 where
  pos : ℕ → ℤ
  negsuc : ℕ → ℤ

-- The digits of `n` before `out`; each round divides by ten, so `n` rounds are enough.
emit : ℕ → ℕ → Text → Text
emit zero n out = out
emit (suc f) n out =
    let rest = emit f (n / 10) ((b'0' + n % 10) ∷ out) in if n == 0 then out else rest

unfoldable pub decimal : ℕ → Text
unfolding emit
decimal n = if n == 0 then b'0' ∷ [] else emit n n []

unfoldable pub int_string : ℤ → Text
unfolding decimal
int_string (pos n) = decimal n
int_string (negsuc n) = b'-' ∷ decimal (suc n)

-- The number that a text of digits stands for.
value : ℕ → Text → ℕ
value a [] = a
value a (c ∷ s) = value (a * 10 + (c - b'0')) s

value-emit : (f n : ℕ) (out : Text) → n ≤ f → value 0 (emit f n out) ≡ value n out
unfolding value emit
value-emit zero n out h = ground arith
value-emit (suc f) n out h = elim (Bool-cases (n == 0)) [
  | inl e ↦ rw e (ground arith)
  | inr e ↦ rw e (
      value-emit f (n / 10) ((b'0' + n % 10) ∷ out) (ground arith)
      ∙ ap (λ k. value k out) (omega arith))
]

value-decimal : (n : ℕ) → value 0 (decimal n) ≡ n
unfolding decimal value
value-decimal n = elim (Bool-cases (n == 0)) [
  | inl e ↦ rw e (ground arith)
  | inr e ↦ rw e (value-emit n n [] (omega arith))
]

abbrev pub IsDigit : ℕ → Type 0
IsDigit c = b'0' ≤ c

emit-IsDigit : (f n : ℕ) (out : Text) → All IsDigit out → All IsDigit (emit f n out)
unfolding emit
emit-IsDigit zero n out h = h
emit-IsDigit (suc f) n out h = elim (Bool-cases (n == 0)) [
  | inl e ↦ rw e h
  | inr e ↦ rw e (emit-IsDigit f (n / 10) _ (omega arith, h))
]

pub decimal-IsDigit : (n : ℕ) → All IsDigit (decimal n)
unfolding decimal
decimal-IsDigit n = elim (Bool-cases (n == 0)) [
  | inl e ↦ rw e (omega arith, tt)
  | inr e ↦ rw e (emit-IsDigit n n [] tt)
]

pub decimal_injective : (m n : ℕ) → decimal m ≡ decimal n → m ≡ n
decimal_injective m n e = sym (value-decimal m) ∙ ap (value 0) e ∙ value-decimal n

dash-ne-decimal : (n : ℕ) (s t : Text) → t ≡ b'-' ∷ s → All IsDigit t → ⊥
dash-ne-decimal n s [] e h = cc
dash-ne-decimal n s (c ∷ t) e h = ground (arith, h.0)

-- Two integers with the same text are the same integer.
pub int_string_injective : (a b : ℤ) → int_string a ≡ int_string b → a ≡ b
unfolding int_string
int_string_injective (pos m) (pos n) e = ap pos (decimal_injective m n e)
int_string_injective (pos m) (negsuc n) e = absurd (dash-ne-decimal m _ _ e (decimal-IsDigit m))
int_string_injective (negsuc m) (pos n) e =
    absurd (dash-ne-decimal n _ _ (sym e) (decimal-IsDigit n))
int_string_injective (negsuc m) (negsuc n) e =
    ap negsuc (pred_eq (decimal_injective (suc m) (suc n) (tail_eq e)))
  where
    pred_eq : suc m ≡ suc n → m ≡ n
    pred_eq h = omega arith

    tail_eq : {s t : Text} → b'-' ∷ s ≡ b'-' ∷ t → s ≡ t
    tail_eq h = cc

-- The digits of `big.Int.SetString` with base 10, after the number `a`.
unfoldable pub read_digits : ℕ → Text → Option ℕ
read_digits a [] = some a
read_digits a (c ∷ s) =
    let rest = read_digits (a * 10 + (c - b'0')) s in
    if ltb c b'0' then none else if ltb b'9' c then none else rest

abbrev signed : (ℕ → ℤ) → Option ℕ → Option ℤ
signed f none = none
signed f (some n) = some (f n)

abbrev minus : ℕ → ℤ
minus zero = pos zero
minus (suc n) = negsuc n

abbrev read_unsigned : Text → Option ℕ
read_unsigned [] = none
read_unsigned (c ∷ s) = read_digits 0 (c ∷ s)

-- `new(big.Int).SetString(s, 10)`
unfoldable pub set_string : Text → Option ℤ
unfolding read_digits
set_string [] = none
set_string (c ∷ s) =
    if c == b'-'
    then signed minus (read_unsigned s)
    else if c == b'+'
    then signed pos (read_unsigned s)
    else signed pos (read_digits 0 (c ∷ s))
