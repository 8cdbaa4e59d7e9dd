-- ===== src/Common/Hex/Laws.antt =====
-- Lemmas on hexadecimal texts of bytes and of numbers.
use Prim.Native.Nat.{ℕ, zero, suc, ◌+◌, ◌*◌, ◌/◌, ◌%◌, ◌≤◌, ◌<◌}
use mathlib.Core.Path.{◌≡◌, refl, ap, ◌∙◌}
use mathlib.Core.Logic.{inl, inr}
use mathlib.Core.Bool.{false}
use mathlib.Core.Option.{Option, none, some}
use mathlib.Core.List.{[], ◌∷◌}
use native.Mathlib.Omega.{arith}
use centralized_relay.Common.Tests.{ltb, ◌==◌, Bool-cases}
use centralized_relay.Common.Lists.{All, length}
use centralized_relay.Common.Texts.{Text}
use centralized_relay.Common.Results.{number_out_of_range}
use centralized_relay.Common.Hex.{
  hex_digit, hex_value, hex_encode, hex_decode, emit_hex, hex_number, parse_digits, bytes_value,
}

abbrev pub IsByte : ℕ → Type 0
IsByte b = b < 256

pub hex_value-hex_digit : (d : ℕ) → d < 16 → hex_value (hex_digit d) ≡ some d
hex_value-hex_digit d h = ground arith

-- Bytes that are encoded are decoded to themselves.
pub hex_decode-hex_encode : (s : Text) → All IsByte s → hex_decode (hex_encode s) ≡ some s
unfolding hex_decode hex_encode
hex_decode-hex_encode [] h = refl
hex_decode-hex_encode (b ∷ s) h = rw (hex_value-hex_digit (b / 16) (omega (arith, h.0))) (
    rw (hex_value-hex_digit (b % 16) (omega arith))
      (rw (hex_decode-hex_encode s h.1) (ap (λ x. some (x ∷ s)) (omega arith))))

pub length-hex_encode : (s : Text) → length (hex_encode s) ≡ 2 * length s
unfolding hex_encode
length-hex_encode [] = refl
length-hex_encode (b ∷ s) = omega (arith, length-hex_encode s)

-- A character that is a digit.
abbrev pub IsHexDigit : ℕ → Type 0
IsHexDigit c = (d : ℕ) × (hex_value c ≡ some d)

abbrev digit_of : Option ℕ → ℕ
digit_of none = 0
digit_of (some d) = d

-- The number that a text of digits stands for, after `a`.
unfoldable pub digits_value : ℕ → Text → ℕ
digits_value a [] = a
digits_value a (c ∷ s) = digits_value (a * 16 + digit_of (hex_value c)) s

-- An even count of digits is decoded to the bytes of the same number.
pub hex_decode_value :
    (s : Text)
    → All IsHexDigit s
    → length s % 2 ≡ 0
    → (bs : Text) × (hex_decode s ≡ some bs) × ((a : ℕ) → bytes_value a bs ≡ digits_value a s)
unfolding hex_decode bytes_value digits_value
hex_decode_value [] h e = ([], refl, λ a. refl)
hex_decode_value (c ∷ []) h e = absurd (omega arith)
hex_decode_value (c ∷ d ∷ s) ((x, p), ((y, q), h)) e =
    let (bs, decoded, same) = hex_decode_value s h (omega arith) in
    (
      (x * 16 + y) ∷ bs,
      rw (p, q, decoded) refl,
      λ a. same (a * 256 + (x * 16 + y)) ∙ rw (p, q) (ap (λ n. digits_value n s) (omega arith)),
    )

emit_hex-IsHexDigit :
    (f n : ℕ) (out : Text) → All IsHexDigit out → All IsHexDigit (emit_hex f n out)
unfolding emit_hex
emit_hex-IsHexDigit zero n out h = h
emit_hex-IsHexDigit (suc f) n out h = elim (Bool-cases (n == 0)) [
  | inl e ↦ rw e h
  | inr e ↦
      rw e
        (emit_hex-IsHexDigit f (n / 16) _ ((n % 16, hex_value-hex_digit (n % 16) (omega arith)), h))
]

pub hex_number-IsHexDigit : (n : ℕ) → All IsHexDigit (hex_number n)
unfolding hex_number
hex_number-IsHexDigit n = elim (Bool-cases (n == 0)) [
  | inl e ↦ rw e ((0, refl), tt)
  | inr e ↦ rw e (emit_hex-IsHexDigit n n [] tt)
]

digits_value-emit_hex :
    (f n : ℕ) (out : Text) → n ≤ f → digits_value 0 (emit_hex f n out) ≡ digits_value n out
unfolding emit_hex digits_value
digits_value-emit_hex zero n out h = ground arith
digits_value-emit_hex (suc f) n out h = elim (Bool-cases (n == 0)) [
  | inl e ↦ rw e (ground arith)
  | inr e ↦ rw e (
      digits_value-emit_hex f (n / 16) (hex_digit (n % 16) ∷ out) (ground arith)
      ∙ rw (hex_value-hex_digit (n % 16) (omega arith))
          (ap (λ k. digits_value k out) (omega arith)))
]

pub digits_value-hex_number : (n : ℕ) → digits_value 0 (hex_number n) ≡ n
unfolding hex_number digits_value
digits_value-hex_number n = elim (Bool-cases (n == 0)) [
  | inl e ↦ rw e (ground arith)
  | inr e ↦ rw e (digits_value-emit_hex n n [] (omega arith))
]

length-emit_hex : (f n : ℕ) (out : Text) → length out ≤ length (emit_hex f n out)
unfolding emit_hex
length-emit_hex zero n out = omega arith
length-emit_hex (suc f) n out = elim (Bool-cases (n == 0)) [
  | inl e ↦ rw e (omega arith)
  | inr e ↦ rw e (omega (arith, length-emit_hex f (n / 16) (hex_digit (n % 16) ∷ out)))
]

pub length-hex_number : (n : ℕ) → 0 < length (hex_number n)
unfolding hex_number emit_hex
length-hex_number zero = omega arith
length-hex_number (suc n) =
    let some_digit : (suc n == 0) ≡ false = ground arith in
    rw (some_digit, hex_number)
      (omega (arith, length-emit_hex n (suc n / 16) (hex_digit (suc n % 16) ∷ [])))

digits_value_grows : (a : ℕ) (s : Text) → a ≤ digits_value a s
unfolding digits_value
digits_value_grows a [] = omega arith
digits_value_grows a (c ∷ s) = omega (arith, digits_value_grows (a * 16 + digit_of (hex_value c)) s)

-- The digits of a number that the type can hold are read as that number.
pub parse_digits-ok :
    (max a : ℕ) (s : Text)
    → All IsHexDigit s
    → digits_value a s ≤ max
    → parse_digits max a s ≡ (digits_value a s, none)
unfolding parse_digits digits_value
parse_digits-ok max a [] h e = refl
parse_digits-ok max a (c ∷ s) ((d, p), h) e =
    let bound : digits_value (a * 16 + d) s ≤ max = rw p at e in
    let fits : ltb max (a * 16 + d) ≡ false = ground (arith, digits_value_grows (a * 16 + d) s) in
    rw (p, parse_digits) (rw (fits, parse_digits) (parse_digits-ok max (a * 16 + d) s h bound))

-- The digits of a number that is too large for the type are refused.
pub parse_digits_over :
    (max a : ℕ) (s : Text)
    → All IsHexDigit s
    → a ≤ max
    → max < digits_value a s
    → parse_digits max a s ≡ (max, some number_out_of_range)
unfolding parse_digits digits_value
parse_digits_over max a [] h e k = absurd (omega arith)
parse_digits_over max a (c ∷ s) ((d, p), h) e k = elim (Bool-cases (ltb max (a * 16 + d))) [
  | inl t ↦ rw (p, parse_digits) (rw (t, parse_digits) refl)
  | inr t ↦
      rw (p, parse_digits)
        (rw (t, parse_digits) (parse_digits_over max (a * 16 + d) s h (ground arith) (rw p at k)))
]
