-- ===== src/Common/Hex.antt =====
-- Hexadecimal texts: `encoding/hex`, and `strconv.FormatInt` and `ParseInt` with base 16.
pub mod Laws
use Prim.Native.Nat.{ℕ, zero, suc, ◌+◌, ◌-◌, ◌*◌, ◌/◌, ◌%◌, ◌^◌}
use mathlib.Core.Bool.{Bool, ◌&&◌}
use mathlib.Core.Option.{Option, none, some}
use mathlib.Core.List.{List, [], ◌∷◌}
use centralized_relay.Common.Tests.{ltb, leb, ◌==◌, if◌then◌else◌}
use centralized_relay.Common.Texts.{Text}
use centralized_relay.Common.Decimal.{ℤ, pos, negsuc}
use centralized_relay.Common.Integers.{neg}
use centralized_relay.Common.Results.{Error, invalid_number, number_out_of_range}

abbrev pub hex_prefix : Text
hex_prefix = b'0' ∷ b'x' ∷ []

abbrev pub hex_digit : ℕ → ℕ
hex_digit d = if ltb d 10 then b'0' + d else b'a' + (d - 10)

abbrev pub hex_value : ℕ → Option ℕ
hex_value c =
    if leb b'0' c && leb c b'9'
    then some (c - b'0')
    else if leb b'a' c && leb c b'f'
    then some (c - b'a' + 10)
    else if leb b'A' c && leb c b'F'
    then some (c - b'A' + 10)
    else none

-- `hex.EncodeToString`
unfoldable pub hex_encode : Text → Text
hex_encode [] = []
hex_encode (b ∷ s) = hex_digit (b / 16) ∷ hex_digit (b % 16) ∷ hex_encode s

-- One byte before the rest of what is decoded.
abbrev pub join_byte : Option ℕ → Option ℕ → Option Text → Option Text
join_byte (some a) (some b) (some s) = some ((a * 16 + b) ∷ s)
join_byte _ _ _ = none

-- `hex.DecodeString`
unfoldable pub hex_decode : Text → Option Text
hex_decode [] = some []
hex_decode (c ∷ []) = none
hex_decode (c ∷ d ∷ s) = join_byte (hex_value c) (hex_value d) (hex_decode s)

-- `big.Int.SetBytes`, after the number `a`.
unfoldable pub bytes_value : ℕ → Text → ℕ
bytes_value a [] = a
bytes_value a (b ∷ s) = bytes_value (a * 256 + b) s

-- The digits of `n` before `out`; each round divides by 16, so `n` rounds are enough.
unfoldable pub emit_hex : ℕ → ℕ → Text → Text
emit_hex zero n out = out
emit_hex (suc f) n out =
    let rest = emit_hex f (n / 16) (hex_digit (n % 16) ∷ out) in if n == 0 then out else rest

unfoldable pub hex_number : ℕ → Text
unfolding emit_hex
hex_number n = if n == 0 then b'0' ∷ [] else emit_hex n n []

-- `strconv.FormatInt(v, 16)`
unfoldable pub format_hex : ℤ → Text
unfolding hex_number
format_hex (pos n) = hex_number n
format_hex (negsuc n) = b'-' ∷ hex_number (suc n)

-- The loop of `strconv.ParseUint` with base 16, for a type whose greatest value is `max`: the value,
-- and the error. (Its test for a product that leaves uint64 is part of the comparison with `max`.)
unfoldable pub parse_digits : ℕ → ℕ → Text → ℕ × Option Error
parse_digits max n [] = (n, none)
parse_digits max n (c ∷ s) = elim (hex_value c) [
  | none ↦ (0, some invalid_number)
  | some d ↦
      let rest = parse_digits max (n * 16 + d) s in
      if ltb max (n * 16 + d) then (max, some number_out_of_range) else rest
]

unfoldable pub parse_uint : ℕ → Text → ℕ × Option Error
unfolding parse_digits
parse_uint max [] = (0, some invalid_number)
parse_uint max (c ∷ s) = parse_digits max 0 (c ∷ s)

abbrev pub parsed_positive : ℕ → ℕ × Option Error → ℤ × Option Error
parsed_positive bits (n, some invalid_number) = (pos 0, some invalid_number)
parsed_positive bits (n, e) =
    if leb (2 ^ bits) n then (pos (2 ^ bits - 1), some number_out_of_range) else (pos n, none)

abbrev pub parsed_negative : ℕ → ℕ × Option Error → ℤ × Option Error
parsed_negative bits (n, some invalid_number) = (pos 0, some invalid_number)
parsed_negative bits (n, e) =
    if ltb (2 ^ bits) n then (neg (2 ^ bits), some number_out_of_range) else (neg n, none)

-- `strconv.ParseInt(s, 16, bits + 1)`: on an error the value is 0 or the nearest one of the type.
unfoldable pub parse_hex : ℕ → Text → ℤ × Option Error
unfolding parse_uint
parse_hex bits [] = (pos 0, some invalid_number)
parse_hex bits (c ∷ s) =
    if c == b'-'
    then parsed_negative bits (parse_uint (2 ^ (bits + 1) - 1) s)
    else if c == b'+'
    then parsed_positive bits (parse_uint (2 ^ (bits + 1) - 1) s)
    else parsed_positive bits (parse_uint (2 ^ (bits + 1) - 1) (c ∷ s))
