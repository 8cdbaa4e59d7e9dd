-- ===== src/Icon/Types.antt =====
-- The hexadecimal types of relayer/chains/icon/types/types.go.
pub mod Laws
use centralized_relay.Common.{
  ℕ, zero, suc, ◌+◌, ◌*◌, ◌%◌, List, [], ◌∷◌, ◌++◌, Option, none, some, Bool, true, false, Text,
  codes, text_eq, has_prefix, take, length, ℤ, pos, Result, Error, ok, err, Run, returns, fails,
  panics, ◌==◌, if◌then◌else◌, neg, hex_prefix, drop, hex_encode, hex_decode, hex_value,
  bytes_value, format_hex, parse_hex, invalid_hex, invalid_prefix, invalid_length,
}

-- `HexBytes.Value`: a text of one byte has no `[2:]`.
unfoldable pub hex_bytes_value : Text → Run Text
hex_bytes_value [] = returns []
hex_bytes_value (c ∷ []) = panics
hex_bytes_value (c ∷ d ∷ s) = elim (hex_decode s) [ some b ↦ returns b | none ↦ fails invalid_hex ]

unfoldable pub new_hex_bytes : Text → Text
new_hex_bytes b = hex_prefix ++ hex_encode b

-- `strings.TrimPrefix(s, "0x")`
abbrev pub trim_prefix : Text → Text
trim_prefix s = if has_prefix hex_prefix s then drop 2 s else s

-- `HexInt.Value` and `HexInt.Int64`: the value, and the error. The second reads 32 bits only.
unfoldable pub hex_int_value : Text → ℤ × Option Error
hex_int_value s = parse_hex 63 (trim_prefix s)

unfoldable pub hex_int64 : Text → ℤ × Option Error
hex_int64 s = parse_hex 31 (trim_prefix s)

unfoldable pub new_hex_int : ℤ → Text
new_hex_int v = hex_prefix ++ format_hex v

-- `decodeHexNumber` without the sign.
unfoldable pub strip_prefix : Text → Text
strip_prefix (c ∷ d ∷ e ∷ s) = if text_eq (c ∷ d ∷ []) hex_prefix then e ∷ s else c ∷ d ∷ e ∷ s
strip_prefix s = s

unfoldable pub pad : Text → Text
pad s = if length s % 2 == 1 then b'0' ∷ s else s

unfoldable pub decode_unsigned : Text → Option Text
unfolding strip_prefix pad
decode_unsigned s = hex_decode (pad (strip_prefix s))

unfoldable pub decode_hex_number : Text → Bool × Option Text
unfolding decode_unsigned
decode_hex_number [] = (false, decode_unsigned [])
decode_hex_number (c ∷ s) =
    if c == b'-' then (true, decode_unsigned s) else (false, decode_unsigned (c ∷ s))

-- `ParseBigInt` and `HexInt.BigInt`
abbrev pub signed : Bool × Option Text → Result ℤ
signed (negative, none) = err invalid_hex
signed (true, some bs) = ok (neg (bytes_value 0 bs))
signed (false, some bs) = ok (pos (bytes_value 0 bs))

unfoldable pub big_int : Text → Result ℤ
unfolding decode_hex_number
big_int s = signed (decode_hex_number s)

-- `hex.Decode` into `room` bytes: a byte too many is written out of range. The result is what was
-- written.
unfoldable pub decode_into : ℕ → Text → Run Text
decode_into room [] = returns []
decode_into room (c ∷ []) = fails invalid_hex
decode_into zero (c ∷ d ∷ s) = elim (hex_value c) [
  | none ↦ fails invalid_hex
  | some a ↦ elim (hex_value d) [ none ↦ fails invalid_hex | some b ↦ panics ]
]
decode_into (suc room) (c ∷ d ∷ s) =
    let rest = decode_into room s in
    elim (hex_value c) [
      | none ↦ fails invalid_hex
      | some a ↦ elim (hex_value d) [
        | none ↦ fails invalid_hex
        | some b ↦ elim rest [
          | returns t ↦ returns ((a * 16 + b) ∷ t)
          | fails e ↦ fails e
          | panics ↦ panics
        ]
      ]
    ]

-- What `Address.Value` returns after the digits were decoded.
abbrev pub address_bytes : ℕ → Run Text → Run Text
address_bytes kind (returns b) =
    if length b == 20 then returns (kind ∷ b) else fails (invalid_length (length b))
address_bytes kind (fails e) = fails e
address_bytes kind panics = panics

unfoldable pub address_value : Text → Run Text
unfolding decode_into
address_value [] = panics
address_value (c ∷ []) = panics
address_value (c ∷ d ∷ s) =
    if text_eq (c ∷ d ∷ []) (codes "cx")
    then address_bytes 1 (decode_into 20 s)
    else if text_eq (c ∷ d ∷ []) (codes "hx")
    then address_bytes 0 (decode_into 20 s)
    else fails invalid_prefix

unfoldable pub new_address : Text → Text
new_address [] = []
new_address (kind ∷ b) =
    if length b == 20
    then (if kind == 1
        then codes "cx" ++ hex_encode b
        else if kind == 0
        then codes "hx" ++ hex_encode b
        else [])
    else []
