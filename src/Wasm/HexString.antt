-- ===== src/Wasm/HexString.antt =====
-- utils/hexstr/hexstr.go: hexadecimal texts with a prefix.
use centralized_relay.Common.{
  [], ◌∷◌, ◌++◌, Option, some, Text, has_prefix, if◌then◌else◌, hex_prefix, drop, hex_encode,
  hex_decode, hex_decode-hex_encode, IsByte, All, ◌≡◌,
}

unfoldable pub new_from_string : Text → Text
new_from_string s = if has_prefix hex_prefix s then s else hex_prefix ++ s

unfoldable pub new_from_byte : Text → Text
new_from_byte b = hex_prefix ++ hex_encode b

unfoldable pub to_byte : Text → Option Text
to_byte [] = some []
to_byte (c ∷ s) = hex_decode (if has_prefix hex_prefix (c ∷ s) then drop 2 (c ∷ s) else c ∷ s)

-- Bytes are read back from their text, and from a text that was made of it again.
to_byte-new_from_byte :
    (b : Text)
    → All IsByte b
    → (to_byte (new_from_byte b) ≡ some b) × (to_byte (new_from_string (new_from_byte b)) ≡ some b)
unfolding to_byte new_from_byte new_from_string has_prefix
to_byte-new_from_byte b h = (hex_decode-hex_encode b h, hex_decode-hex_encode b h)
