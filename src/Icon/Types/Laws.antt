-- ===== src/Icon/Types/Laws.antt =====
-- Texts and values of the hexadecimal types of relayer/chains/icon/types/types.go.
use centralized_relay.Common.{
  ℕ, zero, suc, ◌+◌, ◌-◌, ◌/◌, ◌%◌, ◌^◌, ◌≤◌, ◌<◌, ◌≡◌, refl, sym, ap, subst, ◌∙◌, [], ◌∷◌, none,
  some, true, false, Text, text_eq, ℤ, pos, negsuc, Result, ok, err, returns, All, length, ◌==◌,
  leb, ltb, ◌⊎◌, inl, inr, Bool-cases, arith, IsInt64, has_prefix, hex_encode, hex_decode,
  bytes_value, hex_number, parse_hex, parse_uint, format_hex, parsed_positive, invalid_hex,
  number_out_of_range, IsByte, IsHexDigit, hex_decode-hex_encode, hex_decode_value,
  hex_number-IsHexDigit, digits_value, digits_value-hex_number, length-hex_number, parse_digits-ok,
  parse_digits_over, hex_value-hex_digit,
}
use centralized_relay.Icon.Types.{
  hex_bytes_value, new_hex_bytes, hex_int_value, hex_int64, new_hex_int, strip_prefix, pad,
  decode_unsigned, decode_hex_number, big_int, decode_into, address_value, new_address,
}

pub hex_bytes_value-new_hex_bytes :
    (b : Text) → All IsByte b → hex_bytes_value (new_hex_bytes b) ≡ returns b
unfolding hex_bytes_value new_hex_bytes
hex_bytes_value-new_hex_bytes b h = rw (hex_decode-hex_encode b h, hex_bytes_value) refl

pad_value :
    (s : Text)
    → All IsHexDigit s
    → (bs : Text) × (hex_decode (pad s) ≡ some bs) × (bytes_value 0 bs ≡ digits_value 0 s)
unfolding pad digits_value
pad_value s h = elim (Bool-cases (length s % 2 == 1)) [
  | inl e ↦
      let (bs, p, q) = hex_decode_value (b'0' ∷ s) ((0, refl), h) (ground arith) in
      (bs, rw (e, pad) p, q 0)
  | inr e ↦ let (bs, p, q) = hex_decode_value s h (ground arith) in (bs, rw (e, pad) p, q 0)
]

strip_some : (s : Text) → 0 < length s → strip_prefix (b'0' ∷ b'x' ∷ s) ≡ s
unfolding strip_prefix text_eq
strip_some [] h = absurd (omega arith)
strip_some (c ∷ s) h = refl

big_int_pos : (n : ℕ) → big_int (new_hex_int (pos n)) ≡ ok (pos n)
unfolding big_int new_hex_int format_hex decode_hex_number decode_unsigned
big_int_pos n =
    let (bs, p, q) = pad_value (hex_number n) (hex_number-IsHexDigit n) in
    rw (strip_some (hex_number n) (length-hex_number n))
      (rw (p) (ap (λ k. ok (pos k)) (q ∙ digits_value-hex_number n)))

no_sign : (s : Text) → 0 < length s → hex_decode (pad (b'-' ∷ s)) ≡ none
unfolding pad hex_decode
no_sign [] h = absurd (omega arith)
no_sign (c ∷ s) h = elim (Bool-cases (length (b'-' ∷ c ∷ s) % 2 == 1)) [
  | inl e ↦ rw (e, pad) refl
  | inr e ↦ rw (e, pad) refl
]

big_int_negsuc : (n : ℕ) → big_int (new_hex_int (negsuc n)) ≡ err invalid_hex
unfolding big_int new_hex_int format_hex decode_hex_number decode_unsigned
big_int_negsuc n =
    rw (strip_some (b'-' ∷ hex_number (suc n)) (omega arith))
      (rw (no_sign (hex_number (suc n)) (length-hex_number (suc n))) refl)

-- What `BigInt` makes of the text of an integer.
abbrev pub reread : ℤ → Result ℤ
reread (pos n) = ok (pos n)
reread (negsuc n) = err invalid_hex

parse_uint_number : (max n : ℕ) → n ≤ max → parse_uint max (hex_number n) ≡ (n, none)
unfolding parse_uint
parse_uint_number max n h = split (hex_number n) refl
  where
    split : (s : Text) → hex_number n ≡ s → parse_uint max s ≡ (n, none)
    split [] e = absurd (omega (arith, length-hex_number n, ap length e))
    split (c ∷ s) e =
        let digits : All IsHexDigit (c ∷ s) = subst (All IsHexDigit) e (hex_number-IsHexDigit n) in
        let same : digits_value 0 (c ∷ s) ≡ n =
          ap (digits_value 0) (sym e) ∙ digits_value-hex_number n in
        parse_digits-ok max 0 (c ∷ s) digits (omega (arith, same)) ∙ ap (λ k. (k, none)) same

unsigned :
    (bits : ℕ) (s : Text)
    → 0 < length s
    → All IsHexDigit s
    → parse_hex bits s ≡ parsed_positive bits (parse_uint (2 ^ (bits + 1) - 1) s)
unfolding parse_hex
unsigned bits [] e h = absurd (omega arith)
unsigned bits (c ∷ s) e ((d, p), h) =
    let minus : (c == b'-') ≡ false = ground arith in
    let plus : (c == b'+') ≡ false = ground arith in rw (minus, plus, parse_hex) refl

hex_int_value_pos : (n : ℕ) → n < 2 ^ 63 → hex_int_value (new_hex_int (pos n)) ≡ (pos n, none)
unfolding hex_int_value new_hex_int format_hex has_prefix
hex_int_value_pos n h =
    let fits : leb (2 ^ 63) n ≡ false = ground arith in
    unsigned 63 (hex_number n) (length-hex_number n) (hex_number-IsHexDigit n)
    ∙ rw (parse_uint_number (2 ^ 64 - 1) n (omega arith)) (rw (fits) refl)

hex_int_value_negsuc :
    (n : ℕ) → n < 2 ^ 63 → hex_int_value (new_hex_int (negsuc n)) ≡ (negsuc n, none)
unfolding hex_int_value new_hex_int format_hex has_prefix parse_hex
hex_int_value_negsuc n h =
    let fits : ltb (2 ^ 63) (suc n) ≡ false = ground arith in
    rw (parse_uint_number (2 ^ 64 - 1) (suc n) (omega arith)) (rw (fits) refl)

-- The text of an integer that fits into an int64 is read back by `Value`, and `BigInt` reads back the
-- text of every integer that is not negative and refuses that of every negative one.
pub new_hex_int_read :
    (v : ℤ)
    → (IsInt64 v → hex_int_value (new_hex_int v) ≡ (v, none)) × (big_int (new_hex_int v) ≡ reread v)
new_hex_int_read (pos n) = (hex_int_value_pos n, big_int_pos n)
new_hex_int_read (negsuc n) = (hex_int_value_negsuc n, big_int_negsuc n)

parse_uint_over :
    (max n : ℕ) → max < n → parse_uint max (hex_number n) ≡ (max, some number_out_of_range)
unfolding parse_uint
parse_uint_over max n h = split (hex_number n) refl
  where
    split : (s : Text) → hex_number n ≡ s → parse_uint max s ≡ (max, some number_out_of_range)
    split [] e = absurd (omega (arith, length-hex_number n, ap length e))
    split (c ∷ s) e =
        let digits : All IsHexDigit (c ∷ s) = subst (All IsHexDigit) e (hex_number-IsHexDigit n) in
        let same : digits_value 0 (c ∷ s) ≡ n =
          ap (digits_value 0) (sym e) ∙ digits_value-hex_number n in
        parse_digits_over max 0 (c ∷ s) digits (omega arith) (omega (arith, same))

-- `Int64` refuses the text of every number from 2^31 on.
pub hex_int64_refuses :
    (n : ℕ)
    → 2 ^ 31 ≤ n
    → hex_int64 (new_hex_int (pos n)) ≡ (pos (2 ^ 31 - 1), some number_out_of_range)
unfolding hex_int64 new_hex_int format_hex has_prefix
hex_int64_refuses n low =
    unsigned 31 (hex_number n) (length-hex_number n) (hex_number-IsHexDigit n)
    ∙ elim (Bool-cases (ltb (2 ^ 32 - 1) n)) [
      | inl t ↦ rw (parse_uint_over (2 ^ 32 - 1) n (ground arith)) refl
      | inr t ↦
          let over : leb (2 ^ 31) n ≡ true = ground arith in
          rw (parse_uint_number (2 ^ 32 - 1) n (ground arith)) (rw (over) refl)
    ]

decode_into-hex_encode :
    (n : ℕ) (s : Text) → length s ≤ n → All IsByte s → decode_into n (hex_encode s) ≡ returns s
unfolding decode_into hex_encode
decode_into-hex_encode n [] e h = refl
decode_into-hex_encode zero (b ∷ s) e h = absurd (omega arith)
decode_into-hex_encode (suc n) (b ∷ s) e h =
    rw (hex_value-hex_digit (b / 16) (omega (arith, h.0)), decode_into)
      (rw (hex_value-hex_digit (b % 16) (omega arith), decode_into)
        (rw (decode_into-hex_encode n s (omega arith) h.1, decode_into)
          (ap (λ x. returns (x ∷ s)) (omega arith))))

-- The bytes of an address: 20 after a byte that tells a contract (1) from a wallet (0).
pub record IsAddress (b : Text) : Type 0 where
  pub kind : ℕ
  pub rest : Text
  pub made : b ≡ kind ∷ rest
  pub known : (kind ≡ 0) ⊎ (kind ≡ 1)
  pub twenty : length rest ≡ 20
  pub bytes : All IsByte rest

address_value_kind :
    (kind : ℕ) (s : Text)
    → (kind ≡ 0) ⊎ (kind ≡ 1)
    → length s ≡ 20
    → All IsByte s
    → address_value (new_address (kind ∷ s)) ≡ returns (kind ∷ s)
unfolding address_value new_address text_eq
address_value_kind kind s k e h =
    let whole : (length s == 20) ≡ true = ground arith in
    let back : decode_into 20 (hex_encode s) ≡ returns s =
      decode_into-hex_encode 20 s (omega arith) h in
    rw (whole, new_address)
      (elim k [
        | inl p ↦ rw (p) (rw (back) (rw (whole) refl))
        | inr p ↦ rw (p) (rw (back) (rw (whole) refl))
      ])

-- The text of the bytes of an address is read back as those bytes.
address_value-new_address : (b : Text) → IsAddress b → address_value (new_address b) ≡ returns b
address_value-new_address b h =
    subst (λ x. address_value (new_address x) ≡ returns x) (sym h.made)
      (address_value_kind h.kind h.rest h.known h.twenty h.bytes)
