-- ===== src/Store/Keys.antt =====
-- `GetKey` of relayer/store/common.go and the keys that the stores make with it.
use centralized_relay.Common.{
  ℕ, ◌≡◌, refl, List, [], ◌∷◌, ◌++◌, Text, join, ℤ, pos, int_string, decimal_injective, decimal,
  decimal-IsDigit, IsDigit, All, arith,
}

unfoldable pub get_key : List Text → Text
unfolding join
get_key keys = join keys

-- The key of the message `sn` of chain `nid` under a prefix.
abbrev pub entry_key : Text → Text → ℤ → Text
entry_key prefix nid sn = get_key (prefix ∷ nid ∷ int_string sn ∷ [])

abbrev pub chain_key : Text → Text → Text
chain_key prefix nid = get_key (prefix ∷ nid ∷ [])

-- `xs ++ "-" ++ ds` splits at its last dash in one way only.
digits_have_no_dash : (xs ds es : Text) → All IsDigit ds → ds ≡ xs ++ (b'-' ∷ es) → ⊥
digits_have_no_dash [] [] es h e = cc
digits_have_no_dash [] (d ∷ ds) es h e = ground (arith, h.0)
digits_have_no_dash (x ∷ xs) [] es h e = cc
digits_have_no_dash (x ∷ xs) (d ∷ ds) es h e = digits_have_no_dash xs ds es h.1 (cc)

split_last :
    (xs ys ds es : Text)
    → All IsDigit ds
    → All IsDigit es
    → xs ++ (b'-' ∷ ds) ≡ ys ++ (b'-' ∷ es)
    → (xs ≡ ys) × (ds ≡ es)
split_last [] [] ds es h k e = (refl, cc)
split_last [] (y ∷ ys) ds es h k e = absurd (digits_have_no_dash ys ds es h (cc))
split_last (x ∷ xs) [] ds es h k e = absurd (digits_have_no_dash xs es ds k (cc))
split_last (x ∷ xs) (y ∷ ys) ds es h k e = let (p, q) = split_last xs ys ds es h k (cc) in (cc, q)

cancel_prefix : (p xs ys : Text) → p ++ xs ≡ p ++ ys → xs ≡ ys
cancel_prefix [] xs ys e = e
cancel_prefix (c ∷ p) xs ys e = cancel_prefix p xs ys (cc)

-- Under one prefix, two chains and two serial numbers that are not negative have the same key only
-- if they are the same, whatever dashes the chains' names have.
pub entry_key_injective :
    (prefix a b : Text) (m n : ℕ)
    → entry_key prefix a (pos m) ≡ entry_key prefix b (pos n)
    → (a ≡ b) × (m ≡ n)
unfolding get_key int_string
entry_key_injective prefix a b m n e =
    let (p, q) =
      split_last a b (decimal m) (decimal n) (decimal-IsDigit m) (decimal-IsDigit n)
        (cc (cancel_prefix prefix _ _ e)) in
    (p, decimal_injective m n q)
