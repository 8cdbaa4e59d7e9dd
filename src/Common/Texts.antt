-- ===== src/Common/Texts.antt =====
-- Go strings and byte slices as lists of byte values: equality, prefixes and `strings.Join`.
use Prim.Native.Nat.{ℕ}
use Prim.Native.Char.{code}
use Prim.Native.String.{String}
use mathlib.Core.Path.{◌≡◌, refl, ap, ap₂, ◌∙◌}
use mathlib.Core.Logic.{◌↔◌, ◌≢◌}
use mathlib.Core.Bool.{Bool, true, false, ◌&&◌}
use mathlib.Core.List.{List, [], ◌∷◌, ◌++◌}
use native.Mathlib.Omega.{arith}
use centralized_relay.Common.Tests.{◌==◌}

abbrev pub Text : Type 0
Text = List ℕ

-- The bytes of an ASCII literal.
abbrev pub codes : String → Text
codes String.[] = []
codes (String.◌∷◌ c s) = code c ∷ codes s

unfoldable pub text_eq : Text → Text → Bool
text_eq [] [] = true
text_eq [] (y ∷ ys) = false
text_eq (x ∷ xs) [] = false
text_eq (x ∷ xs) (y ∷ ys) = x == y && text_eq xs ys

pub text_eq_refl : (s : Text) → text_eq s s ≡ true
unfolding text_eq
text_eq_refl [] = refl
text_eq_refl (x ∷ xs) = ground (arith, text_eq_refl xs)

pub text_eq_sound : (s t : Text) → text_eq s t ≡ true → s ≡ t
unfolding text_eq
text_eq_sound [] [] h = refl
text_eq_sound [] (y ∷ ys) h = ground arith
text_eq_sound (x ∷ xs) [] h = ground arith
text_eq_sound (x ∷ xs) (y ∷ ys) h = ground (arith, text_eq_sound xs ys)

pub text_eq_iff : (s t : Text) → (text_eq s t ≡ true) ↔ (s ≡ t)
text_eq_iff s t =
    (text_eq_sound s t, λ e. mathlib.Core.Path.subst (λ u. text_eq s u ≡ true) e (text_eq_refl s))

-- Whether the first text is a prefix of the second (the keys that a LevelDB prefix range holds).
unfoldable pub has_prefix : Text → Text → Bool
has_prefix [] t = true
has_prefix (x ∷ xs) [] = false
has_prefix (x ∷ xs) (y ∷ ys) = x == y && has_prefix xs ys

pub has_prefix-append : (s t : Text) → has_prefix s (s ++ t) ≡ true
unfolding has_prefix
has_prefix-append [] t = refl
has_prefix-append (x ∷ xs) t = ground (arith, has_prefix-append xs t)

-- `strings.Join(keys, "-")`
unfoldable pub join : List Text → Text
join [] = []
join (k ∷ []) = k
join (k ∷ l ∷ ks) = k ++ (b'-' ∷ join (l ∷ ks))

pub text_ne : (s t : Text) → text_eq s t ≡ false → s ≢ t
text_ne s t h e = apart (mathlib.Core.Path.sym h ∙ text_eq_of s t e)
  where
    text_eq_of : (s t : Text) → s ≡ t → text_eq s t ≡ true
    text_eq_of s t e = mathlib.Core.Path.subst (λ u. text_eq s u ≡ true) e (text_eq_refl s)

    apart : false ≡ true → ⊥
    apart g = cc
