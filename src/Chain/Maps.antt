-- ===== src/Chain/Maps.antt =====
-- Assignments to a Go map that relayer/chain.go and its clients fill in a loop.
use centralized_relay.Common.{
  refl, sym, ap, subst, [], ◌∷◌, Text, text_eq, text_eq_sound, All, In, inl, inr, Bool-cases,
}
use centralized_relay.Types.Contracts.{TextMap}
use centralized_relay.Chain.{put}

pub All-put :
    {V : Type 0} (P : Text × V → Type 0) (k : Text) (v : V) (m : TextMap V)
    → All P m
    → P (k, v)
    → All P (put k v m)
unfolding put
All-put P k v [] h p = (p, tt)
All-put P k v ((j, w) ∷ m) h p = elim (Bool-cases (text_eq j k)) [
  | inl e ↦ rw e (subst (λ i. P (i, v)) (sym (text_eq_sound j k e)) p, h.1)
  | inr e ↦ rw e (h.0, All-put P k v m h.1 p)
]

-- The map has a value under the key.
abbrev pub HasKey : {V : Type 0} → Text → TextMap V → Type 0
HasKey {V = V} k m = (v : V) × In (k, v) m

HasKey-cons : {V : Type 0} (k : Text) (e : Text × V) (m : TextMap V) → HasKey k m → HasKey k (e ∷ m)
HasKey-cons k e m (v, i) = (v, inr i)

pub put-HasKey : {V : Type 0} (k : Text) (v : V) (m : TextMap V) → HasKey k (put k v m)
unfolding put
put-HasKey k v [] = (v, inl refl)
put-HasKey k v ((j, w) ∷ m) = elim (Bool-cases (text_eq j k)) [
  | inl e ↦ rw e (v, inl (ap (λ i. (i, v)) (text_eq_sound j k e)))
  | inr e ↦ rw e (HasKey-cons k (j, w) (put k v m) (put-HasKey k v m))
]

pub put-HasKey_old :
    {V : Type 0} (i k : Text) (v : V) (m : TextMap V) → HasKey i m → HasKey i (put k v m)
unfolding put
put-HasKey_old i k v [] (u, h) = absurd h
put-HasKey_old i k v ((j, w) ∷ m) (u, inl same) = elim (Bool-cases (text_eq j k)) [
  | inl e ↦ rw e (v, inl (ap (λ x. (x.0, v)) same))
  | inr e ↦ rw e (u, inl same)
]
put-HasKey_old i k v ((j, w) ∷ m) (u, inr h) = elim (Bool-cases (text_eq j k)) [
  | inl e ↦ rw e (u, inr h)
  | inr e ↦ rw e (HasKey-cons i (j, w) (put k v m) (put-HasKey_old i k v m (u, h)))
]
