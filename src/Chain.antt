-- ===== src/Chain.antt =====
-- relayer/chain.go: the configured chains, by their names.
pub mod Maps
use centralized_relay.Common.{
  ◌≡◌, ◌≢◌, refl, Bool, [], ◌∷◌, some, Text, text_eq, text_eq_iff, Result, ok, err,
  chain_not_configured, if◌then◌else◌, arith, In, inl, inr, ap, All, Bool-cases,
}
use centralized_relay.Provider.{Provider}
use centralized_relay.Types.Contracts.{TextMap, lookup}

pub record Chain : Type 0 where
  pub chain_provider : Provider
  pub debug : Bool

unfoldable pub new_chain : Provider → Bool → Chain
new_chain p debug = record { chain_provider = p; debug = debug }

unfoldable pub chain_nid : Chain → Text
chain_nid c = c.chain_provider.nid

-- `Chains`: a map from chain names; the list is one order in which `range` may visit it.
abbrev pub Chains : Type 0
Chains = TextMap Chain

unfoldable pub get : Text → Chains → Result Chain
get nid [] = err (chain_not_configured nid)
get nid ((name, chain) ∷ rest) =
    if text_eq nid chain.chain_provider.nid then ok chain else get nid rest

-- `m[k] = v`
unfoldable pub put : {V : Type 0} → Text → V → TextMap V → TextMap V
put k v [] = (k, v) ∷ []
put k v ((j, w) ∷ m) = if text_eq j k then (j, v) ∷ m else (j, w) ∷ put k v m

unfoldable pub get_all_onto : TextMap Chain → Chains → TextMap Chain
unfolding put chain_nid
get_all_onto out [] = out
get_all_onto out ((name, chain) ∷ rest) = get_all_onto (put (chain_nid chain) chain out) rest

unfoldable pub get_all : Chains → TextMap Chain
unfolding get_all_onto
get_all c = get_all_onto [] c

-- What a map holds after an assignment: the new value at its key and the old ones elsewhere.
pub lookup-put :
    {V : Type 0} (k j : Text) (v : V) (m : TextMap V)
    → lookup j (put k v m) ≡ (if text_eq k j then some v else lookup j m)
unfolding put lookup
lookup-put k j v [] = refl
lookup-put k j v ((i, w) ∷ m) =
    ground (arith, text_eq_iff i k, text_eq_iff i j, text_eq_iff k j, lookup-put k j v m)

get-ok :
    (nid : Text) (c : Chains) (chain : Chain)
    → get nid c ≡ ok chain
    → (chain_nid chain ≡ nid) × ((name : Text) × In (name, chain) c)
unfolding get chain_nid
get-ok nid [] chain e = cc
get-ok nid ((name, x) ∷ rest) chain e = elim (Bool-cases (text_eq nid x.chain_provider.nid)) [
  | inl t ↦
      let same : x ≡ chain = ground arith in
      (ground (arith, text_eq_iff nid x.chain_provider.nid), (name, inl (ap (λ y. (name, y)) same)))
  | inr f ↦ let (n, (m, i)) = get-ok nid rest chain (ground arith) in (n, (m, inr i))
]

get-err :
    (nid : Text) (c : Chains)
    → get nid c ≡ err (chain_not_configured nid)
    → All (λ p. chain_nid p.1 ≢ nid) c
unfolding get chain_nid
get-err nid [] e = tt
get-err nid ((name, x) ∷ rest) e = elim (Bool-cases (text_eq nid x.chain_provider.nid)) [
  | inl t ↦ absurd (ground arith)
  | inr f ↦ (ground (arith, text_eq_iff nid x.chain_provider.nid), get-err nid rest (ground arith))
]

-- A chain that `Get` returns is configured and has the network id that was asked for, and when
-- `Get` fails no configured chain has it.
pub get_found :
    (nid : Text) (c : Chains)
    → ((chain : Chain)
        → get nid c ≡ ok chain
        → (chain_nid chain ≡ nid) × ((name : Text) × In (name, chain) c))
      × (get nid c ≡ err (chain_not_configured nid) → All (λ p. chain_nid p.1 ≢ nid) c)
get_found nid c = (get-ok nid c, get-err nid c)
