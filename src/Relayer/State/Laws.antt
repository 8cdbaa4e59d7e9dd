-- ===== src/Relayer/State/Laws.antt =====
-- How the steps of relayer/relay.go change the caches of the chains.
use mathlib.Core.Option
use centralized_relay.Common.{
  ℕ, ◌≡◌, ap, [], ◌∷◌, Option, none, some, Text, text_eq, text_eq_iff, if◌then◌else◌, Bool-cases,
  Option-cases, inl, inr, arith,
}
use centralized_relay.Types.Message.{MessageKey, RouteMessage, message_key, key_eq}
use centralized_relay.Types.Contracts.{TextMap, lookup}
use centralized_relay.Types.Cache
use centralized_relay.Types.Cache.Laws.{get-add, get-remove}
use centralized_relay.Runtime.{ChainRuntime}
use centralized_relay.Relayer.State.{State, update_chain, modify_object, add_message, cached_in}

-- What is read through a pointer after a write through the same pointer.
pub heap-modify_object :
    {D : Type 0} (p : ℕ) (f : RouteMessage → RouteMessage) (s : State D)
    → (modify_object p f s).heap p ≡ f (s.heap p)
unfolding modify_object
heap-modify_object p f s = ground arith

-- The runtime under `j` after the change of the one under `nid`.
pub lookup-update_chain :
    (nid j : Text) (f : ChainRuntime → ChainRuntime) (cs : TextMap ChainRuntime)
    → lookup j (update_chain nid f cs)
      ≡ (if text_eq nid j then Option.map f (lookup j cs) else lookup j cs)
unfolding lookup update_chain
lookup-update_chain nid j f [] = ground arith
lookup-update_chain nid j f ((i, c) ∷ cs) =
    ground
      (arith, text_eq_iff nid j, text_eq_iff i nid, text_eq_iff i j, lookup-update_chain nid j f cs)

-- A change of one cache, seen at one key: `g` is what the change does to what `Get` returns.
cached_in-update_chain :
    (nid src : Text) (key : MessageKey) (f : ChainRuntime → ChainRuntime) (g : Option ℕ → Option ℕ)
    (cs : TextMap ChainRuntime)
    → ((c : ChainRuntime) → Cache.get key (f c).message_cache ≡ g (Cache.get key c.message_cache))
    → g none ≡ none
    → cached_in src key (update_chain nid f cs)
      ≡ (if text_eq nid src then g (cached_in src key cs) else cached_in src key cs)
cached_in-update_chain nid src key f g cs change absent = elim (Option-cases (lookup src cs)) [
  | inl e ↦ ground (arith, lookup-update_chain nid src f cs)
  | inr (c, e) ↦ ground (arith, lookup-update_chain nid src f cs, change c)
]

-- After the removal of a key from the cache of a chain it is not there, and all other keys and
-- chains are as before.
pub cached_in-removed :
    (nid src : Text) (k key : MessageKey) (cs : TextMap ChainRuntime)
    → cached_in src key
        (update_chain nid (λ c. record c { message_cache = Cache.remove k c.message_cache }) cs)
      ≡ (if text_eq nid src
          then (if key_eq k key then none else cached_in src key cs)
          else cached_in src key cs)
cached_in-removed nid src k key cs =
    cached_in-update_chain nid src key _ (λ o. if key_eq k key then none else o) cs
      (λ c. get-remove k key c.message_cache) (ground arith)

-- The cache of a known chain after a new message: the new pointer under the message's key, and
-- what was there before under all other keys and in all other chains.
pub cached_in-added :
    (nid src : Text) (key : MessageKey) (r : RouteMessage) {D : Type 0} (s : State D)
    (c : ChainRuntime)
    → lookup nid s.chains ≡ some c
    → cached_in src key (add_message nid r s).chains ≡ (
        if text_eq nid src
        then (if key_eq (message_key r.message) key
            then some s.next
            else cached_in src key s.chains)
        else cached_in src key s.chains)
unfolding add_message
cached_in-added nid src key r s c known = elim (Bool-cases (text_eq nid src)) [
  | inl e ↦
      let same : nid ≡ src = (text_eq_iff nid src).0 e in
      ground (
        arith,
        lookup-update_chain nid src
            (λ (x : ChainRuntime). record x {
              message_cache = Cache.add (message_key r.message) s.next x.message_cache;
            })
            s.chains,
        get-add (message_key r.message) key s.next c.message_cache,
        ap (λ (n : Text). lookup n s.chains) same,
      )
  | inr e ↦ ground (
    arith,
    lookup-update_chain nid src
        (λ (x : ChainRuntime). record x {
          message_cache = Cache.add (message_key r.message) s.next x.message_cache;
        })
        s.chains,
  )
]
