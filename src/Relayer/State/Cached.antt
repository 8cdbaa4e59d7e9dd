-- ===== src/Relayer/State/Cached.antt =====
-- What a cache of relayer/relay.go holds after a message was added.
use centralized_relay.Common.{
  ℕ, ◌<◌, ◌≡◌, ◌∙◌, subst, true, List, [], ◌∷◌, some, Text, text_eq_refl, Bool-cases, inl, inr, In,
  arith,
}
use centralized_relay.Types.Message.{MessageKey, RouteMessage, message_key, key_eq}
use centralized_relay.Types.Contracts.{lookup}
use centralized_relay.Types.Cache.Laws.{key_eq_refl}
use centralized_relay.Runtime.{ChainRuntime}
use centralized_relay.Relayer.State.{State, add_message, add_messages, cached_in, cache_pointer}
use centralized_relay.Relayer.State.Laws.{cached_in-added, lookup-update_chain}

module _ {D : Type 0} (src : Text) where
  -- The cache of `src` has an object in use for the key, and that object's message has this key.
  pub record IsCached (key : MessageKey) (s : State D) : Type 0 where
    pub object : ℕ
    pub found : cached_in src key s.chains ≡ some object
    pub used : object < s.next
    pub same_key : key_eq (message_key (s.heap object).message) key ≡ true

  abbrev pub IsKnown : State D → Type 0
  IsKnown s = (c : ChainRuntime) × (lookup src s.chains ≡ some c)

  pub add_message-IsKnown :
      (r : RouteMessage) (s : State D) → IsKnown s → IsKnown (add_message src r s)
  unfolding add_message
  add_message-IsKnown r s (c, k) = (
    cache_pointer (message_key r.message) s.next c,
    lookup-update_chain src src (cache_pointer (message_key r.message) s.next) s.chains
        ∙ rw (text_eq_refl src, k),
  )

  heap-add_message : (r : RouteMessage) (s : State D) → (add_message src r s).heap s.next ≡ r
  unfolding add_message
  heap-add_message r s = ground arith

  heap-add_message_old :
      (r : RouteMessage) (s : State D) (p : ℕ)
      → p < s.next
      → (add_message src r s).heap p ≡ s.heap p
  unfolding add_message
  heap-add_message_old r s p h = ground arith

  next-add_message : (r : RouteMessage) (s : State D) → s.next < (add_message src r s).next
  unfolding add_message
  next-add_message r s = omega arith

  pub add_message-IsCached_self :
      (r : RouteMessage) (s : State D)
      → IsKnown s
      → IsCached (message_key r.message) (add_message src r s)
  add_message-IsCached_self r s (c, k) = record {
    object = s.next;
    found =
        cached_in-added src src (message_key r.message) r s c k
        ∙ rw (text_eq_refl src, key_eq_refl (message_key r.message));
    used = next-add_message r s;
    same_key = rw (heap-add_message r s) (key_eq_refl (message_key r.message));
  }

  pub add_message-IsCached :
      (r : RouteMessage) (key : MessageKey) (s : State D)
      → IsKnown s
      → IsCached key s
      → IsCached key (add_message src r s)
  add_message-IsCached r key s (c, k) h = elim (Bool-cases (key_eq (message_key r.message) key)) [
    | inl e ↦ record {
      object = s.next;
      found = cached_in-added src src key r s c k ∙ rw (text_eq_refl src, e);
      used = next-add_message r s;
      same_key = rw (heap-add_message r s) e;
    }
    | inr e ↦ record {
      object = h.object;
      found = cached_in-added src src key r s c k ∙ rw (text_eq_refl src, e) h.found;
      used = omega (arith, h.used, next-add_message r s);
      same_key = rw (heap-add_message_old r s h.object h.used) h.same_key;
    }
  ]

  pub add_messages-IsCached_old :
      (rs : List RouteMessage) (key : MessageKey) (s : State D)
      → IsKnown s
      → IsCached key s
      → IsCached key (add_messages src rs s)
  unfolding add_messages
  add_messages-IsCached_old [] key s k h = h
  add_messages-IsCached_old (r ∷ rs) key s k h =
      add_messages-IsCached_old rs key _ (add_message-IsKnown r s k)
        (add_message-IsCached r key s k h)

  -- Each message that is added is cached.
  pub add_messages-IsCached :
      (rs : List RouteMessage) (r : RouteMessage) (s : State D)
      → IsKnown s
      → In r rs
      → IsCached (message_key r.message) (add_messages src rs s)
  unfolding add_messages
  add_messages-IsCached [] r s k i = absurd i
  add_messages-IsCached (x ∷ rs) r s k (inl e) =
      subst (λ (y : RouteMessage). IsCached (message_key y.message) (add_messages src (x ∷ rs) s)) e
        (add_messages-IsCached_old rs _ _ (add_message-IsKnown x s k)
          (add_message-IsCached_self x s k))
  add_messages-IsCached (x ∷ rs) r s k (inr i) =
      add_messages-IsCached rs r _ (add_message-IsKnown x s k) i
