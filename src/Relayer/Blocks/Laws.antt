-- ===== src/Relayer/Blocks/Laws.antt =====
-- What `processBlockInfo` of relayer/relay.go puts into a cache.
use centralized_relay.Common.{
  ◌≡◌, ◌∙◌, subst, List, [], ◌∷◌, some, Text, text_eq_refl, In, inl, inr,
}
use centralized_relay.Types.Message.{BlockInfo, Message, MessageKey, new_route_message, message_key}
use centralized_relay.Types.Contracts.{lookup}
use centralized_relay.Runtime.{ChainRuntime}
use centralized_relay.Relayer.State.{Env, State, update_chain}
use centralized_relay.Relayer.State.Laws.{lookup-update_chain}
use centralized_relay.Relayer.State.Cached.{
  IsCached, IsKnown, add_message-IsKnown, add_message-IsCached_self, add_message-IsCached,
}
use centralized_relay.Relayer.Blocks.{accept_message, accept_messages, process_block_info}

module _ {D : Type 0} (env : Env D) (src : Text) where
  with_disk :
      (key : MessageKey) (s : State D) (d : D)
      → IsCached src key s
      → IsCached src key (record s { disk = d })
  with_disk key s d h = record {
    object = h.object;
    found = h.found;
    used = h.used;
    same_key = h.same_key;
  }

  accept_messages-IsCached_old :
      (ms : List Message) (key : MessageKey) (s : State D)
      → IsKnown src s
      → IsCached src key s
      → IsCached src key (accept_messages env src ms s)
  unfolding accept_messages accept_message
  accept_messages-IsCached_old [] key s k h = h
  accept_messages-IsCached_old (m ∷ ms) key s k h =
      accept_messages-IsCached_old ms key _ (add_message-IsKnown src (new_route_message m) s k)
        (with_disk key _ _ (add_message-IsCached src (new_route_message m) key s k h))

  accept_messages-IsCached :
      (ms : List Message) (m : Message) (s : State D)
      → IsKnown src s
      → In m ms
      → IsCached src (message_key m) (accept_messages env src ms s)
  unfolding accept_messages accept_message new_route_message
  accept_messages-IsCached [] m s k i = absurd i
  accept_messages-IsCached (x ∷ ms) m s k (inl e) =
      subst (λ (y : Message). IsCached src (message_key y) (accept_messages env src (x ∷ ms) s)) e
        (accept_messages-IsCached_old ms (message_key x) _
          (add_message-IsKnown src (new_route_message x) s k)
          (with_disk (message_key x) _ _ (add_message-IsCached_self src (new_route_message x) s k)))
  accept_messages-IsCached (x ∷ ms) m s k (inr i) =
      accept_messages-IsCached ms m _ (add_message-IsKnown src (new_route_message x) s k) i

  -- After a block was processed for a known chain, the cache of the chain has every message of the
  -- block, whether the database accepted it or not.
  pub process_block_info_caches :
      (info : BlockInfo) (m : Message) (s : State D)
      → IsKnown src s
      → In m info.messages
      → IsCached src (message_key m) (process_block_info env src info s)
  unfolding process_block_info
  process_block_info_caches info m s (c, k) i =
      accept_messages-IsCached info.messages m _
        (record c { last_block_height = info.height }, known) i
    where
      known :
          lookup src (
            update_chain src
              (λ (x : ChainRuntime). record x { last_block_height = info.height })
              s.chains)
          ≡ some (record c { last_block_height = info.height })
      known = lookup-update_chain src src _ s.chains ∙ rw (text_eq_refl src, k)
