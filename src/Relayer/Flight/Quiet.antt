-- ===== src/Relayer/Flight/Quiet.antt =====
-- The operations of relayer/relay.go on blocks, caches and the message store, for the invariant.
use centralized_relay.Common.{
  ℕ, List, [], ◌∷◌, Text, select, length, Result, ok, err, Result-cases, Bool-cases, inl, inr,
}
use centralized_relay.Types.Message.{
  MessageKey, RouteMessage, Message, BlockInfo, message_key, new_route_message,
}
use centralized_relay.Types.Retry.{is_elapsed}
use centralized_relay.Types.Contracts.{TextMap}
use centralized_relay.Store.Messages.{delete_message, get_messages}
use centralized_relay.Store.Pagination.{new_pagination, with_limit}
use centralized_relay.Runtime.{ChainRuntime, clear_message_from_cache}
use centralized_relay.Relayer.State.{
  Env, State, prefix_message_store, max_flush_message, message_expiration,
}
use centralized_relay.Relayer.Clear.{
  delete_messages, clear_messages, clear_elapsed, clean_chain, clean_expired_from,
  clean_expired_messages,
}
use centralized_relay.Relayer.Flush.{
  read_active, flush_chain, flush_from, flush_messages, is_active,
}
use centralized_relay.Relayer.Blocks.{
  accept_message, accept_messages, process_block_info, save_chain_height, save_heights_from,
  save_chains_block_height,
}
use centralized_relay.Relayer.Flight.Grows.{
  Grows, Grows-refl, Grows-trans, PointsBelow, remove-PointsBelow, disk-Grows, next-Grows,
  modify_chain-Grows, add_message-Grows, add_messages-Grows,
}

clear_cache-PointsBelow :
    (ks : List MessageKey) (n : ℕ) (c : ChainRuntime)
    → PointsBelow n c.message_cache
    → PointsBelow n (clear_message_from_cache ks c).message_cache
unfolding clear_message_from_cache
clear_cache-PointsBelow [] n c h = h
clear_cache-PointsBelow (k ∷ ks) n c h =
    clear_cache-PointsBelow ks n _ (remove-PointsBelow n k c.message_cache h)

module _ {D : Type 0} (env : Env D) where
  delete_messages-Grows :
      (ks : List MessageKey) (s : State D) → Grows s (delete_messages env ks s).0
  unfolding delete_messages
  delete_messages-Grows [] s = Grows-refl s
  delete_messages-Grows (k ∷ ks) s =
      elim (Result-cases (delete_message env.store env.messages prefix_message_store s.disk k).1) [
        | inl (u, e) ↦
            rw (e, delete_messages) (Grows-trans (disk-Grows s _) (delete_messages-Grows ks _))
        | inr (x, e) ↦ rw (e, delete_messages) (disk-Grows s _)
      ]

  pub clear_messages-Grows :
      (ks : List MessageKey) (src : Text) (s : State D) → Grows s (clear_messages env ks src s).0
  unfolding clear_messages
  clear_messages-Grows ks src s =
      Grows-trans
        (modify_chain-Grows src (clear_message_from_cache ks) s (clear_cache-PointsBelow ks))
        (delete_messages-Grows ks _)

  clear_elapsed-Grows :
      (now : ℕ) (nid : Text) (ms : List RouteMessage) (s : State D)
      → Grows s (clear_elapsed env now nid ms s)
  unfolding clear_elapsed
  clear_elapsed-Grows now nid [] s = Grows-refl s
  clear_elapsed-Grows now nid (m ∷ ms) s = elim (Bool-cases (is_elapsed now message_expiration m)) [
    | inl e ↦ rw e (
        Grows-trans (clear_messages-Grows (message_key m.message ∷ []) nid s)
          (clear_elapsed-Grows now nid ms _))
    | inr e ↦ rw e (clear_elapsed-Grows now nid ms s)
  ]

  clean_chain-Grows : (now : ℕ) (nid : Text) (s : State D) → Grows s (clean_chain env now nid s)
  unfolding clean_chain
  clean_chain-Grows now nid s =
      elim (Result-cases (
        get_messages env.store env.messages prefix_message_store s.disk s.next nid
          (with_limit max_flush_message new_pagination))) [
            | inl (ms, e) ↦
                rw (e, clean_chain)
                  (Grows-trans (next-Grows s (length ms)) (clear_elapsed-Grows now nid ms _))
            | inr (x, e) ↦ rw (e, clean_chain) (Grows-refl s)
          ]

  clean_expired_from-Grows :
      (now : ℕ) (cs : TextMap ChainRuntime) (s : State D)
      → Grows s (clean_expired_from env now cs s)
  unfolding clean_expired_from
  clean_expired_from-Grows now [] s = Grows-refl s
  clean_expired_from-Grows now ((nid, c) ∷ cs) s =
      Grows-trans (clean_chain-Grows now nid s) (clean_expired_from-Grows now cs _)

  pub clean_expired_messages-Grows :
      (now : ℕ) (s : State D) → Grows s (clean_expired_messages env now s)
  unfolding clean_expired_messages
  clean_expired_messages-Grows now s = clean_expired_from-Grows now s.chains s

  flush_chain-Grows : (key nid : Text) (s : State D) → Grows s (flush_chain env key nid s)
  unfolding flush_chain
  flush_chain-Grows key nid s = elim (Result-cases (read_active env s nid max_flush_message)) [
    | inl (ms, e) ↦
        rw (e, flush_chain)
          (Grows-trans (next-Grows s (length ms)) (add_messages-Grows key (select is_active ms) _))
    | inr (x, e) ↦ rw (e, flush_chain) (Grows-refl s)
  ]

  flush_from-Grows : (cs : TextMap ChainRuntime) (s : State D) → Grows s (flush_from env cs s)
  unfolding flush_from
  flush_from-Grows [] s = Grows-refl s
  flush_from-Grows ((key, c) ∷ cs) s =
      Grows-trans (flush_chain-Grows key c.provider.nid s) (flush_from-Grows cs _)

  pub flush_messages-Grows : (s : State D) → Grows s (flush_messages env s)
  unfolding flush_messages
  flush_messages-Grows s = flush_from-Grows s.chains s

  accept_messages-Grows :
      (src : Text) (ms : List Message) (s : State D) → Grows s (accept_messages env src ms s)
  unfolding accept_messages accept_message
  accept_messages-Grows src [] s = Grows-refl s
  accept_messages-Grows src (m ∷ ms) s =
      Grows-trans (add_message-Grows src (new_route_message m) s)
        (Grows-trans (disk-Grows _ _) (accept_messages-Grows src ms _))

  pub process_block_info-Grows :
      (src : Text) (info : BlockInfo) (s : State D) → Grows s (process_block_info env src info s)
  unfolding process_block_info
  process_block_info-Grows src info s =
      Grows-trans (modify_chain-Grows src _ s (λ n c h. h))
        (accept_messages-Grows src info.messages _)

  save_chain_height-Grows :
      (key nid : Text) (r : Result ℕ) (s : State D) → Grows s (save_chain_height env key nid r s)
  unfolding save_chain_height
  save_chain_height-Grows key nid (ok height) s =
      Grows-trans (modify_chain-Grows key _ s (λ n c h. h)) (disk-Grows _ _)
  save_chain_height-Grows key nid (err e) s = Grows-refl s

  save_heights_from-Grows :
      (now : ℕ) (cs : TextMap ChainRuntime) (s : State D) → Grows s (save_heights_from env now cs s)
  unfolding save_heights_from
  save_heights_from-Grows now [] s = Grows-refl s
  save_heights_from-Grows now ((key, c) ∷ cs) s =
      Grows-trans
        (save_chain_height-Grows key c.provider.nid (c.provider.query_latest_height now) s)
        (save_heights_from-Grows now cs _)

  pub save_chains_block_height-Grows :
      (now : ℕ) (s : State D) → Grows s (save_chains_block_height env now s)
  unfolding save_chains_block_height
  save_chains_block_height-Grows now s = save_heights_from-Grows now s.chains s
