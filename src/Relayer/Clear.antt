-- ===== src/Relayer/Clear.antt =====
-- `ClearMessages` and `cleanExpiredMessages` of relayer/relay.go.
pub mod Laws
pub mod Expiry
use centralized_relay.Common.{ℕ, ◌+◌, List, [], ◌∷◌, Text, length, Result, ok, err, if◌then◌else◌}
use centralized_relay.Types.Message.{MessageKey, RouteMessage, message_key}
use centralized_relay.Types.Retry.{is_elapsed}
use centralized_relay.Types.Contracts.{TextMap}
use centralized_relay.Store.Interface.{done}
use centralized_relay.Store.Messages.{delete_message, get_messages}
use centralized_relay.Store.Pagination.{new_pagination, with_limit}
use centralized_relay.Runtime.{ChainRuntime, clear_message_from_cache}
use centralized_relay.Relayer.State.{
  Env, State, modify_chain, prefix_message_store, max_flush_message, message_expiration,
}

module _ {D : Type 0} (env : Env D) where
  -- The loop over the database: the first error ends it, and what was deleted before stays deleted.
  unfoldable pub delete_messages : List MessageKey → State D → State D × Result (Unit {0})
  delete_messages [] s = (s, done)
  delete_messages (k ∷ ks) s =
      let deletion = delete_message env.store env.messages prefix_message_store s.disk k in
      let after : State D = record s { disk = deletion.0 } in
      elim deletion.1 [ ok _ ↦ delete_messages ks after | err e ↦ (after, err e) ]

  unfoldable pub clear_messages : List MessageKey → Text → State D → State D × Result (Unit {0})
  unfolding delete_messages modify_chain clear_message_from_cache
  clear_messages ks src s = delete_messages ks (modify_chain src (clear_message_from_cache ks) s)

  -- Errors of `ClearMessages` are logged, and the loop goes on.
  unfoldable pub clear_elapsed : ℕ → Text → List RouteMessage → State D → State D
  clear_elapsed now nid [] s = s
  clear_elapsed now nid (m ∷ ms) s = clear_elapsed now nid ms (
      if is_elapsed now message_expiration m
      then (clear_messages (message_key m.message ∷ []) nid s).0
      else s)

  unfoldable pub clean_chain : ℕ → Text → State D → State D
  clean_chain now nid s =
      elim (get_messages env.store env.messages prefix_message_store s.disk s.next nid
        (with_limit max_flush_message new_pagination)) [
          | ok ms ↦ clear_elapsed now nid ms (record s { next = s.next + length ms })
          | err e ↦ s
        ]

  unfoldable pub clean_expired_from : ℕ → TextMap ChainRuntime → State D → State D
  clean_expired_from now [] s = s
  clean_expired_from now ((nid, c) ∷ rest) s = clean_expired_from now rest (clean_chain now nid s)

  unfoldable pub clean_expired_messages : ℕ → State D → State D
  unfolding clean_expired_from
  clean_expired_messages now s = clean_expired_from now s.chains s
