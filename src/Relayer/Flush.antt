-- ===== src/Relayer/Flush.antt =====
-- `flushMessages` and `getActiveMessagesFromStore` of relayer/relay.go.
pub mod Laws
use centralized_relay.Common.{
  ℕ, ◌+◌, Bool, not, List, [], ◌∷◌, Text, length, select, Result, ok, err, if◌then◌else◌,
}
use centralized_relay.Types.Message.{RouteMessage}
use centralized_relay.Types.Retry.{is_stale}
use centralized_relay.Types.Contracts.{TextMap}
use centralized_relay.Store.Messages.{get_messages}
use centralized_relay.Store.Pagination.{new_pagination, with_limit}
use centralized_relay.Runtime.{ChainRuntime}
use centralized_relay.Relayer.State.{
  Env, State, add_messages, prefix_message_store, max_flush_message,
}

-- `if !m.IsStale()`
abbrev pub is_active : RouteMessage → Bool
is_active m = not (is_stale m)

module _ {D : Type 0} (env : Env D) where
  -- The messages that were read, of which the loop keeps those that are not stale.
  unfoldable pub read_active : State D → Text → ℕ → Result (List RouteMessage)
  read_active s nid limit =
      get_messages env.store env.messages prefix_message_store s.disk s.next nid
        (with_limit limit new_pagination)

  unfoldable pub get_active_messages : State D → Text → ℕ → Result (List RouteMessage)
  unfolding read_active
  get_active_messages s nid limit = elim (read_active s nid limit) [
    | ok ms ↦ ok (select is_active ms)
    | err e ↦ err e
  ]

  -- The objects that the decoder makes take addresses whether they are kept or not.
  unfoldable pub flush_chain : Text → Text → State D → State D
  unfolding read_active
  flush_chain key nid s = elim (read_active s nid max_flush_message) [
    | ok ms ↦ add_messages key (select is_active ms) (record s { next = s.next + length ms })
    | err e ↦ s
  ]

  unfoldable pub flush_from : TextMap ChainRuntime → State D → State D
  flush_from [] s = s
  flush_from ((key, c) ∷ rest) s = flush_from rest (flush_chain key c.provider.nid s)

  unfoldable pub flush_messages : State D → State D
  unfolding flush_from
  flush_messages s = flush_from s.chains s
