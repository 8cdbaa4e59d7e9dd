-- ===== src/Relayer/Blocks.antt =====
-- `processBlockInfo`, `SaveBlockHeight` and `SaveChainsBlockHeight` of relayer/relay.go.
pub mod Laws
pub mod Restart
use centralized_relay.Common.{ℕ, List, [], ◌∷◌, some, Text, Result, ok, err}
use centralized_relay.Types.Message.{BlockInfo, Message, RouteMessage, new_route_message}
use centralized_relay.Types.Contracts.{TextMap}
use centralized_relay.Store.Messages.{store_message}
use centralized_relay.Store.Blocks.{store_block}
use centralized_relay.Runtime.{ChainRuntime}
use centralized_relay.Relayer.State.{
  Env, State, add_message, modify_chain, prefix_message_store, prefix_block_store,
}

module _ {D : Type 0} (env : Env D) where
  -- The body of the loop: a message that cannot be stored stays in the cache.
  unfoldable pub accept_message : Text → Message → State D → State D
  unfolding add_message
  accept_message src m s =
      let t = add_message src (new_route_message m) s in
      record t {
        disk =
            (store_message env.store env.messages prefix_message_store t.disk
              (some (new_route_message m))).0;
      }

  unfoldable pub accept_messages : Text → List Message → State D → State D
  accept_messages src [] s = s
  accept_messages src (m ∷ ms) s = accept_messages src ms (accept_message src m s)

  unfoldable pub process_block_info : Text → BlockInfo → State D → State D
  unfolding modify_chain accept_messages
  process_block_info src info s =
      accept_messages src info.messages
        (modify_chain src (λ c. record c { last_block_height = info.height }) s)

  -- Both heights of the chain take the new value before the write is tried.
  unfoldable pub save_block_height : Text → Text → ℕ → State D → State D × Result (Unit {0})
  unfolding modify_chain
  save_block_height key nid height s =
      let t =
        modify_chain key (λ c. record c { last_saved_height = height; last_block_height = height })
          s in
      let write = store_block env.store env.heights prefix_block_store t.disk height nid in
      (record t { disk = write.0 }, write.1)

  -- Errors are logged, and the loop goes on.
  unfoldable pub save_chain_height : Text → Text → Result ℕ → State D → State D
  unfolding save_block_height
  save_chain_height key nid (ok height) s = (save_block_height key nid height s).0
  save_chain_height key nid (err e) s = s

  unfoldable pub save_heights_from : ℕ → TextMap ChainRuntime → State D → State D
  unfolding save_chain_height
  save_heights_from now [] s = s
  save_heights_from now ((key, c) ∷ rest) s =
      save_heights_from now rest
        (save_chain_height key c.provider.nid (c.provider.query_latest_height now) s)

  unfoldable pub save_chains_block_height : ℕ → State D → State D
  unfolding save_heights_from
  save_chains_block_height now s = save_heights_from now s.chains s
