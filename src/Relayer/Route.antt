-- ===== src/Relayer/Route.antt =====
-- `RouteMessage`, `callback` and `HandleMessageFailed` of relayer/relay.go: the life of a routing
-- goroutine after `processMessages` has started it.
pub mod Failure
pub mod Laws
pub mod Contract
use centralized_relay.Common.{
  ℕ, zero, suc, Bool, true, false, List, [], ◌∷◌, ◌++◌, Option, none, some, Text, leb, ltb, Result,
  ok, err, if◌then◌else◌,
}
use centralized_relay.Types.Message.{
  MessageKey, RouteMessage, TxResponse, ResponseCode, success, failed, message_key,
  new_transaction_object, TransactionObject,
}
use centralized_relay.Types.Retry.{increment_retry, toggle_processing, max_tx_retry}
use centralized_relay.Types.Contracts.{lookup}
use centralized_relay.Types.Cache
use centralized_relay.Store.Messages.{store_message}
use centralized_relay.Store.Finality.{store_tx_object}
use centralized_relay.Runtime.{ChainRuntime}
use centralized_relay.Relayer.State.{
  Env, State, Task, modify_object, modify_chain, cached_in, prefix_message_store,
  prefix_finality_store,
}
use centralized_relay.Relayer.Clear.{clear_messages}

-- What a call of `Provider.Route` does: the calls of its callback, in order, and what it returns.
pub record RouteOutcome : Type 0 where
  pub calls : List (MessageKey × TxResponse)
  pub returned : Result (Unit {0})

-- The transaction object that `callback` makes for finality. `uint64(response.Height)` keeps the
-- bits of the height.
abbrev pub tx_object_of : MessageKey → RouteMessage → TxResponse → TransactionObject
tx_object_of key m response =
    new_transaction_object (record { key = key; height = m.message.message_height })
      response.tx_hash response.height

module _ {D : Type 0} (env : Env D) (now : ℕ) where
  -- The end of `callback` after the transaction object was stored, or was not needed.
  unfoldable pub clear_delivered : Text → MessageKey → D × Result (Unit {0}) → State D → State D
  clear_delivered src key (d, ok _) s =
      (clear_messages env (key ∷ []) src (record s { disk = d })).0
  clear_delivered src key (d, err e) s = record s { disk = d }

  -- `callback` for a key that is in the cache of the source.
  unfoldable pub delivered :
      Text → ChainRuntime → MessageKey → RouteMessage → TxResponse → State D → State D
  unfolding clear_delivered
  delivered src dst key m response s =
      if ltb 0 (dst.provider.finality_block now)
      then clear_delivered src key
          (store_tx_object env.store env.tx_objects prefix_finality_store s.disk
            (some (tx_object_of key m response)))
          s
      else (clear_messages env (key ∷ []) src s).0

  -- `if response.Code == types.Success`
  unfoldable pub on_response :
      ResponseCode
      → Text
      → ChainRuntime
      → MessageKey
      → RouteMessage
      → TxResponse
      → State D
      → State D
  unfolding delivered
  on_response success src dst key m response s = delivered src dst key m response s
  on_response failed src dst key m response s = s

  unfoldable pub callback : Text → ChainRuntime → MessageKey → TxResponse → State D → State D
  unfolding on_response
  callback src dst key response s = elim (cached_in src key s.chains) [
    | none ↦ s
    | some p ↦ on_response response.code src dst key (s.heap p) response s
  ]

  unfoldable pub callbacks :
      Text → ChainRuntime → List (MessageKey × TxResponse) → State D → State D
  callbacks src dst [] s = s
  callbacks src dst ((key, response) ∷ rest) s =
      callbacks src dst rest (callback src dst key response s)

  -- After the write of the message that has used its attempts.
  unfoldable pub drop_failed : Text → RouteMessage → D × Result (Unit {0}) → State D → State D
  unfolding modify_chain
  drop_failed src m (d, err e) s = record s { disk = d }
  drop_failed src m (d, ok _) s =
      modify_chain src
        (λ c. record c { message_cache = Cache.remove (message_key m.message) c.message_cache })
        (record s { disk = d })

  unfoldable pub handle_message_failed : ℕ → Text → State D → State D
  handle_message_failed p src s =
      let t = modify_object p toggle_processing s in
      if leb max_tx_retry (t.heap p).retry
      then drop_failed src (t.heap p)
          (store_message env.store env.messages prefix_message_store t.disk (some (t.heap p))) t
      else t

  -- The goroutine at `n` in the list, and the list without it.
  unfoldable pub take_task : ℕ → List Task → Option (Task × List Task)
  take_task n [] = none
  take_task zero (t ∷ ts) = some (t, ts)
  take_task (suc n) (t ∷ ts) = elim (take_task n ts) [
    | none ↦ none
    | some (u, us) ↦ some (u, t ∷ us)
  ]

  -- `m.IncrementRetry()`, when the scheduler first runs the `n`-th started goroutine.
  unfoldable pub begin_route : ℕ → State D → State D
  unfolding modify_object
  begin_route n s = elim (take_task n s.spawned) [
    | none ↦ s
    | some (t, ts) ↦
        modify_object t.object (increment_retry now)
          (record s { spawned = ts; routing = s.routing ++ t ∷ [] })
  ]

  -- The end of `RouteMessage`: an error of `Route` is handled.
  unfoldable pub end_route : Task → Result (Unit {0}) → State D → State D
  end_route t (ok _) s = s
  end_route t (err e) s = handle_message_failed t.object t.src s

  -- The `n`-th routing goroutine returns from `Route` with the given outcome.
  unfoldable pub finish_route : ℕ → RouteOutcome → State D → State D
  unfolding end_route
  finish_route n out s = elim (take_task n s.routing) [
    | none ↦ s
    | some (t, ts) ↦ elim (lookup t.dst s.chains) [
      | none ↦ s
      | some dst ↦
          end_route t out.returned (callbacks t.src dst out.calls (record s { routing = ts }))
    ]
  ]
