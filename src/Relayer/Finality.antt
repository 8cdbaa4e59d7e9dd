-- ===== src/Relayer/Finality.antt =====
-- `CheckFinality` of relayer/relay.go.
pub mod Laws
use centralized_relay.Common.{
  ℕ, ◌+◌, ◌%◌, ◌^◌, Bool, true, false, List, [], ◌∷◌, Option, none, some, Text, map, ltb, ◌==◌,
  length, Result, ok, err, if◌then◌else◌,
}
use centralized_relay.Types.Message.{
  Message, RouteMessage, TransactionObject, Receipt, new_route_message, MessageKey,
}
use centralized_relay.Types.Contracts.{TextMap, lookup}
use centralized_relay.Store.Finality.{get_tx_objects, delete_tx_object}
use centralized_relay.Store.Pagination.{new_pagination, with_limit}
use centralized_relay.Provider.{Provider}
use centralized_relay.Runtime.{ChainRuntime}
use centralized_relay.Relayer.State.{Env, State, add_messages, prefix_finality_store}

abbrev pub max_finality_objects : ℕ
max_finality_objects = 10

module _ {D : Type 0} (env : Env D) (now : ℕ) where
  abbrev pub delete_object : TransactionObject → State D → D × Result (Unit {0})
  delete_object t s =
      delete_tx_object env.store env.tx_objects prefix_finality_store s.disk t.message_key.key

  -- `srcChainRuntime.mergeMessages`, unless the messages could not be generated.
  unfoldable pub merge_generated : Text → Result (List Message) → State D → State D
  unfolding add_messages
  merge_generated src (ok ms) s = add_messages src (map new_route_message ms) s
  merge_generated src (err e) s = s

  -- After the deletion of the transaction object: the source generates the message anew.
  unfoldable pub regenerate_after :
      ChainRuntime → TransactionObject → D × Result (Unit {0}) → State D → State D
  unfolding merge_generated
  regenerate_after source t (d, err e) s = record s { disk = d }
  regenerate_after source t (d, ok _) s =
      merge_generated t.message_key.key.src (source.provider.generate_messages now t.message_key)
        (record s { disk = d })

  unfoldable pub regenerate : TransactionObject → State D → State D
  unfolding regenerate_after
  regenerate t s = elim (lookup t.message_key.key.src s.chains) [
    | none ↦ s
    | some source ↦ regenerate_after source t (delete_object t s) s
  ]

  -- With the receipt: a transaction that is still there is final, and its object is pruned.
  unfoldable pub judge_receipt : TransactionObject → Result Receipt → State D → State D
  unfolding regenerate
  judge_receipt t (err e) s = s
  judge_receipt t (ok receipt) s =
      if receipt.status then record s { disk = (delete_object t s).0 } else regenerate t s

  -- The body of the loop for one transaction object; `TxHeight + finalityBlock` is a uint64.
  unfoldable pub check_tx_object : Provider → ℕ → ℕ → TransactionObject → State D → State D
  unfolding judge_receipt
  check_tx_object provider finality latest t s =
      if t.tx_height == 0
      then s
      else if ltb latest ((t.tx_height + finality) % 2 ^ 64)
      then s
      else judge_receipt t (provider.query_transaction_receipt now t.tx_hash) s

  unfoldable pub check_tx_objects : Provider → ℕ → ℕ → List TransactionObject → State D → State D
  check_tx_objects provider finality latest [] s = s
  check_tx_objects provider finality latest (t ∷ ts) s =
      check_tx_objects provider finality latest ts (check_tx_object provider finality latest t s)

  unfoldable pub check_read : ChainRuntime → Result (List TransactionObject) → State D → State D
  unfolding check_tx_objects
  check_read c (err e) s = s
  check_read c (ok ts) s =
      check_tx_objects c.provider (c.provider.finality_block now) c.last_block_height ts
        (record s { next = s.next + length ts })

  unfoldable pub check_chain : Text → ChainRuntime → State D → State D
  unfolding check_read
  check_chain nid c s =
      if ltb 0 (c.provider.finality_block now)
      then check_read c
          (get_tx_objects env.store env.tx_objects prefix_finality_store s.disk s.next nid
            (with_limit max_finality_objects new_pagination))
          s
      else s

  unfoldable pub check_from : TextMap ChainRuntime → State D → State D
  check_from [] s = s
  check_from ((nid, c) ∷ rest) s = check_from rest (check_chain nid c s)

  unfoldable pub check_finality : State D → State D
  unfolding check_from
  check_finality s = check_from s.chains s
