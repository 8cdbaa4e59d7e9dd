-- ===== src/Socket/Server/Handlers.antt =====
-- The cases of `parseEvent` in relayer/socket/server.go.
use centralized_relay.Common.{
  ℕ, List, [], ◌∷◌, Option, none, some, false, Text, codes, ℤ, pos, map, Result, ok, err, ◌>>=◌,
  if◌then◌else◌, ◌==◌,
}
use centralized_relay.Types.Message.{BigInt, Message, MessageKey, RouteMessage, new_route_message}
use centralized_relay.Runtime.{ChainRuntime}
use centralized_relay.Store.Pagination.{Pagination}
use centralized_relay.Store.Codec.{Codec}
use centralized_relay.Store.Keys.{chain_key}
use centralized_relay.Store.Messages.{
  get_message, get_messages, delete_message, total_count_by_chain,
}
use centralized_relay.Store.Blocks.{get_last_stored_block}
use centralized_relay.Relayer.State.{
  Env, State, find_chain_runtime, get_all_chains_runtime, add_message, add_messages,
  prefix_message_store, prefix_block_store,
}
use centralized_relay.Relayer.Start.{prune_db}
use centralized_relay.Socket.Wire.{
  Wire, SocketMessage, ReqRelayMessage, ReqMessageRemove, ResGetBlock, event_get_block,
  event_get_message_list, event_relay_message, event_message_remove, event_prune_db,
  event_revert_message, event_get_fee, event_set_fee, event_claim_fee,
}

-- The payload or the error that `parseEvent` returns; `none` if it panics.
abbrev pub Reply : Type 0
Reply = Option (Result SocketMessage)

-- `jsoniter.Marshal` of the response, under its event.
abbrev pub respond : {A : Type 0} → Text → Codec A → A → Result SocketMessage
respond event c a = c.encode a >>= λ bytes. ok (record { event = event; payload = bytes })

-- The key of a request: a chain and a number, without a destination and an event type.
abbrev pub request_key : Text → BigInt → MessageKey
request_key chain sn = record { sn = sn; src = chain; dst = []; event_type = [] }

abbrev pub blocks_of : List ChainRuntime → List ResGetBlock
blocks_of cs = map (λ c. record { chain = c.provider.nid; height = c.last_saved_height }) cs

abbrev pub success_text : Text
success_text = codes "Success"

-- The integer that a nil or a set `*big.Int` gives to a provider.
abbrev pub fee_value : Option BigInt → Option ℤ
fee_value none = none
fee_value (some n) = some n.value

module _ {D : Type 0} (env : Env D) (w : Wire) (now : ℕ) where
  unfoldable pub handle_get_block : Text → State D → State D × Reply
  handle_get_block bytes s = (
    s,
    some (
        w.req_get_block.decode s.next bytes >>= λ req.
        if req.is_all
        then respond event_get_block w.res_get_block (blocks_of (get_all_chains_runtime s))
        else (get_last_stored_block env.store env.heights prefix_block_store s.disk req.chain
            >>= λ height.
                respond event_get_block w.res_get_block
                  (record { chain = req.chain; height = height } ∷ []))),
  )

  -- `GetMessages` with a nil pagination panics when it reads the limit, after the first message.
  unfoldable pub listed_messages :
      Text → Option Pagination → State D → Option (Result (List RouteMessage))
  listed_messages chain (some p) s =
      some (get_messages env.store env.messages prefix_message_store s.disk s.next chain p)
  listed_messages chain none s =
      let it = env.store.new_iterator s.disk (chain_key prefix_message_store chain) in
      elim it.pairs [
        | [] ↦ some (it.failure >>= λ _. ok [])
        | (k, v) ∷ rest ↦ elim (env.messages.decode s.next v) [ err e ↦ some (err e) | ok m ↦ none ]
      ]

  unfoldable pub handle_get_message_list : Text → State D → State D × Reply
  unfolding listed_messages
  handle_get_message_list bytes s = elim (w.req_message_list.decode s.next bytes) [
    | err e ↦ (s, some (err e))
    | ok req ↦ elim (listed_messages req.chain req.pagination s) [
      | none ↦ (s, none)
      | some read ↦ (
        s,
        some (
            read >>= λ ms.
            total_count_by_chain env.store env.messages prefix_message_store s.disk req.chain
            >>= λ total.
                respond event_get_message_list w.res_message_list
                  (record { messages = ms; total = total })),
      )
    ]
  ]

  -- After `GetMessage`: the deletion, and the response if it succeeded.
  unfoldable pub remove_message : ReqMessageRemove → RouteMessage → State D → State D × Reply
  remove_message req m s =
      let deletion =
        delete_message env.store env.messages prefix_message_store s.disk
          (request_key req.chain req.sn) in
      (
        record s { disk = deletion.0 },
        some (
            deletion.1 >>= λ _. respond event_message_remove w.res_message_remove (record {
              sn = req.sn;
              chain = req.chain;
              dst = m.message.dst;
              height = m.message.message_height;
              event = m.message.event_type;
            })),
      )

  unfoldable pub handle_message_remove : Text → State D → State D × Reply
  unfolding remove_message
  handle_message_remove bytes s = elim (w.req_message_remove.decode s.next bytes) [
    | err e ↦ (s, some (err e))
    | ok req ↦
        elim (get_message env.store env.messages prefix_message_store s.disk s.next
          (request_key req.chain req.sn)) [
            | err e ↦ (s, some (err e))
            | ok m ↦ remove_message req m s
          ]
  ]

  -- The messages that the chain generates are cached; the response has the first, `msgs[0]`.
  unfoldable pub relay_generated : Text → List Message → State D → State D × Reply
  unfolding add_messages
  relay_generated chain [] s = (s, none)
  relay_generated chain (m ∷ ms) s = (
    add_messages chain (map new_route_message (m ∷ ms)) s,
    some (
        respond event_relay_message w.res_relay_message
          (record { route_message = new_route_message m })),
  )

  -- Without a height the message is read from the database, as the object at the next address.
  unfoldable pub relay_stored : ReqRelayMessage → State D → State D × Reply
  unfolding add_message
  relay_stored req s =
      elim (get_message env.store env.messages prefix_message_store s.disk s.next
        (request_key req.chain req.sn)) [
          | err e ↦ (s, some (err e))
          | ok m ↦ (
            add_message req.chain m s,
            some (respond event_relay_message w.res_relay_message (record { route_message = m })),
          )
        ]

  unfoldable pub relay_from : ReqRelayMessage → ChainRuntime → State D → State D × Reply
  unfolding relay_generated relay_stored
  relay_from req src s =
      if req.height == 0
      then relay_stored req s
      else elim (src.provider.generate_messages now
          (record { key = request_key req.chain req.sn; height = req.height })) [
            | err e ↦ (s, some (err e))
            | ok ms ↦ relay_generated req.chain ms s
          ]

  unfoldable pub handle_relay_message : Text → State D → State D × Reply
  unfolding relay_from
  handle_relay_message bytes s = elim (w.req_relay_message.decode s.next bytes) [
    | err e ↦ (s, some (err e))
    | ok req ↦ elim (find_chain_runtime s req.chain) [
      | err e ↦ (s, some (err e))
      | ok src ↦ relay_from req src s
    ]
  ]

  unfoldable pub handle_prune_db : Text → State D → State D × Reply
  unfolding prune_db
  handle_prune_db bytes s =
      let pruned = prune_db env s in
      (
        pruned.0,
        some (
            pruned.1 >>= λ _.
            respond event_prune_db w.res_status (record { status = success_text })),
      )

  unfoldable pub handle_revert_message : Text → State D → State D × Reply
  handle_revert_message bytes s = (
    s,
    some (
        w.req_revert_message.decode s.next bytes >>= λ req.
        find_chain_runtime s req.chain >>= λ chain.
        chain.provider.revert_message now (pos req.sn) >>= λ _.
        respond event_revert_message w.res_revert_message (record { sn = req.sn })),
  )

  -- `&ResGetFee{Chain: req.Chain, Fee: fee}` leaves `Response` false.
  unfoldable pub handle_get_fee : Text → State D → State D × Reply
  handle_get_fee bytes s = (
    s,
    some (
        w.req_get_fee.decode s.next bytes >>= λ req. find_chain_runtime s req.chain >>= λ chain.
        chain.provider.get_fee now req.network req.response >>= λ fee.
        respond event_get_fee w.res_get_fee
          (record { chain = req.chain; fee = fee; response = false })),
  )

  unfoldable pub handle_set_fee : Text → State D → State D × Reply
  handle_set_fee bytes s = (
    s,
    some (
        w.req_set_fee.decode s.next bytes >>= λ req. find_chain_runtime s req.chain >>= λ chain.
        chain.provider.set_fee now req.network (fee_value req.msg_fee) (fee_value req.res_fee)
        >>= λ _. respond event_set_fee w.res_status (record { status = success_text })),
  )

  unfoldable pub handle_claim_fee : Text → State D → State D × Reply
  handle_claim_fee bytes s = (
    s,
    some (
        w.req_claim_fee.decode s.next bytes >>= λ req. find_chain_runtime s req.chain >>= λ chain.
        chain.provider.claim_fee now >>= λ _.
        respond event_claim_fee w.res_status (record { status = success_text })),
  )
