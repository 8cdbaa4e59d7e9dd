-- ===== src/Socket/Client.antt =====
-- The client of relayer/socket/client.go. The connection is a function: it stands for the write of a
-- payload and the read of what comes back, with the error of either.
pub mod Laws
use centralized_relay.Common.{
  ℕ, List, [], ◌∷◌, Option, none, some, Bool, true, false, Text, codes, text_eq, take, Result,
  Error, ok, err, ◌>>=◌, unknown_event, unknown_error, invalid_response, if◌then◌else◌,
}
use centralized_relay.Types.Message.{BigInt}
use centralized_relay.Store.Pagination.{Pagination}
use centralized_relay.Store.Codec.{Codec}
use centralized_relay.Socket.Wire.{
  Wire, SocketMessage, ReqMessageList, ReqGetBlock, ReqRelayMessage, ReqMessageRemove, ReqPruneDb,
  ReqRevertMessage, ReqGetFee, ReqSetFee, ReqClaimFee, ResMessageRemove, ResMessageList,
  ResGetBlock, ResRelayMessage, ResRevertMessage, ResGetFee, ResStatus, event_get_block,
  event_get_message_list, event_relay_message, event_message_remove, event_prune_db,
  event_revert_message, event_error, event_get_fee, event_set_fee, event_claim_fee,
}
use centralized_relay.Socket.Server.{buffer_size}

-- The `interface{}` that `parseEvent` returns.
pub data Response : Type 0 where
  block_list : List ResGetBlock → Response
  message_list : ResMessageList → Response
  relayed : ResRelayMessage → Response
  removed : ResMessageRemove → Response
  pruned : ResStatus → Response
  reverted : ResRevertMessage → Response
  fee : ResGetFee → Response
  fee_set : ResStatus → Response
  fee_claimed : ResStatus → Response

-- The type assertions `data.(*Res…)`.
abbrev pub as_blocks : Response → Result (List ResGetBlock)
as_blocks (block_list r) = ok r
as_blocks _ = err invalid_response

abbrev pub as_message_list : Response → Result ResMessageList
as_message_list (message_list r) = ok r
as_message_list _ = err invalid_response

abbrev pub as_relayed : Response → Result ResRelayMessage
as_relayed (relayed r) = ok r
as_relayed _ = err invalid_response

abbrev pub as_removed : Response → Result ResMessageRemove
as_removed (removed r) = ok r
as_removed _ = err invalid_response

abbrev pub as_pruned : Response → Result ResStatus
as_pruned (pruned r) = ok r
as_pruned _ = err invalid_response

abbrev pub as_reverted : Response → Result ResRevertMessage
as_reverted (reverted r) = ok r
as_reverted _ = err invalid_response

abbrev pub as_fee : Response → Result ResGetFee
as_fee (fee r) = ok r
as_fee _ = err invalid_response

abbrev pub as_fee_set : Response → Result ResStatus
as_fee_set (fee_set r) = ok r
as_fee_set _ = err invalid_response

abbrev pub as_fee_claimed : Response → Result ResStatus
as_fee_claimed (fee_claimed r) = ok r
as_fee_claimed _ = err invalid_response

module _ (w : Wire) (addr : ℕ) where
  -- The objects that the decoder makes stand at `addr`.
  unfoldable pub client_parse_event : SocketMessage → Result Response
  client_parse_event m =
      if text_eq m.event event_get_block
      then (w.res_get_block.decode addr m.payload >>= λ r. ok (block_list r))
      else if text_eq m.event event_get_message_list
      then (w.res_message_list.decode addr m.payload >>= λ r. ok (message_list r))
      else if text_eq m.event event_relay_message
      then (w.res_relay_message.decode addr m.payload >>= λ r. ok (relayed r))
      else if text_eq m.event event_message_remove
      then (w.res_message_remove.decode addr m.payload >>= λ r. ok (removed r))
      else if text_eq m.event event_prune_db
      then (w.res_status.decode addr m.payload >>= λ r. ok (pruned r))
      else if text_eq m.event event_error
      then err unknown_error
      else if text_eq m.event event_revert_message
      then (w.res_revert_message.decode addr m.payload >>= λ r. ok (reverted r))
      else if text_eq m.event event_get_fee
      then (w.res_get_fee.decode addr m.payload >>= λ r. ok (fee r))
      else if text_eq m.event event_set_fee
      then (w.res_status.decode addr m.payload >>= λ r. ok (fee_set r))
      else if text_eq m.event event_claim_fee
      then (w.res_status.decode addr m.payload >>= λ r. ok (fee_claimed r))
      else err unknown_event

  unfoldable pub read_reply : Text → Result Response
  unfolding client_parse_event
  read_reply bytes = w.message.decode addr (take buffer_size bytes) >>= client_parse_event

  -- The payload that `send` writes.
  unfoldable pub request_bytes : {A : Type 0} → Text → Codec A → A → Result Text
  request_bytes event c req =
      c.encode req >>= λ out. w.message.encode (record { event = event; payload = out })

  module _ (connection : Text → Result Text) where
    -- `send`, `read` and the type assertion.
    unfoldable pub call : {A B : Type 0} → Text → Codec A → A → (Response → Result B) → Result B
    unfolding request_bytes read_reply
    call event c req assert =
        request_bytes event c req >>= λ out. connection out >>= λ bytes. read_reply bytes >>= assert

    unfoldable pub client_get_block : Text → Result (List ResGetBlock)
    unfolding call
    client_get_block chain =
        call event_get_block w.req_get_block (record { chain = chain; is_all = text_eq chain [] })
          as_blocks

    unfoldable pub client_get_message_list : Text → Option Pagination → Result ResMessageList
    unfolding call
    client_get_message_list chain pagination =
        call event_get_message_list w.req_message_list
          (record { chain = chain; pagination = pagination }) as_message_list

    unfoldable pub client_relay_message : Text → ℕ → BigInt → Result ResRelayMessage
    unfolding call
    client_relay_message chain height sn =
        call event_relay_message w.req_relay_message
          (record { chain = chain; sn = sn; height = height }) as_relayed

    unfoldable pub client_message_remove : Text → BigInt → Result ResMessageRemove
    unfolding call
    client_message_remove chain sn =
        call event_message_remove w.req_message_remove (record { chain = chain; sn = sn })
          as_removed

    unfoldable pub client_prune_db : Result ResStatus
    unfolding call
    client_prune_db = call event_prune_db w.req_prune_db (record { chain = [] }) as_pruned

    unfoldable pub client_revert_message : Text → ℕ → Result ResRevertMessage
    unfolding call
    client_revert_message chain sn =
        call event_revert_message w.req_revert_message (record { chain = chain; sn = sn })
          as_reverted

    unfoldable pub client_get_fee : Text → Text → Bool → Result ResGetFee
    unfolding call
    client_get_fee chain network response =
        call event_get_fee w.req_get_fee
          (record { chain = chain; network = network; response = response }) as_fee

    unfoldable pub client_set_fee : Text → Text → Option BigInt → Option BigInt → Result ResStatus
    unfolding call
    client_set_fee chain network msg_fee res_fee =
        call event_set_fee w.req_set_fee
          (record { chain = chain; network = network; msg_fee = msg_fee; res_fee = res_fee })
          as_fee_set

    unfoldable pub client_claim_fee : Text → Result ResStatus
    unfolding call
    client_claim_fee chain =
        call event_claim_fee w.req_claim_fee (record { chain = chain }) as_fee_claimed
