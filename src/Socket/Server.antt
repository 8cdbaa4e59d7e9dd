-- ===== src/Socket/Server.antt =====
-- `parseEvent`, `parse`, `makeError` and the loop body of `server` in relayer/socket/server.go.
pub mod Handlers
pub mod Laws
use centralized_relay.Common.{
  ℕ, List, [], ◌∷◌, ◌++◌, Option, none, some, Text, codes, text_eq, take, Result, Error, ok, err,
  ◌>>=◌, invalid_request, if◌then◌else◌,
}
use centralized_relay.Relayer.State.{Env, State}
use centralized_relay.Socket.Wire.{
  Wire, SocketMessage, event_get_block, event_get_message_list, event_relay_message,
  event_message_remove, event_prune_db, event_revert_message, event_error, event_get_fee,
  event_set_fee, event_claim_fee,
}
use centralized_relay.Socket.Server.Handlers.{
  Reply, handle_get_block, handle_get_message_list, handle_message_remove, handle_relay_message,
  handle_prune_db, handle_revert_message, handle_get_fee, handle_set_fee, handle_claim_fee,
}

-- `make([]byte, 1024*100)`: what a read returns at most.
abbrev pub buffer_size : ℕ
buffer_size = 102400

-- The text `{"message": "…"}` of an error's text.
abbrev pub error_body : Text → Text
error_body t =
    codes "{" ++ (b'"' ∷ codes "message") ++ (b'"' ∷ codes ": ") ++ (b'"' ∷ t) ++ (b'"' ∷ codes "}")

abbrev pub plain_error : Text → Text
plain_error t =
    codes "{" ++ (b'"' ∷ codes "error") ++ (b'"' ∷ codes ": ") ++ (b'"' ∷ t) ++ (b'"' ∷ codes "}")

module _ {D : Type 0} (env : Env D) (w : Wire) (error_text : Error → Text) (now : ℕ) where
  unfoldable pub server_parse_event : SocketMessage → State D → State D × Reply
  unfolding handle_get_block handle_get_message_list handle_message_remove handle_relay_message
      handle_prune_db handle_revert_message handle_get_fee handle_set_fee handle_claim_fee
  server_parse_event m s =
      if text_eq m.event event_get_block
      then handle_get_block env w now m.payload s
      else if text_eq m.event event_get_message_list
      then handle_get_message_list env w now m.payload s
      else if text_eq m.event event_message_remove
      then handle_message_remove env w now m.payload s
      else if text_eq m.event event_relay_message
      then handle_relay_message env w now m.payload s
      else if text_eq m.event event_prune_db
      then handle_prune_db env w now m.payload s
      else if text_eq m.event event_revert_message
      then handle_revert_message env w now m.payload s
      else if text_eq m.event event_get_fee
      then handle_get_fee env w now m.payload s
      else if text_eq m.event event_set_fee
      then handle_set_fee env w now m.payload s
      else if text_eq m.event event_claim_fee
      then handle_claim_fee env w now m.payload s
      else (s, some (err invalid_request))

  unfoldable pub make_error : Error → Text
  make_error e =
      elim (w.message.encode
        (record { event = event_error; payload = error_body (error_text e) })) [
          | ok out ↦ out
          | err x ↦ plain_error (error_text x)
        ]

  -- What is written to the connection: the encoded payload, or the error of any of the steps.
  unfoldable pub reply_bytes : Reply → Option Text
  unfolding make_error
  reply_bytes none = none
  reply_bytes (some (err e)) = some (make_error e)
  reply_bytes (some (ok m)) = elim (w.message.encode m) [
    | ok out ↦ some out
    | err e ↦ some (make_error e)
  ]

  -- One round of the loop of `server`, for the bytes that arrive; `none` is a panic.
  unfoldable pub serve : Text → State D → State D × Option Text
  unfolding reply_bytes server_parse_event
  serve bytes s = elim (w.message.decode s.next (take buffer_size bytes)) [
    | err e ↦ (s, some (make_error e))
    | ok m ↦ let r = server_parse_event m s in (r.0, reply_bytes r.1)
  ]
