-- ===== src/Socket/Client/Laws.antt =====
-- What a client of relayer/socket/client.go gets from the server of relayer/socket/server.go.
use centralized_relay.Common.{
  ℕ, zero, suc, ◌≤◌, ◌≡◌, refl, ap, List, [], ◌∷◌, Option, none, some, Bool, false, Text, text_eq,
  take, length, Result, Error, ok, err, unknown_error, socket_closed, arith,
}
use centralized_relay.Store.Codec.{Codec, CodecLaws}
use centralized_relay.Runtime.{ChainRuntime}
use centralized_relay.Relayer.State.{Env, State, find_chain_runtime}
use centralized_relay.Socket.Wire.{Wire, SocketMessage, event_get_fee, event_error}
use centralized_relay.Socket.Server.{
  buffer_size, server_parse_event, reply_bytes, serve, make_error, error_body,
}
use centralized_relay.Socket.Server.Handlers.{handle_get_fee}
use centralized_relay.Socket.Client.{
  client_parse_event, read_reply, call, client_get_fee, request_bytes,
}

take_all : {A : Type 0} (n : ℕ) (xs : List A) → length xs ≤ n → take n xs ≡ xs
take_all zero [] h = refl
take_all zero (x ∷ xs) h = absurd (omega arith)
take_all (suc n) [] h = refl
take_all (suc n) (x ∷ xs) h = ap (λ ys. x ∷ ys) (take_all n xs (omega arith))

abbrev pub unmoved : {A : Type 0} → ℕ → A → A
unmoved addr a = a

-- `out` is what the value is written as, in one read of the other side.
pub record Fits {A : Type 0} (c : Codec A) (a : A) (out : Text) : Type 0 where
  pub encodes : c.encode a ≡ ok out
  pub short : length out ≤ buffer_size

abbrev pub text_or_closed : Option Text → Result Text
text_or_closed none = err socket_closed
text_or_closed (some t) = ok t

module _ {D : Type 0} (env : Env D) (w : Wire) (error_text : Error → Text) (now addr : ℕ)
    (s : State D) (messages : CodecLaws w.message unmoved) where
  -- A connection to a server in the state `s`.
  abbrev pub served : Text → Result Text
  served bytes = text_or_closed (serve env w error_text now bytes s).1

  received :
      (a : ℕ) (m : SocketMessage) (out : Text)
      → Fits w.message m out
      → w.message.decode a (take buffer_size out) ≡ ok m
  received a m out f =
      rw (take_all buffer_size out f.short) (messages.decode-encode m out a f.encodes)

  -- The fee that a chain's provider reports reaches the client, with the response flag false
  -- whatever the client asked for, when the messages fit into the buffers.
  pub client_get_fee-served :
      (requests : CodecLaws w.req_get_fee unmoved) (responses : CodecLaws w.res_get_fee unmoved)
      (chain network : Text) (response : Bool) (c : ChainRuntime) (fee : ℕ)
      (asked req res answered : Text)
      → w.req_get_fee.encode (record { chain = chain; network = network; response = response })
        ≡ ok asked
      → Fits w.message (record { event = event_get_fee; payload = asked }) req
      → find_chain_runtime s chain ≡ ok c
      → c.provider.get_fee now network response ≡ ok fee
      → w.res_get_fee.encode (record { chain = chain; fee = fee; response = false }) ≡ ok answered
      → Fits w.message (record { event = event_get_fee; payload = answered }) res
      → client_get_fee w addr served chain network response
        ≡ ok (record { chain = chain; fee = fee; response = false })
  unfolding client_get_fee call request_bytes read_reply client_parse_event serve reply_bytes
      server_parse_event handle_get_fee text_eq
  client_get_fee-served requests responses chain network response c fee asked req res answered e1 f1
        known e2 e3 f2 =
      rw
        (
          e1,
          f1.encodes,
          received s.next _ req f1,
          requests.decode-encode _ asked s.next e1,
          known,
          e2,
          e3,
          f2.encodes,
          received addr _ res f2,
          responses.decode-encode _ answered addr e3,
          serve,
          handle_get_fee,
          reply_bytes,
          read_reply,
        )
        refl

  -- Whatever error the server meets on a request that arrives whole, the client gets `ErrUnknown`,
  -- if the message with the text of the error fits into the buffer.
  call_refused :
      {A B : Type 0} (event : Text) (c : Codec A) (request : A)
      (assert : centralized_relay.Socket.Client.Response → Result B) (asked req res : Text)
      (e : Error)
      → c.encode request ≡ ok asked
      → Fits w.message (record { event = event; payload = asked }) req
      → (server_parse_event env w error_text now (record { event = event; payload = asked }) s).1
        ≡ some (err e)
      → Fits w.message (record { event = event_error; payload = error_body (error_text e) }) res
      → call w addr served event c request assert ≡ err unknown_error
  unfolding call request_bytes read_reply client_parse_event serve reply_bytes make_error text_eq
  call_refused event c request assert asked req res e e1 f1 refused f2 =
      rw
        (
          e1,
          f1.encodes,
          received s.next _ req f1,
          refused,
          f2.encodes,
          received addr _ res f2,
          serve,
          make_error,
          reply_bytes,
          read_reply,
        )
        refl
