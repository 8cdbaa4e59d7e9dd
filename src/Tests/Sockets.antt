-- ===== src/Tests/Sockets.antt =====
-- A command line that talks to the relayer of the tests (relayer/socket).
use centralized_relay.Common.{
  ◌≡◌, refl, [], ◌∷◌, some, true, false, Text, codes, text_eq, Error, ok, err, external, ◌>>=◌, pos,
  arith, chain_runtime_not_found,
}
use centralized_relay.Types.Contracts.{lookup}
use centralized_relay.Store.Codec.{Codec, CodecLaws}
use centralized_relay.Store.Messages.{store_message}
use centralized_relay.Relayer.State.{State, find_chain_runtime, prefix_message_store}
use centralized_relay.Socket.Wire.{Wire, SocketMessage, ReqGetFee, ResGetFee, event_get_fee}
use centralized_relay.Socket.Server.{server_parse_event}
use centralized_relay.Socket.Server.Handlers.{handle_get_fee}
use centralized_relay.Socket.Client.{client_get_fee}
use centralized_relay.Socket.Client.Laws.{unmoved, served, client_get_fee-served}
use centralized_relay.Tests.Disk.{Disk}
use centralized_relay.Tests.Codecs.{
  put_text, get_text, put_bool, get_bool, get-put_text, get-put_bool,
}
use centralized_relay.Tests.World.{
  icon, eth, today, world, queued, icon_provider, eth_provider, runtime, waiting,
}

-- A codec whose values are never written or read in these tests.
abbrev unused : {A : Type 0} → Codec A
unused = record { encode = λ a. err (external 4); decode = λ addr s. err (external 4) }

abbrev message_codec : Codec SocketMessage
message_codec = record {
  encode = λ m. ok (put_text m.event (put_text m.payload []));
  decode = λ addr s. get_text s >>= λ (event, rest).
      get_text rest >>= λ (payload, end). ok (record { event = event; payload = payload });
}

message_codec-CodecLaws : CodecLaws message_codec unmoved
message_codec-CodecLaws = record {
  decode-encode = λ a b addr e.
      let q : put_text a.event (put_text a.payload []) ≡ b = cc in
      rw (← q) (rw (get-put_text a.event, get-put_text a.payload) refl);
  decode_placed = λ a b addr e. refl;
}

abbrev fee_request : Codec ReqGetFee
fee_request = record {
  encode = λ r. ok (put_text r.chain (put_text r.network (put_bool r.response [])));
  decode = λ addr s. get_text s >>= λ (chain, rest). get_text rest >>= λ (network, more).
      get_bool more >>= λ (response, end).
      ok (record { chain = chain; network = network; response = response });
}

fee_request-CodecLaws : CodecLaws fee_request unmoved
fee_request-CodecLaws = record {
  decode-encode = λ a b addr e.
      let q : put_text a.chain (put_text a.network (put_bool a.response [])) ≡ b = cc in
      rw (← q) (rw (get-put_text a.chain, get-put_text a.network, get-put_bool a.response) refl);
  decode_placed = λ a b addr e. refl;
}

abbrev fee_response : Codec ResGetFee
fee_response = record {
  encode = λ r. ok (r.fee ∷ put_text r.chain (put_bool r.response []));
  decode = λ addr s. elim s [
    | [] ↦ err (external 4)
    | fee ∷ rest ↦ get_text rest >>= λ (chain, more). get_bool more >>= λ (response, end).
        ok (record { chain = chain; fee = fee; response = response })
  ];
}

fee_response-CodecLaws : CodecLaws fee_response unmoved
fee_response-CodecLaws = record {
  decode-encode = λ a b addr e.
      let q : a.fee ∷ put_text a.chain (put_bool a.response []) ≡ b = cc in
      rw (← q) (rw (get-put_text a.chain, get-put_bool a.response) refl);
  decode_placed = λ a b addr e. refl;
}

abbrev wire : Wire
wire = record {
  message = message_codec;
  req_message_list = unused;
  req_get_block = unused;
  req_relay_message = record {
    encode = λ r. err (external 4);
    decode = λ addr s.
        ok (record { chain = icon; sn = record { addr = addr; value = pos 7 }; height = 100 });
  };
  req_message_remove = record {
    encode = λ r. err (external 4);
    decode = λ addr s. ok (record { chain = icon; sn = record { addr = addr; value = pos 7 } });
  };
  res_message_remove = record { encode = λ r. ok r.dst; decode = λ addr s. err (external 4) };
  res_message_list = unused;
  res_get_block = unused;
  res_relay_message = unused;
  req_prune_db = unused;
  req_revert_message = unused;
  res_revert_message = unused;
  req_get_fee = fee_request;
  res_get_fee = fee_response;
  req_set_fee = unused;
  req_claim_fee = unused;
  res_status = unused;
}

abbrev text_of : Error → Text
text_of e = codes "error"

abbrev stocked : State Disk
stocked =
    waiting queued icon_provider eth_provider
      (store_message world.store world.messages prefix_message_store [] (some queued)).0

eth_found : find_chain_runtime stocked eth ≡ ok (runtime eth_provider [])
unfolding find_chain_runtime lookup text_eq
eth_found = refl

abbrev asked : Text → Text
asked chain = put_text chain (put_text icon (put_bool true []))

abbrev answered : Text
answered = 3 ∷ put_text eth (put_bool false [])

abbrev packed : Text → Text → Text
packed event payload = put_text event (put_text payload [])

client_get_fee-served_example :
    client_get_fee wire 9
      (served world wire text_of today 9 stocked message_codec-CodecLaws)
      eth
      icon
      true
    ≡ ok (record { chain = eth; fee = 3; response = false })
client_get_fee-served_example =
    client_get_fee-served world wire text_of today 9 stocked message_codec-CodecLaws
      fee_request-CodecLaws fee_response-CodecLaws eth icon true (runtime eth_provider []) 3
      (asked eth) (packed event_get_fee (asked eth)) (packed event_get_fee answered) answered refl
      (record { encodes = refl; short = omega arith }) eth_found refl refl
      (record { encodes = refl; short = omega arith })

abbrev nowhere : Text
nowhere = codes "sui"

fee_refused :
    (server_parse_event world wire text_of today
      (record { event = event_get_fee; payload = asked nowhere })
      stocked).1
    ≡ some (err (chain_runtime_not_found nowhere))
unfolding server_parse_event handle_get_fee find_chain_runtime lookup text_eq
fee_refused = refl
