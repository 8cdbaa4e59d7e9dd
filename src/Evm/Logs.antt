-- ===== src/Evm/Logs.antt =====
-- relayer/chains/evm/events.go and event_parse.go, and the queries of query.go: how the logs of the
-- contracts become messages.
pub mod Laws
use centralized_relay.Common.{
  ℕ, List, [], ◌∷◌, ◌++◌, Option, none, some, Bool, true, false, Text, codes, text_eq, Result,
  Error, ok, err, ◌>>=◌, ℤ, topic_length_mismatch, unknown_topic, unknown_event, if◌then◌else◌,
}
use centralized_relay.Events
use centralized_relay.Types.Message.{
  BigInt, Message, MessageKey, MessageKeyWithMessageHeight, Receipt,
}
use centralized_relay.Types.Contracts.{
  TextMap, EventMap, lookup, xcall_contract, connection_contract,
}
use centralized_relay.Types.EventMaps.{event_map_onto, get_event_name}

abbrev pub emit_message_sig : Text
emit_message_sig = codes "Message(string,uint256,bytes)"

abbrev pub call_message_sig : Text
call_message_sig = codes "CallMessage(string,string,uint256,uint256,bytes)"

abbrev pub rollback_message_sig : Text
rollback_message_sig = codes "RollbackMessage(uint256)"

-- A log of the Ethereum library, with what the code reads of it.
pub record Log : Type 0 where
  pub topics : List Text
  pub block_number : ℕ
  pub contents : Text

pub record ConnectionMessage : Type 0 where
  pub target_network : Text
  pub sn : BigInt
  pub msg : Text

pub record CallMessageEvent : Type 0 where
  pub sn : BigInt
  pub req_id : ℤ
  pub contents : Text

-- The hash of the Ethereum library, the generated bindings that parse a log, and the calls of the
-- node that the queries make.
pub record EvmClient : Type 0 where
  pub keccak : Text → Text
  pub parse_connection_message : Log → Result ConnectionMessage
  pub parse_call_message : Log → Result CallMessageEvent
  pub parse_rollback_message : Log → Result BigInt
  pub message_received : Text → BigInt → Result Bool
  pub header_by_height : ℕ → Result Text
  pub filter_logs : ℕ → ℕ → Result (List Log)
  pub transaction_receipt : Text → Result (ℕ × Bool)

-- The signatures that a contract of the configuration emits, with their event types.
abbrev pub signatures : Text → TextMap Text
signatures name =
    if text_eq name xcall_contract
    then (call_message_sig, Events.call_message)
      ∷ (rollback_message_sig, Events.rollback_message)
      ∷ []
    else if text_eq name connection_contract
    then (emit_message_sig, Events.emit_message) ∷ []
    else []

unfoldable pub event_map : TextMap Text → TextMap EventMap
unfolding event_map_onto
event_map contracts = event_map_onto signatures [] contracts

module _ (client : EvmClient) (nid : Text) (contracts : TextMap EventMap) where
  unfoldable pub parse_topic : Text → Log → Result Message
  unfolding get_event_name
  parse_topic topic l =
      if text_eq topic (client.keccak emit_message_sig)
      then (client.parse_connection_message l >>= λ m. ok (record {
        dst = m.target_network;
        src = nid;
        sn = m.sn;
        bytes = m.msg;
        message_height = l.block_number;
        event_type = get_event_name contracts emit_message_sig;
        req_id = none;
      }))
      else if text_eq topic (client.keccak call_message_sig)
      then (client.parse_call_message l >>= λ m. ok (record {
        dst = nid;
        src = nid;
        sn = m.sn;
        bytes = m.contents;
        message_height = l.block_number;
        event_type = get_event_name contracts call_message_sig;
        req_id = some m.req_id;
      }))
      else if text_eq topic (client.keccak rollback_message_sig)
      then (client.parse_rollback_message l >>= λ sn. ok (record {
        dst = nid;
        src = nid;
        sn = sn;
        bytes = [];
        message_height = l.block_number;
        event_type = get_event_name contracts rollback_message_sig;
        req_id = none;
      }))
      else err unknown_topic

  unfoldable pub get_relay_message_from_log : Log → Result Message
  unfolding parse_topic
  get_relay_message_from_log l = elim l.topics [
    | [] ↦ err topic_length_mismatch
    | topic ∷ rest ↦ parse_topic topic l
  ]

  -- The loop of `FindMessages`. (Its test for a missing notification reads the logs of the missing
  -- one; its only caller passes one that is there.)
  unfoldable pub find_messages : List Log → Result (List Message)
  unfolding get_relay_message_from_log
  find_messages [] = ok []
  find_messages (l ∷ ls) =
      let rest = find_messages ls in
      get_relay_message_from_log l >>= λ m. rest >>= λ ms. ok (m ∷ ms)

  unfoldable pub generate_messages : MessageKeyWithMessageHeight → Result (List Message)
  unfolding find_messages
  generate_messages key = client.header_by_height key.height >>= λ header.
      client.filter_logs key.height key.height >>= λ logs. find_messages logs

  unfoldable pub message_received : MessageKey → Result Bool
  message_received key =
      if text_eq key.event_type Events.emit_message
      then client.message_received key.src key.sn
      else if text_eq key.event_type Events.call_message
      then ok false
      else if text_eq key.event_type Events.rollback_message
      then ok false
      else err unknown_event

  unfoldable pub query_transaction_receipt : Text → Result Receipt
  query_transaction_receipt hash = client.transaction_receipt hash >>= λ (block, succeeded).
      ok (record { tx_hash = hash; height = block; status = succeeded })
