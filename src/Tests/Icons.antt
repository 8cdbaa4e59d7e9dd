-- ===== src/Tests/Icons.antt =====
-- An ICON chain whose connection contract has written one event, and runs of its provider
-- (relayer/chains/icon).
use centralized_relay.Common.{
  ◌≡◌, ◌≢◌, refl, subst, List, [], ◌∷◌, none, Text, codes, text_eq, ℤ, pos, negsuc, ok, err,
  external, returns, All, IsByte, IsInt64, In, arith, at, hex_encode, hex_decode, bytes_value,
  emit_hex, hex_number, format_hex, parse_digits, parse_uint, parse_hex, has_prefix, int64_of,
  wrap64,
}
use centralized_relay.Types.Message.{Message, MessageKeyWithMessageHeight}
use centralized_relay.Types.Contracts.{TextMap, EventMap, lookup}
use centralized_relay.Types.EventMaps.{event_map_onto, get_event_name, value_at}
use centralized_relay.Chain.{put}
use centralized_relay.Icon.Types.{
  big_int, new_hex_int, new_hex_bytes, hex_bytes_value, hex_int_value, hex_int64,
}
use centralized_relay.Icon.Types.Laws.{reread, new_hex_int_read}
use centralized_relay.Icon.Events.{
  EventLog, EventNotification, emit_message_sig, event_map, parse_message_event, uint64,
}
use centralized_relay.Icon.Events.Laws.{Reads, parse_message_event-Reads}
use centralized_relay.Icon.Client.{TransactionResult, TransactionParam, answered, Node}
use centralized_relay.Icon.Query.{generate_messages}
use centralized_relay.Icon.Query.Laws.{IsGenerated, generate_messages-IsGenerated}
use centralized_relay.Icon.Route.{StepConfig, IconMessage, new_icon_message, send_transaction}
use centralized_relay.Icon.Route.Laws.{IsSent, icon_send_transaction-IsSent}
use centralized_relay.Tests.World.{icon, hello_key}

new_hex_int_read_example :
    (IsInt64 (negsuc 9) → hex_int_value (new_hex_int (negsuc 9)) ≡ (negsuc 9, none))
    × (big_int (new_hex_int (negsuc 9)) ≡ reread (negsuc 9))
new_hex_int_read_example = new_hex_int_read (negsuc 9)

-- The text of the number 300, with the prefix.
text_300 : new_hex_int (pos 300) ≡ codes "0x12c"
unfolding new_hex_int format_hex hex_number emit_hex
text_300 = refl

abbrev addresses : TextMap Text
addresses = (codes "xcall", codes "cx01") ∷ (codes "connection", codes "cx02") ∷ []

abbrev contracts : TextMap EventMap
contracts =
    (
      codes "cx02",
      record {
        address = codes "cx02";
        contract_name = codes "connection";
        sig_type = (emit_message_sig, codes "emitMessage") ∷ [];
      },
    )
    ∷ []

-- The event map of the configuration without the xcall contract.
contracts_mapped : event_map ((codes "connection", codes "cx02") ∷ []) ≡ contracts
unfolding event_map event_map_onto put text_eq
contracts_mapped = refl

abbrev log : EventLog
log = record {
  addr = codes "cx02";
  indexed = emit_message_sig ∷ codes "eth" ∷ codes "0x7" ∷ [];
  contents = codes "0x6869" ∷ [];
}

abbrev read : Message
read = record {
  dst = codes "eth";
  src = icon;
  sn = record { addr = 0; value = pos 7 };
  bytes = codes "hi";
  message_height = 100;
  event_type = codes "emitMessage";
  req_id = none;
}

abbrev notification : EventNotification
notification = record { height = codes "0x64"; logs = log ∷ []; progress = [] }

notification_parsed : parse_message_event icon contracts 0 notification ≡ returns (read ∷ [])
unfolding parse_message_event big_int hex_bytes_value hex_decode bytes_value get_event_name lookup
    text_eq at
notification_parsed = refl

parse_message_event-Reads_example :
    (height : ℤ) × (big_int (codes "0x64") ≡ ok height)
    × Reads icon contracts (uint64 height) (log ∷ []) (read ∷ [])
parse_message_event-Reads_example =
    parse_message_event-Reads icon contracts 0 notification (read ∷ []) notification_parsed

abbrev found_result : TransactionResult
found_result = record {
  block_height = codes "0x64";
  status = codes "0x1";
  event_logs = log ∷ [];
  tx_hash = codes "0x01";
}

abbrev node : Node
node = record {
  wallet = ok (0 ∷ []);
  network_id = codes "0x1";
  estimate_step = λ p. ok (new_hex_int (pos 300));
  sign = λ p. ok (1 ∷ []);
  send = λ p. ok tt;
  transaction_result = λ hash i. answered found_result;
  last_block = ok 100;
  block_by_height = λ h. ok (codes "0x01" ∷ []);
  call = λ p. err (external 3);
}

abbrev at_100 : MessageKeyWithMessageHeight
at_100 = record { key = hello_key; height = 100 }

generated : generate_messages icon addresses contracts node 0 at_100 ≡ returns (read ∷ [])
unfolding generate_messages big_int hex_bytes_value hex_decode bytes_value get_event_name lookup
    text_eq at value_at
generated = refl

generate_messages-IsGenerated_example :
    ((read ∷ []) ≢ [])
    × ((hashes : List Text) × (node.block_by_height (new_hex_int (int64_of 100)) ≡ ok hashes)
        × ((m : Message)
            → In m (read ∷ [])
            → IsGenerated icon addresses contracts node icon hashes m))
generate_messages-IsGenerated_example =
    generate_messages-IsGenerated icon addresses contracts node 0 at_100 (read ∷ []) generated

abbrev limits : StepConfig
limits = record { step_min = pos 10; step_limit = pos 1000; step_adjustment = pos 50 }

abbrev message : IconMessage
message = new_icon_message (codes "cx02") none (codes "claimFees")

signed_bytes : (p : TransactionParam) (x : Text) → node.sign p ≡ ok x → All IsByte x
signed_bytes p x e = let same : 1 ∷ [] ≡ x = cc in subst (All IsByte) same (omega arith, tt)

message_sent : send_transaction limits node message ≡ returns (1 ∷ [])
unfolding send_transaction hex_bytes_value hex_int64 new_hex_int new_hex_bytes hex_decode hex_encode
    format_hex hex_number emit_hex parse_hex parse_uint parse_digits has_prefix wrap64
message_sent = refl

icon_send_transaction-IsSent_example : IsSent limits node message (1 ∷ [])
icon_send_transaction-IsSent_example =
    icon_send_transaction-IsSent limits node message (1 ∷ []) signed_bytes message_sent
