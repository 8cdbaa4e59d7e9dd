-- ===== src/Types/Message.antt =====
-- The data types of relayer/types/types.go.
use centralized_relay.Common.{ℕ, Bool, false, ◌&&◌, Option, List, Text, text_eq, ◌==◌, ℤ}

-- A `*big.Int`: the address of the object and the number in it. Go compares pointers, so two
-- values are the same map key only if their addresses are the same.
pub record BigInt : Type 0 where
  pub addr : ℕ
  pub value : ℤ

pub record Message : Type 0 where
  pub dst : Text
  pub src : Text
  pub sn : BigInt
  pub bytes : Text
  pub message_height : ℕ
  pub event_type : Text
  pub req_id : Option ℤ

pub record BlockInfo : Type 0 where
  pub height : ℕ
  pub messages : List Message

-- `last_try` counts nanoseconds from Go's zero time, so 0 is the time for which `IsZero` holds.
pub record RouteMessage : Type 0 where
  pub message : Message
  pub retry : ℕ
  pub processing : Bool
  pub last_try : ℕ

unfoldable pub new_route_message : Message → RouteMessage
new_route_message m = record { message = m; retry = 0; processing = false; last_try = 0 }

pub record MessageKey : Type 0 where
  pub sn : BigInt
  pub src : Text
  pub dst : Text
  pub event_type : Text

unfoldable pub new_message_key : BigInt → Text → Text → Text → MessageKey
new_message_key sn src dst event_type = record {
  sn = sn;
  src = src;
  dst = dst;
  event_type = event_type;
}

unfoldable pub message_key : Message → MessageKey
unfolding new_message_key
message_key m = new_message_key m.sn m.src m.dst m.event_type

-- The comparison of two `MessageKey` values as map keys.
unfoldable pub key_eq : MessageKey → MessageKey → Bool
key_eq a b =
    a.sn.addr == b.sn.addr
    && (text_eq a.src b.src && (text_eq a.dst b.dst && text_eq a.event_type b.event_type))

pub record MessageKeyWithMessageHeight : Type 0 where
  pub key : MessageKey
  pub height : ℕ

pub record TransactionObject : Type 0 where
  pub message_key : MessageKeyWithMessageHeight
  pub tx_hash : Text
  pub tx_height : ℕ

unfoldable pub new_transaction_object : MessageKeyWithMessageHeight → Text → ℕ → TransactionObject
new_transaction_object key tx_hash height = record {
  message_key = key;
  tx_hash = tx_hash;
  tx_height = height;
}

pub record Receipt : Type 0 where
  pub tx_hash : Text
  pub height : ℕ
  pub status : Bool

pub data ResponseCode : Type 0 where
  failed success : ResponseCode

pub record TxResponse : Type 0 where
  pub height : ℕ
  pub tx_hash : Text
  pub code : ResponseCode
