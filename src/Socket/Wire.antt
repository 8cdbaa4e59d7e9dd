-- ===== src/Socket/Wire.antt =====
-- The requests and responses of relayer/socket/types.go and the events of relayer/socket/client.go.
use centralized_relay.Common.{ℕ, Bool, List, Option, Text, codes}
use centralized_relay.Types.Message.{BigInt, RouteMessage}
use centralized_relay.Store.Pagination.{Pagination}
use centralized_relay.Store.Codec.{Codec}

abbrev pub event_get_block : Text
event_get_block = codes "GetBlock"

abbrev pub event_get_message_list : Text
event_get_message_list = codes "GetMessageList"

abbrev pub event_relay_message : Text
event_relay_message = codes "RelayMessage"

abbrev pub event_message_remove : Text
event_message_remove = codes "MessageRemove"

abbrev pub event_prune_db : Text
event_prune_db = codes "PruneDB"

abbrev pub event_revert_message : Text
event_revert_message = codes "RevertMessage"

abbrev pub event_error : Text
event_error = codes "Error"

abbrev pub event_get_fee : Text
event_get_fee = codes "GetFee"

abbrev pub event_set_fee : Text
event_set_fee = codes "SetFee"

abbrev pub event_claim_fee : Text
event_claim_fee = codes "ClaimFee"

pub record SocketMessage : Type 0 where
  pub event : Text
  pub payload : Text

-- A `*Pagination`, which may be nil.
pub record ReqMessageList : Type 0 where
  pub chain : Text
  pub pagination : Option Pagination

pub record ReqGetBlock : Type 0 where
  pub chain : Text
  pub is_all : Bool

pub record ReqRelayMessage : Type 0 where
  pub chain : Text
  pub sn : BigInt
  pub height : ℕ

pub record ReqMessageRemove : Type 0 where
  pub chain : Text
  pub sn : BigInt

pub record ResMessageRemove : Type 0 where
  pub sn : BigInt
  pub chain : Text
  pub dst : Text
  pub height : ℕ
  pub event : Text

pub record ResMessageList : Type 0 where
  pub messages : List RouteMessage
  pub total : ℕ

pub record ResGetBlock : Type 0 where
  pub chain : Text
  pub height : ℕ

pub record ResRelayMessage : Type 0 where
  pub route_message : RouteMessage

pub record ReqPruneDb : Type 0 where
  pub chain : Text

pub record ReqRevertMessage : Type 0 where
  pub chain : Text
  pub sn : ℕ

pub record ResRevertMessage : Type 0 where
  pub sn : ℕ

pub record ReqGetFee : Type 0 where
  pub chain : Text
  pub network : Text
  pub response : Bool

pub record ResGetFee : Type 0 where
  pub chain : Text
  pub fee : ℕ
  pub response : Bool

pub record ReqSetFee : Type 0 where
  pub chain : Text
  pub network : Text
  pub msg_fee : Option BigInt
  pub res_fee : Option BigInt

pub record ReqClaimFee : Type 0 where
  pub chain : Text

-- `ResPruneDB`, `ResSetFee` and `ResClaimFee`.
pub record ResStatus : Type 0 where
  pub status : Text

-- The JSON library for each of these types.
pub record Wire : Type 0 where
  pub message : Codec SocketMessage
  pub req_message_list : Codec ReqMessageList
  pub req_get_block : Codec ReqGetBlock
  pub req_relay_message : Codec ReqRelayMessage
  pub req_message_remove : Codec ReqMessageRemove
  pub res_message_remove : Codec ResMessageRemove
  pub res_message_list : Codec ResMessageList
  pub res_get_block : Codec (List ResGetBlock)
  pub res_relay_message : Codec ResRelayMessage
  pub req_prune_db : Codec ReqPruneDb
  pub req_revert_message : Codec ReqRevertMessage
  pub res_revert_message : Codec ResRevertMessage
  pub req_get_fee : Codec ReqGetFee
  pub res_get_fee : Codec ResGetFee
  pub req_set_fee : Codec ReqSetFee
  pub req_claim_fee : Codec ReqClaimFee
  pub res_status : Codec ResStatus
