-- ===== src/Wasm/Events.antt =====
-- How the events of a transaction become messages: relayer/chains/wasm/events.go.
pub mod Attributes
pub mod Laws
use centralized_relay.Common.{
  ℕ, zero, suc, ◌+◌, List, [], ◌∷◌, ◌++◌, Option, none, some, Text, codes, text_eq, ℤ, set_string,
  if◌then◌else◌, Result, ok, err, Error, ◌>>=◌, invalid_hex, invalid_number, Run, returns, fails,
  panics,
}
use centralized_relay.Events
use centralized_relay.Types.Message.{BigInt, Message}
use centralized_relay.Types.Contracts.{TextMap, EventMap, xcall_contract, connection_contract}
use centralized_relay.Types.EventMaps.{event_map_onto}
use centralized_relay.Wasm.HexString.{new_from_string, to_byte}

abbrev pub event_type_message : Text
event_type_message = codes "wasm-Message"

abbrev pub event_type_call_message : Text
event_type_call_message = codes "wasm-CallMessage"

abbrev pub event_type_rollback_message : Text
event_type_rollback_message = codes "wasm-RollbackMessage"

abbrev pub key_msg : Text
key_msg = codes "msg"

abbrev pub key_target_network : Text
key_target_network = codes "targetNetwork"

abbrev pub key_conn_sn : Text
key_conn_sn = codes "connSn"

abbrev pub key_req_id : Text
key_req_id = codes "reqId"

abbrev pub key_data : Text
key_data = codes "data"

abbrev pub key_from : Text
key_from = codes "from"

abbrev pub key_sn : Text
key_sn = codes "sn"

abbrev pub key_contract_address : Text
key_contract_address = codes "_contract_address"

pub record Attribute : Type 0 where
  pub key : Text
  pub value : Text

pub record Event : Type 0 where
  pub kind : Text
  pub attributes : List Attribute

-- A message whose fields are set one after the other: its number may still be nil.
pub record Draft : Type 0 where
  pub dst : Text
  pub src : Text
  pub sn : Option BigInt
  pub bytes : Text
  pub event_type : Text
  pub req_id : Option ℤ

abbrev pub new_draft : Text → Text → Text → Draft
new_draft event_type src dst = record {
  dst = dst;
  src = src;
  sn = none;
  bytes = [];
  event_type = event_type;
  req_id = none;
}

-- A number of an attribute.
abbrev pub number_of : {A : Type 0} → Text → (ℤ → A) → Result A
number_of value f = elim (set_string value) [ some v ↦ ok (f v) | none ↦ err invalid_number ]

-- One attribute of each kind of event; a new number has the address `new`.
unfoldable pub set_emit : ℕ → Attribute → Draft → Result Draft
unfolding new_from_string to_byte set_string
set_emit new a d =
    if text_eq a.key key_msg
    then elim (to_byte (new_from_string a.value)) [
      | some b ↦ ok (record d { bytes = b })
      | none ↦ err invalid_hex
    ]
    else if text_eq a.key key_conn_sn
    then number_of a.value (λ v. record d { sn = some (record { addr = new; value = v }) })
    else if text_eq a.key key_target_network
    then ok (record d { dst = a.value })
    else if text_eq a.key key_from
    then ok (record d { src = a.value })
    else ok d

unfoldable pub set_call : ℕ → Attribute → Draft → Result Draft
unfolding set_string
set_call new a d =
    if text_eq a.key key_req_id
    then number_of a.value (λ v. record d { req_id = some v })
    else if text_eq a.key key_data
    then ok (record d { bytes = a.value })
    else if text_eq a.key key_from
    then ok (record d { src = a.value })
    else if text_eq a.key key_sn
    then number_of a.value (λ v. record d { sn = some (record { addr = new; value = v }) })
    else ok d

unfoldable pub set_rollback : ℕ → Attribute → Draft → Result Draft
unfolding set_string
set_rollback new a d =
    if text_eq a.key key_sn
    then number_of a.value (λ v. record d { sn = some (record { addr = new; value = v }) })
    else ok d

-- The inner loops.
unfoldable pub set_all : (Attribute → Draft → Result Draft) → List Attribute → Draft → Result Draft
set_all set [] d = ok d
set_all set (a ∷ as_left) d = set a d >>= λ e. set_all set as_left e

module _ (nid : Text) where
  unfoldable pub parse_event : ℕ → Event → Result (Option Draft)
  unfolding set_all set_emit set_call set_rollback
  parse_event new e =
      if text_eq e.kind event_type_message
      then (set_all (set_emit new) e.attributes (new_draft Events.emit_message nid []) >>= λ d.
          ok (some d))
      else if text_eq e.kind event_type_call_message
      then (set_all (set_call new) e.attributes (new_draft Events.call_message [] nid) >>= λ d.
          ok (some d))
      else if text_eq e.kind event_type_rollback_message
      then (set_all (set_rollback new) e.attributes (new_draft Events.rollback_message nid nid)
          >>= λ d. ok (some d))
      else ok none

  abbrev pub cons_draft : Option Draft → List Draft → List Draft
  cons_draft none ds = ds
  cons_draft (some d) ds = d ∷ ds

  -- The `n`-th event makes a number with the address `n`.
  unfoldable pub parse_message_from_events : ℕ → List Event → Result (List Draft)
  unfolding parse_event
  parse_message_from_events new [] = ok []
  parse_message_from_events new (e ∷ es) =
      let rest = parse_message_from_events (suc new) es in
      parse_event new e >>= λ o. rest >>= λ ds. ok (cons_draft o ds)

-- The message at a height; the log line that follows reads its number, so a nil one panics.
unfoldable pub complete : ℕ → Draft → Run Message
complete height d = elim d.sn [
  | none ↦ panics
  | some sn ↦ returns (record {
    dst = d.dst;
    src = d.src;
    sn = sn;
    bytes = d.bytes;
    message_height = height;
    event_type = d.event_type;
    req_id = d.req_id;
  })
]

-- The event types that a contract of the configuration emits.
abbrev pub signatures : Text → TextMap Text
signatures name =
    if text_eq name xcall_contract
    then (event_type_call_message, Events.call_message)
      ∷ (event_type_rollback_message, Events.rollback_message)
      ∷ []
    else if text_eq name connection_contract
    then (event_type_message, Events.emit_message) ∷ []
    else []

unfoldable pub event_map : TextMap Text → TextMap EventMap
unfolding event_map_onto
event_map contracts = event_map_onto signatures [] contracts

abbrev pub wasm_event_type : Text → Text
wasm_event_type name =
    if text_eq name Events.emit_message
    then event_type_message
    else if text_eq name Events.call_message
    then event_type_call_message
    else if text_eq name Events.rollback_message
    then event_type_rollback_message
    else []

abbrev pub quoted : Text → Text
quoted t = b'\'' ∷ t ++ b'\'' ∷ []

unfoldable pub contract_events : Text → TextMap Text → List Event
contract_events addr [] = []
contract_events addr ((sig, name) ∷ rest) =
    record {
      kind = wasm_event_type name;
      attributes = record { key = key_contract_address; value = quoted addr } ∷ [];
    }
    ∷ contract_events addr rest

unfoldable pub get_monitor_event_filters : TextMap EventMap → List Event
unfolding contract_events
get_monitor_event_filters [] = []
get_monitor_event_filters ((addr, contract) ∷ rest) =
    contract_events addr contract.sig_type ++ get_monitor_event_filters rest
