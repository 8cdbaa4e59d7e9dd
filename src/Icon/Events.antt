-- ===== src/Icon/Events.antt =====
-- How the event logs of the ICON contracts become messages: relayer/chains/icon/events.go,
-- event_parse.go and listener.go.
pub mod Shapes
pub mod Laws
use centralized_relay.Common.{
  ℕ, zero, suc, ◌+◌, ◌%◌, ◌^◌, List, [], ◌∷◌, ◌++◌, Option, none, some, Bool, not, ◌&&◌, Text,
  codes, text_eq, length, map, ℤ, pos, negsuc, ltb_ℤ, ltb, leb, ◌==◌, if◌then◌else◌, Result, ok,
  err, Error, Run, returns, fails, ◌>>!◌, lift, at, unexpected_event_shape, int64_of,
}
use centralized_relay.Events
use centralized_relay.Types.Message.{BigInt, Message, BlockInfo}
use centralized_relay.Types.Contracts.{TextMap, EventMap, xcall_contract, connection_contract}
use centralized_relay.Types.EventMaps.{event_map_onto, get_event_name}
use centralized_relay.Icon.Types.{big_int, hex_bytes_value, hex_int_value, new_hex_int}

abbrev pub emit_message_sig : Text
emit_message_sig = codes "Message(str,int,bytes)"

abbrev pub call_message_sig : Text
call_message_sig = codes "CallMessage(str,str,int,int,bytes)"

abbrev pub rollback_message_sig : Text
rollback_message_sig = codes "RollbackMessage(int)"

-- The signatures that a contract of the configuration emits, with their event types.
abbrev pub signatures : Text → TextMap Text
signatures name =
    if text_eq name xcall_contract
    then (call_message_sig, Events.call_message)
      ∷ (rollback_message_sig, Events.rollback_message)
      ∷ []
    else if text_eq name connection_contract
    then (emit_message_sig, Events.emit_message) ∷ []
    else []

unfoldable pub event_map : TextMap Text → TextMap EventMap
unfolding event_map_onto
event_map contracts = event_map_onto signatures [] contracts

pub record EventFilter : Type 0 where
  pub addr : Text
  pub signature : Text

unfoldable pub contract_filters : Text → TextMap Text → List EventFilter
contract_filters addr [] = []
contract_filters addr ((sig, name) ∷ rest) =
    record { addr = addr; signature = sig } ∷ contract_filters addr rest

unfoldable pub get_monitor_event_filters : TextMap EventMap → List EventFilter
unfolding contract_filters
get_monitor_event_filters [] = []
get_monitor_event_filters ((addr, contract) ∷ rest) =
    contract_filters addr contract.sig_type ++ get_monitor_event_filters rest

pub record EventLog : Type 0 where
  pub addr : Text
  pub indexed : List Text
  pub contents : List Text

pub record EventNotification : Type 0 where
  pub height : Text
  pub logs : List EventLog
  pub progress : Text

-- `x.Uint64()` of a big integer.
abbrev pub uint64 : ℤ → ℕ
uint64 (pos n) = n % 2 ^ 64
uint64 (negsuc n) = suc n % 2 ^ 64

-- `strings.SplitN(s, "/", 2)[0]`
unfoldable pub before_slash : Text → Text
before_slash [] = []
before_slash (c ∷ s) = let rest = before_slash s in if c == b'/' then [] else c ∷ rest

-- The guards that join both tests by "and".
abbrev pub is_misshapen : ℕ → ℕ → EventLog → Bool
is_misshapen indexed contents e =
    not (length e.indexed == indexed) && not (length e.contents == contents)

-- A `new(big.Int)` has an address of its own, which is an argument of the functions that make one
-- for a message.
module _ (nid : Text) (contracts : TextMap EventMap) where
  unfoldable pub parse_emit_message_event : ℕ → ℕ → EventLog → Run Message
  unfolding get_event_name
  parse_emit_message_event new height e =
      if is_misshapen 3 1 e
      then fails unexpected_event_shape
      else (at e.indexed 1 >>! λ dst. at e.indexed 2 >>! λ raw_sn. lift (big_int raw_sn) >>! λ sn.
          at e.contents 0 >>! λ raw. hex_bytes_value raw >>! λ contents. at e.indexed 0 >>! λ sig.
          returns (record {
            dst = dst;
            src = nid;
            sn = record { addr = new; value = sn };
            bytes = contents;
            message_height = height;
            event_type = get_event_name contracts sig;
            req_id = none;
          }))

  unfoldable pub parse_call_message_event : ℕ → ℕ → EventLog → Run Message
  unfolding get_event_name
  parse_call_message_event new height e =
      if is_misshapen 4 2 e
      then fails unexpected_event_shape
      else (at e.indexed 1 >>! λ from. at e.indexed 3 >>! λ raw_sn. lift (big_int raw_sn) >>! λ sn.
          at e.contents 0 >>! λ raw_req. lift (big_int raw_req) >>! λ req_id.
          at e.contents 1 >>! λ raw. hex_bytes_value raw >>! λ contents. at e.indexed 0 >>! λ sig.
          returns (record {
            dst = nid;
            src = before_slash from;
            sn = record { addr = new; value = sn };
            bytes = contents;
            message_height = height;
            event_type = get_event_name contracts sig;
            req_id = some req_id;
          }))

  unfoldable pub parse_rollback_message_event : ℕ → ℕ → EventLog → Run Message
  unfolding get_event_name
  parse_rollback_message_event new height e =
      if not (length e.indexed == 2)
      then fails unexpected_event_shape
      else (at e.indexed 1 >>! λ raw_sn. lift (big_int raw_sn) >>! λ sn. at e.indexed 0 >>! λ sig.
          returns (record {
            dst = nid;
            src = nid;
            sn = record { addr = new; value = sn };
            bytes = [];
            message_height = height;
            event_type = get_event_name contracts sig;
            req_id = none;
          }))

  -- The message of a log, if its signature is known.
  unfoldable pub parse_event : ℕ → ℕ → Text → EventLog → Run (Option Message)
  unfolding parse_emit_message_event parse_call_message_event parse_rollback_message_event
  parse_event new height sig e =
      if text_eq sig emit_message_sig
      then (parse_emit_message_event new height e >>! λ m. returns (some m))
      else if text_eq sig call_message_sig
      then (parse_call_message_event new height e >>! λ m. returns (some m))
      else if text_eq sig rollback_message_sig
      then (parse_rollback_message_event new height e >>! λ m. returns (some m))
      else returns none

  abbrev pub cons_message : Option Message → List Message → List Message
  cons_message none ms = ms
  cons_message (some m) ms = m ∷ ms

  -- The loop of `parseMessageEvent`.
  unfoldable pub parse_events : ℕ → ℕ → List EventLog → Run (List Message)
  unfolding parse_event
  parse_events new height [] = returns []
  parse_events new height (e ∷ es) =
      let rest = parse_events (suc new) height es in
      at e.indexed 0 >>! λ sig.
      parse_event new height sig e >>! λ m. rest >>! λ ms. returns (cons_message m ms)

  unfoldable pub parse_message_event : ℕ → EventNotification → Run (List Message)
  unfolding parse_events
  parse_message_event new n =
      lift (big_int n.height) >>! λ height. parse_events new (uint64 height) n.logs

  -- The callback of `MonitorEvent`: the height that the request goes on from, and the blocks that are
  -- sent.
  unfoldable pub on_progress : Text → ℤ × Option Error → Run (Text × List BlockInfo)
  on_progress requested (height, some e) = fails e
  on_progress requested (height, none) =
      if ltb_ℤ (pos 0) height then returns (new_hex_int height, []) else returns (requested, [])

  unfoldable pub on_notification : ℕ → Text → EventNotification → Run (Text × List BlockInfo)
  unfolding on_progress parse_message_event
  on_notification new requested n =
      if not (text_eq n.progress [])
      then on_progress requested (hex_int_value n.progress)
      else (parse_message_event new n >>! λ ms.
          returns
            (requested, map (λ m. record { height = m.message_height; messages = m ∷ [] }) ms))

-- `StartFromHeight` for the configured start and the saved height, and the latest height that is
-- read.
unfoldable pub start_height_of : ℕ → ℕ → ℕ → ℕ
start_height_of configured saved latest =
    if not (configured == 0) && ltb configured latest
    then configured
    else if not (saved == 0) && ltb saved latest
    then saved
    else latest

unfoldable pub start_from_height : ℕ → ℕ → Result ℕ → Result ℤ
unfolding start_height_of
start_from_height configured saved (ok latest) =
    ok (int64_of (start_height_of configured saved latest))
start_from_height configured saved (err e) = err e
