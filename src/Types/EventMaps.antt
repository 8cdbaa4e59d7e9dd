-- ===== src/Types/EventMaps.antt =====
-- The event maps of the chain providers: relayer/chains/evm/events.go, and the same functions of
-- relayer/chains/icon/events.go and relayer/chains/wasm/events.go.
use centralized_relay.Common.{
  [], ◌∷◌, Option, none, some, Bool, true, false, Text, text_eq, if◌then◌else◌,
}
use centralized_relay.Types.Contracts.{TextMap, EventMap, lookup}
use centralized_relay.Chain.{put}

-- The loop of `eventMap`, for the signatures that a contract with a name emits.
unfoldable pub event_map_onto :
    (Text → TextMap Text) → TextMap EventMap → TextMap Text → TextMap EventMap
unfolding put
event_map_onto signatures out [] = out
event_map_onto signatures out ((name, addr) ∷ rest) =
    event_map_onto signatures
      (put addr (record { address = addr; contract_name = name; sig_type = signatures name }) out)
      rest

unfoldable pub get_event_name : TextMap EventMap → Text → Text
unfolding lookup
get_event_name [] sig = []
get_event_name ((addr, contract) ∷ rest) sig = elim (lookup sig contract.sig_type) [
  | some name ↦ name
  | none ↦ get_event_name rest sig
]

-- `eventName == eventType` for one of the event types of a contract.
unfoldable pub has_event : Text → TextMap Text → Bool
has_event event_type [] = false
has_event event_type ((sig, name) ∷ rest) =
    if text_eq name event_type then true else has_event event_type rest

unfoldable pub get_address_by_event_type : TextMap EventMap → Text → Option Text
unfolding has_event
get_address_by_event_type [] event_type = none
get_address_by_event_type ((addr, contract) ∷ rest) event_type =
    if has_event event_type contract.sig_type
    then some contract.address
    else get_address_by_event_type rest event_type

-- The value of a Go map with text values at a key: the empty text for a missing one.
unfoldable pub value_at : Text → TextMap Text → Text
unfolding lookup
value_at key m = elim (lookup key m) [ some v ↦ v | none ↦ [] ]
