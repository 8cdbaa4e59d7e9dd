-- ===== src/Types/Contracts.antt =====
-- `ContractConfigMap` and `EventMap` of relayer/types/types.go.
use centralized_relay.Common.{
  Text, codes, List, [], ◌∷◌, Option, none, some, text_eq, if◌then◌else◌, Result, ok,
}

abbrev pub xcall_contract : Text
xcall_contract = codes "xcall"

abbrev pub connection_contract : Text
connection_contract = codes "connection"

-- A Go map with text keys, in one of the orders in which `range` may visit it.
abbrev pub TextMap : Type 0 → Type 0
TextMap V = List (Text × V)

unfoldable pub lookup : {V : Type 0} → Text → TextMap V → Option V
lookup k [] = none
lookup k ((j, v) ∷ m) = if text_eq j k then some v else lookup k m

pub record EventMap : Type 0 where
  pub address : Text
  pub contract_name : Text
  pub sig_type : TextMap Text

-- `GetWasmMsgType`: the first key that `range` visits.
unfoldable pub get_wasm_msg_type : EventMap → Text
get_wasm_msg_type m = elim m.sig_type [ [] ↦ [] | (t, name) ∷ rest ↦ t ]

abbrev pub supported_contracts : List Text
supported_contracts = xcall_contract ∷ connection_contract ∷ []

-- The loop of `Validate`: every branch goes on.
unfoldable pub validate_from : List Text → TextMap Text → Result (Unit {0})
unfolding lookup
validate_from [] c = ok tt
validate_from (contract ∷ rest) c =
    let next = validate_from rest c in
    elim (lookup contract c) [ none ↦ next | some val ↦ if text_eq val [] then next else next ]

unfoldable pub validate_contracts : TextMap Text → Result (Unit {0})
unfolding validate_from
validate_contracts c = validate_from supported_contracts c
