-- ===== src/Evm/Calls.antt =====
-- The bytes of an EVM transaction: EstimateGas of relayer/chains/evm/provider.go, the wrappers of
-- client.go, and the methods of the bindings in abi/ that they call.
pub mod Laws
use centralized_relay.Common.{
  ℕ, List, [], ◌∷◌, Option, none, some, Text, codes, text_eq, ℤ, Result, ok, err, ◌>>=◌,
  if◌then◌else◌,
}
use centralized_relay.Events
use centralized_relay.Types.Message.{BigInt, Message}
use centralized_relay.Types.Contracts.{TextMap, connection_contract, xcall_contract}
use centralized_relay.Types.EventMaps.{value_at}
use centralized_relay.Evm.Route.{
  ContractCall, receive_message, execute_call, set_admin, revert_message, claim_fee, set_fee,
  execute_rollback, Node,
}

-- An argument of a contract's method, as the code hands it over.
pub data Argument : Type 0 where
  text_argument : Text → Argument
  address_argument : Text → Argument
  bytes_argument : Text → Argument
  number_argument : BigInt → Argument
  integer_argument : Option ℤ → Argument

pub record MethodCall : Type 0 where
  pub contract : Text
  pub method : Text
  pub arguments : List Argument

abbrev pub method_set_admin : Text
method_set_admin = codes "setAdmin"

-- The methods of the bindings, each with its arguments.
abbrev pub bound_recv_message : Text → BigInt → Text → MethodCall
bound_recv_message src sn msg = record {
  contract = connection_contract;
  method = codes "recvMessage";
  arguments = text_argument src ∷ number_argument sn ∷ bytes_argument msg ∷ [];
}

abbrev pub bound_execute_call : Option ℤ → Text → MethodCall
bound_execute_call req_id msg = record {
  contract = xcall_contract;
  method = codes "executeCall";
  arguments = integer_argument req_id ∷ bytes_argument msg ∷ [];
}

abbrev pub bound_set_admin : Text → MethodCall
bound_set_admin address = record {
  contract = connection_contract;
  method = method_set_admin;
  arguments = address_argument address ∷ [];
}

abbrev pub bound_revert_message : BigInt → MethodCall
bound_revert_message sn = record {
  contract = connection_contract;
  method = codes "revertMessage";
  arguments = number_argument sn ∷ [];
}

abbrev pub bound_claim_fees : MethodCall
bound_claim_fees = record {
  contract = connection_contract;
  method = codes "claimFees";
  arguments = [];
}

abbrev pub bound_set_fee : Text → BigInt → Option ℤ → MethodCall
bound_set_fee src sn req_id = record {
  contract = connection_contract;
  method = codes "setFee";
  arguments = text_argument src ∷ number_argument sn ∷ integer_argument req_id ∷ [];
}

abbrev pub bound_execute_rollback : BigInt → MethodCall
bound_execute_rollback sn = record {
  contract = xcall_contract;
  method = codes "executeRollback";
  arguments = number_argument sn ∷ [];
}

-- The calls that the methods of the client make; `SendTransaction` has turned the text of an admin into
-- an address.
unfoldable pub bound_call : (Text → Text) → ContractCall → MethodCall
bound_call to_address (receive_message src sn msg) = bound_recv_message src sn msg
bound_call to_address (execute_call req_id msg) = bound_execute_call req_id msg
bound_call to_address (set_admin admin) = bound_set_admin (to_address admin)
bound_call to_address (revert_message sn) = bound_revert_message sn
bound_call to_address claim_fee = bound_claim_fees
bound_call to_address (set_fee src sn req_id) = bound_set_fee src sn req_id
bound_call to_address (execute_rollback sn) = bound_execute_rollback sn

-- The switch of `EstimateGas`, which has no default case.
unfoldable pub estimated_call : Message → Option MethodCall
estimated_call m =
    if text_eq m.event_type Events.emit_message
    then some (record {
      contract = connection_contract;
      method = codes "recvMessage";
      arguments = text_argument m.src ∷ number_argument m.sn ∷ bytes_argument m.bytes ∷ [];
    })
    else if text_eq m.event_type Events.set_admin
    then some (record {
      contract = connection_contract;
      method = method_set_admin;
      arguments = text_argument m.src ∷ [];
    })
    else if text_eq m.event_type Events.revert_message
    then some (record {
      contract = connection_contract;
      method = codes "revertMessage";
      arguments = number_argument m.sn ∷ [];
    })
    else if text_eq m.event_type Events.claim_fee
    then some
        (record { contract = connection_contract; method = codes "claimFees"; arguments = [] })
    else if text_eq m.event_type Events.set_fee
    then some (record {
      contract = connection_contract;
      method = codes "setFee";
      arguments = text_argument m.src ∷ number_argument m.sn ∷ integer_argument m.req_id ∷ [];
    })
    else if text_eq m.event_type Events.call_message
    then some (record {
      contract = xcall_contract;
      method = codes "executeCall";
      arguments = integer_argument m.req_id ∷ bytes_argument m.bytes ∷ [];
    })
    else if text_eq m.event_type Events.rollback_message
    then some (record {
      contract = xcall_contract;
      method = codes "executeRollback";
      arguments = number_argument m.sn ∷ [];
    })
    else none

-- The Ethereum library: an address from its text, the packing of a call, and the two calls of the
-- node with the address of a contract and the packed bytes.
pub record Ethereum : Type 0 where
  pub to_address : Text → Text
  pub pack : MethodCall → Result Text
  pub estimate : Text → Text → Result ℕ
  pub transact : Text → Text → ℕ → ℕ → Result Text

module _ (ethereum : Ethereum) (contracts : TextMap Text) where
  abbrev pub address_of : Text → Text
  address_of contract = ethereum.to_address (value_at contract contracts)

  -- The end of `EstimateGas`; without a call the data are empty, for the connection.
  unfoldable pub estimate_packed : Option MethodCall → Result ℕ
  estimate_packed none = ethereum.estimate (address_of connection_contract) []
  estimate_packed (some c) =
      ethereum.pack c >>= λ bytes. ethereum.estimate (address_of c.contract) bytes

  unfoldable pub estimate_gas : Message → Result ℕ
  unfolding estimated_call estimate_packed
  estimate_gas m = estimate_packed (estimated_call m)

  -- `Transact` of the bindings, with a gas limit and a nonce.
  unfoldable pub transact_call : MethodCall → ℕ → ℕ → Result Text
  transact_call c gas nonce =
      ethereum.pack c >>= λ bytes. ethereum.transact (address_of c.contract) bytes gas nonce

  unfoldable pub submit_bound : ContractCall → ℕ → ℕ → Result Text
  unfolding transact_call bound_call
  submit_bound c gas nonce = transact_call (bound_call ethereum.to_address c) gas nonce

  -- The node as the routing sees it.
  unfoldable pub bound_node : Node → Node
  unfolding estimate_gas submit_bound
  bound_node node = record node { estimate_gas = estimate_gas; submit = submit_bound }
