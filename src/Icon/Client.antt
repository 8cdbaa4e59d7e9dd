-- ===== src/Icon/Client.antt =====
-- What the provider of relayer/chains/icon asks of a node and of the wallet, with the polls of
-- client.go for the result of a transaction.
use centralized_relay.Common.{
  ℕ, zero, suc, ◌+◌, List, Option, Text, Result, Error, ok, err, retries_exhausted, ℤ, pos,
}
use centralized_relay.Types.Contracts.{TextMap}
use centralized_relay.Types.Retry.{max_tx_retry}
use centralized_relay.Icon.Events.{EventLog}

pub record TransactionResult : Type 0 where
  pub block_height : Text
  pub status : Text
  pub event_logs : List EventLog
  pub tx_hash : Text

-- `CallData` with its parameters as the fields of a JSON object.
pub record CallData : Type 0 where
  pub method : Text
  pub params : Option (TextMap Text)

pub record CallParam : Type 0 where
  pub from_address : Text
  pub to_address : Text
  pub contents : CallData

-- The timestamp and the signature are set by the calls that are parameters.
pub record TransactionParam : Type 0 where
  pub version : Text
  pub from_address : Text
  pub to_address : Text
  pub network_id : Text
  pub step_limit : Text
  pub contents : CallData

-- The answer to a request for the result of a transaction: `waiting` is a JSON-RPC error with one of
-- the codes pending, not found and executing.
pub data Answer : Type 0 where
  answered : TransactionResult → Answer
  waiting : Answer
  refused : Error → Answer

-- The calls of the node, the bytes of the wallet's address, and the hash that is signed.
-- `transaction_result h i` is the answer to the request `i` for the hash `h`.
pub record Node : Type 0 where
  pub wallet : Result Text
  pub network_id : Text
  pub estimate_step : TransactionParam → Result Text
  pub sign : TransactionParam → Result Text
  pub send : TransactionParam → Result (Unit {0})
  pub transaction_result : Text → ℕ → Answer
  pub last_block : Result ℕ
  pub block_by_height : Text → Result (List Text)
  pub call : CallParam → Result Text

-- `GetTransactionResult`, where every error is returned.
abbrev pub result_of : Answer → Error → Result TransactionResult
result_of (answered r) pending = ok r
result_of waiting pending = err pending
result_of (refused e) pending = err e

-- The loop of `WaitForResults`, with `left` requests to go; the context is not cancelled.
unfoldable pub wait_from : Node → Text → ℕ → ℕ → Result TransactionResult
wait_from node hash zero counter = err retries_exhausted
wait_from node hash (suc left) counter = elim (node.transaction_result hash counter) [
  | answered r ↦ ok r
  | refused e ↦ err e
  | waiting ↦ wait_from node hash left (counter + 1)
]

unfoldable pub wait_for_results : Node → Text → Result TransactionResult
unfolding wait_from
wait_for_results node hash = wait_from node hash max_tx_retry 0

abbrev pub jsonrpc_api_version : ℤ
jsonrpc_api_version = pos 3
