-- ===== src/Evm/Route.antt =====
-- How a message is sent to an EVM chain: relayer/chains/evm/route.go, and the calls of provider.go
-- that send messages of their own.
pub mod Laws
pub mod Delivery
use centralized_relay.Common.{
  ℕ, zero, suc, ◌+◌, ◌*◌, ◌/◌, ◌%◌, ◌^◌, List, [], ◌∷◌, ◌++◌, Option, none, some, Bool, true, false,
  Text, codes, text_eq, has_prefix, ℤ, Result, Error, ok, err, ◌>>=◌, ltb, leb, ◌==◌,
  gas_limit_exceeded, gas_below_minimum, unknown_event_type, transaction_failed, receipt_timeout,
  if◌then◌else◌,
}
use centralized_relay.Events
use centralized_relay.Types.Message.{
  BigInt, Message, MessageKey, TxResponse, success, failed, message_key,
}
use centralized_relay.Relayer.Route.{RouteOutcome}

-- `strings.Contains`
unfoldable pub contains : Text → Text → Bool
contains [] part = has_prefix part []
contains (c ∷ s) part = if has_prefix part (c ∷ s) then true else contains s part

-- What `parseErr` makes of an error's text.
pub data EvmError : Type 0 where
  limit_less_than_gas less_gas nonce_too_low nonce_too_high unknown : EvmError

unfoldable pub parse_err : Text → EvmError
unfolding contains
parse_err msg =
    if contains msg (codes "max fee per gas less than block base fee")
    then limit_less_than_gas
    else if contains msg (codes "transaction underpriced")
    then less_gas
    else if contains msg (codes "nonce too low")
    then nonce_too_low
    else if contains msg (codes "nonce too high")
    then nonce_too_high
    else unknown

-- A call of a contract, as `SendTransaction` makes it from a message.
pub data ContractCall : Type 0 where
  receive_message : Text → BigInt → Text → ContractCall
  execute_call : Option ℤ → Text → ContractCall
  set_admin : Text → ContractCall
  revert_message : BigInt → ContractCall
  claim_fee : ContractCall
  set_fee : Text → BigInt → Option ℤ → ContractCall
  execute_rollback : BigInt → ContractCall

unfoldable pub contract_call : Message → Result ContractCall
contract_call m =
    if text_eq m.event_type Events.emit_message
    then ok (receive_message m.src m.sn m.bytes)
    else if text_eq m.event_type Events.call_message
    then ok (execute_call m.req_id m.bytes)
    else if text_eq m.event_type Events.set_admin
    then ok (set_admin m.src)
    else if text_eq m.event_type Events.revert_message
    then ok (revert_message m.sn)
    else if text_eq m.event_type Events.claim_fee
    then ok claim_fee
    else if text_eq m.event_type Events.set_fee
    then ok (set_fee m.src m.sn m.req_id)
    else if text_eq m.event_type Events.rollback_message
    then ok (execute_rollback m.sn)
    else err (unknown_event_type m.event_type)

pub record GasConfig : Type 0 where
  pub gas_min : ℕ
  pub gas_limit : ℕ
  pub gas_adjustment : ℕ

pub record EvmReceipt : Type 0 where
  pub height : ℕ
  pub status : ℕ

pub data Poll : Type 0 where
  found : EvmReceipt → Poll
  not_found : Poll
  broken : Error → Poll

-- The calls of the node: the options of a transaction (with the wallet's next nonce), the estimate,
-- a call with a gas limit and a nonce, the pending nonce, and the `i`-th poll for a receipt.
pub record Node : Type 0 where
  pub suggest_options : Result (Unit {0})
  pub estimate_gas : Message → Result ℕ
  pub submit : ContractCall → ℕ → ℕ → Result Text
  pub pending_nonce : Result ℕ
  pub poll : Text → ℕ → Poll
  pub error_text : Error → Text

abbrev pub maximum_poll_try : ℕ
maximum_poll_try = 15

abbrev pub receipt_successful : ℕ
receipt_successful = 1

-- `opts.GasLimit`, in uint64 arithmetic.
abbrev pub adjusted : GasConfig → ℕ → ℕ
adjusted cfg gas = (gas + (gas * cfg.gas_adjustment) % 2 ^ 64 / 100) % 2 ^ 64

module _ (cfg : GasConfig) (node : Node) where
  -- After an error of the call: the nonce is read anew if the error is about nonces or prices, and
  -- an error is returned in any case.
  unfoldable pub nonce_retry : EvmError → Error → ℕ → Option ℕ × Result Text
  nonce_retry limit_less_than_gas e nonce = (none, err e)
  nonce_retry unknown e nonce = (none, err e)
  nonce_retry _ e nonce = elim node.pending_nonce [
    | ok current ↦ (some current, err e)
    | err x ↦ (none, err x)
  ]

  -- The call of the contract, with the nonce of the options.
  unfoldable pub submit_call : Result ContractCall → ℕ → ℕ → Option ℕ × Result Text
  unfolding nonce_retry parse_err
  submit_call (err e) gas nonce = (none, err e)
  submit_call (ok c) gas nonce = elim (node.submit c gas nonce) [
    | ok hash ↦ (none, ok hash)
    | err e ↦ nonce_retry (parse_err (node.error_text e)) e nonce
  ]

  -- The line that is logged before the call is left out; it panics when the tip or the number is nil
  -- (`send_logged` of Evm.Options).
  unfoldable pub send_estimated : ℕ → Message → ℕ → Option ℕ × Result Text
  unfolding submit_call contract_call
  send_estimated gas m nonce =
      if ltb cfg.gas_limit gas
      then (none, err (gas_limit_exceeded gas))
      else if ltb gas cfg.gas_min
      then (none, err (gas_below_minimum gas))
      else submit_call (contract_call m) (adjusted cfg gas) nonce

  -- The nonce that the tracker is set to, if it is, and the hash of the transaction.
  unfoldable pub send_transaction : Message → ℕ → Option ℕ × Result Text
  unfolding send_estimated
  send_transaction m nonce = elim (node.estimate_gas m) [
    | err e ↦ (none, err e)
    | ok gas ↦ send_estimated gas m nonce
  ]

  -- The loop of `WaitForResults`, with `left` polls to go; the context is not cancelled.
  unfoldable pub wait_from : Text → ℕ → ℕ → Result EvmReceipt
  wait_from hash zero counter = err (receipt_timeout counter)
  wait_from hash (suc left) counter = elim (node.poll hash counter) [
    | found r ↦ ok r
    | broken e ↦ err e
    | not_found ↦ wait_from hash left (counter + 1)
  ]

  unfoldable pub wait_for_results : Text → Result EvmReceipt
  unfolding wait_from
  wait_for_results hash = wait_from hash maximum_poll_try 0

  -- `WaitForTxResult`: the calls of the callback, and what is returned.
  unfoldable pub tx_outcome : MessageKey → Text → Result EvmReceipt → RouteOutcome
  tx_outcome key hash (err e) = record {
    calls = (key, record { height = 0; tx_hash = hash; code = failed }) ∷ [];
    returned = err e;
  }
  tx_outcome key hash (ok r) =
      if r.status == receipt_successful
      then record {
        calls = (key, record { height = r.height; tx_hash = hash; code = success }) ∷ [];
        returned = ok tt;
      }
      else record {
        calls = (key, record { height = r.height; tx_hash = hash; code = failed }) ∷ [];
        returned = err transaction_failed;
      }

  -- After `SendTransaction`.
  unfoldable pub await_sent : Message → Result Text → RouteOutcome
  unfolding tx_outcome wait_for_results
  await_sent m (err e) = record { calls = []; returned = err e }
  await_sent m (ok hash) = tx_outcome (message_key m) hash (wait_for_results hash)

  -- `Route`, with the nonce that the tracker gave for it.
  unfoldable pub route : Message → ℕ → Option ℕ × RouteOutcome
  unfolding await_sent send_transaction
  route m nonce = elim node.suggest_options [
    | err e ↦ (none, record { calls = []; returned = err e })
    | ok _ ↦ let sent = send_transaction m nonce in (sent.0, await_sent m sent.1)
  ]

  -- The end of `RevertMessage`, `SetFee` and `ExecuteRollback`, whose messages have a number.
  unfoldable pub confirm : Result Text → Result (Unit {0})
  unfolding wait_for_results
  confirm sent = sent >>= λ hash.
      wait_for_results hash >>= λ r. if r.status == 1 then ok tt else err transaction_failed

  unfoldable pub administer : Message → ℕ → Option ℕ × Result (Unit {0})
  unfolding confirm send_transaction
  administer m nonce = elim node.suggest_options [
    | err e ↦ (none, err e)
    | ok _ ↦ let sent = send_transaction m nonce in (sent.0, confirm sent.1)
  ]
