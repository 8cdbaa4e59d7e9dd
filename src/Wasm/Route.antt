-- ===== src/Wasm/Route.antt =====
-- How a message is sent to a CosmWasm chain: `Route` of relayer/chains/wasm/provider.go with the
-- sequence numbers of the wallet, the wait for the transaction, and the calls that send messages of
-- their own.
pub mod Sent
pub mod Laws
use centralized_relay.Common.{
  ℕ, zero, suc, ◌+◌, ◌%◌, ◌^◌, List, [], ◌∷◌, Option, none, some, Bool, true, false, ◌||◌, Text,
  codes, text_eq, ℤ, pos, Result, Error, ok, err, ◌>>=◌, ltb, ◌==◌, if◌then◌else◌,
  gas_limit_exceeded, gas_below_minimum, unknown_event, unknown_event_type, transaction_failed,
}
use centralized_relay.Events
use centralized_relay.Types.Message.{
  BigInt, Message, MessageKey, TxResponse, Receipt, success, failed, message_key,
}
use centralized_relay.Types.Contracts.{TextMap, xcall_contract, connection_contract}
use centralized_relay.Types.EventMaps.{value_at}
use centralized_relay.Relayer.Route.{RouteOutcome}
use centralized_relay.Evm.Route.{contains}
use centralized_relay.Wasm.Msg.{
  ExecMsg, set_admin, claim_fees, new_exec_recv_msg, new_exec_exec_msg, new_exec_revert_msg,
  new_exec_set_fee, new_exec_execute_rollback,
}

pub record GasConfig : Type 0 where
  pub min_gas_amount : ℕ
  pub max_gas_amount : ℕ

-- A call of a contract: its address and the JSON text.
pub record ExecuteContract : Type 0 where
  pub contract : Text
  pub msg : Text

-- What arrives for a transaction: its height and code, or an error of the JSON library.
pub data TxEvent : Type 0 where
  result : ℕ → ℕ → TxEvent
  unreadable : Error → TxEvent

-- The JSON library, the calls of the node, and the account of the wallet. `factory` is whether a
-- transaction is simulated and the gas it has otherwise; `broadcast` gives a code and the hash;
-- `first_event` is nothing when no event ever arrives.
pub record Node : Type 0 where
  pub marshal : ExecMsg → Result Text
  pub read_ints : Text → Result (List ℤ)
  pub factory : Result (Bool × ℕ)
  pub estimate_gas : ℕ → ExecuteContract → Result ℕ
  pub prepare : ℕ → ℕ → ExecuteContract → Result Text
  pub broadcast : Text → Result (ℕ × Text)
  pub account_sequence : Result ℕ
  pub subscribe : Text → Result (Unit {0})
  pub first_event : Text → Option TxEvent
  pub transaction_receipt : Text → Result (ℕ × ℕ)
  pub error_text : Error → Text
  pub wrong_sequence : Text

abbrev pub code_type_ok : ℕ
code_type_ok = 0

module _ (cfg : GasConfig) (addresses : TextMap Text) (node : Node) where
  unfoldable pub get_raw_contract_message : Message → Result Text
  unfolding new_exec_recv_msg new_exec_exec_msg new_exec_revert_msg new_exec_set_fee
      new_exec_execute_rollback
  get_raw_contract_message m =
      if text_eq m.event_type Events.emit_message
      then node.marshal (new_exec_recv_msg m)
      else if text_eq m.event_type Events.call_message
      then node.marshal (new_exec_exec_msg node.read_ints m)
      else if text_eq m.event_type Events.revert_message
      then node.marshal (new_exec_revert_msg m)
      else if text_eq m.event_type Events.set_admin
      then node.marshal (set_admin m.dst)
      else if text_eq m.event_type Events.claim_fee
      then node.marshal claim_fees
      else if text_eq m.event_type Events.set_fee
      then node.marshal (new_exec_set_fee m.src (some m.sn.value) m.req_id)
      else if text_eq m.event_type Events.rollback_message
      then node.marshal (new_exec_execute_rollback m.sn.value)
      else err (unknown_event_type m.event_type)

  unfoldable pub contract_of : Text → Result Text
  unfolding value_at
  contract_of event_type =
      if text_eq event_type Events.emit_message
        || (text_eq event_type Events.revert_message
            || (text_eq event_type Events.set_admin
                || (text_eq event_type Events.claim_fee || text_eq event_type Events.set_fee)))
      then ok (value_at connection_contract addresses)
      else if text_eq event_type Events.call_message || text_eq event_type Events.rollback_message
      then ok (value_at xcall_contract addresses)
      else err (unknown_event_type event_type)

  -- The gas of a transaction with the sequence number.
  unfoldable pub gas_of : ℕ → ExecuteContract → Bool × ℕ → Result ℕ
  gas_of sequence c (true, gas) = node.estimate_gas sequence c
  gas_of sequence c (false, gas) = ok gas

  unfoldable pub accepted : ℕ × Text → Result Text
  accepted (code, hash) = if code == code_type_ok then ok hash else err transaction_failed

  unfoldable pub push_with : ℕ → ExecuteContract → ℕ → Result Text
  unfolding accepted
  push_with sequence c gas =
      if ltb gas cfg.min_gas_amount
      then err (gas_below_minimum gas)
      else if ltb cfg.max_gas_amount gas
      then err (gas_limit_exceeded gas)
      else (node.prepare sequence gas c >>= λ bytes. node.broadcast bytes >>= λ r. accepted r)

  unfoldable pub prepare_and_push : ℕ → ExecuteContract → Result Text
  unfolding push_with gas_of
  prepare_and_push sequence c =
      node.factory >>= λ f. gas_of sequence c f >>= λ gas. push_with sequence c gas

  -- After the first attempt: a wrong sequence number is read anew, and the call is made again. The
  -- first part is the sequence number of the wallet.
  unfoldable pub resend : ℕ → ExecuteContract → Result Text → ℕ × Result Text
  unfolding contains prepare_and_push
  resend sequence c (ok hash) = (sequence, ok hash)
  resend sequence c (err e) =
      if contains (node.error_text e) node.wrong_sequence
      then elim node.account_sequence [
        | err x ↦ (sequence, err x)
        | ok current ↦ (current, prepare_and_push current c)
      ]
      else (sequence, err e)

  unfoldable pub call : ℕ → Message → ℕ × Result Text
  unfolding get_raw_contract_message contract_of resend
  call sequence m = elim (get_raw_contract_message m) [
    | err e ↦ (sequence, err e)
    | ok raw ↦ elim (contract_of m.event_type) [
      | err e ↦ (sequence, err e)
      | ok contract ↦
          let c : ExecuteContract = record { contract = contract; msg = raw } in
          resend sequence c (prepare_and_push sequence c)
    ]
  ]

  -- The end of `waitForTxResult`, for the event that arrives.
  unfoldable pub event_outcome : MessageKey → Text → TxEvent → RouteOutcome
  event_outcome key hash (unreadable e) = record {
    calls = (key, record { height = 0; tx_hash = hash; code = failed }) ∷ [];
    returned = err e;
  }
  event_outcome key hash (result height code) =
      if code == code_type_ok
      then record {
        calls = (key, record { height = height; tx_hash = hash; code = success }) ∷ [];
        returned = ok tt;
      }
      else record {
        calls = (key, record { height = height; tx_hash = hash; code = failed }) ∷ [];
        returned = err transaction_failed;
      }

  -- `waitForTxResult`: it never returns when no event arrives, for the relayer's context has no
  -- deadline.
  unfoldable pub wait_for_tx_result : MessageKey → Text → Option RouteOutcome
  unfolding event_outcome
  wait_for_tx_result key hash = elim (node.subscribe hash) [
    | err e ↦ some (record {
      calls = (key, record { height = 0; tx_hash = hash; code = failed }) ∷ [];
      returned = err e;
    })
    | ok _ ↦ elim (node.first_event hash) [ none ↦ none | some e ↦ some (event_outcome key hash e) ]
  ]

  -- After the call, with the sequence number that it leaves.
  unfoldable pub await_called : Message → ℕ × Result Text → ℕ × Option RouteOutcome
  unfolding wait_for_tx_result
  await_called m (sequence, err e) = (sequence, some (record { calls = []; returned = err e }))
  await_called m (sequence, ok hash) =
      ((sequence + 1) % 2 ^ 64, wait_for_tx_result (message_key m) hash)

  unfoldable pub route : ℕ → Message → ℕ × Option RouteOutcome
  unfolding await_called call
  route sequence m = await_called m (call sequence m)

  -- The calls that send a message of their own: `RevertMessage`, `SetFee`, `ClaimFee`, `SetAdmin` and
  -- `ExecuteRollback` differ in the message, and do not count the sequence number on.
  unfoldable pub administer : ℕ → Message → ℕ × Result (Unit {0})
  unfolding call
  administer sequence m = let called = call sequence m in (called.0, called.1 >>= λ hash. ok tt)

  unfoldable pub query_transaction_receipt : Text → Result Receipt
  query_transaction_receipt hash = node.transaction_receipt hash >>= λ (height, code).
      ok (record { tx_hash = hash; height = height; status = code == code_type_ok })

-- The message that `SetAdmin` sends: the address is its source. A missing number is not read for its
-- event type.
abbrev pub admin_message : BigInt → Text → Message
admin_message unread address = record {
  dst = [];
  src = address;
  sn = unread;
  bytes = [];
  message_height = 0;
  event_type = Events.set_admin;
  req_id = none;
}
