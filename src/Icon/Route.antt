-- ===== src/Icon/Route.antt =====
-- How a message is sent to an ICON chain: relayer/chains/icon/route.go and msg.go.
pub mod Laws
use centralized_relay.Common.{
  ℕ, zero, suc, ◌+◌, List, [], ◌∷◌, ◌++◌, Option, none, some, Bool, true, false, Text, codes,
  text_eq, ℤ, pos, negsuc, Result, Error, ok, err, ◌>>=◌, Run, returns, fails, panics, ◌>>!◌, lift,
  if◌then◌else◌, ltb_ℤ, ◌+ℤ◌, ◌*ℤ◌, quotient, wrap64, bits64, int64, unknown_event_type,
  step_limit_exceeded, step_below_minimum, transaction_failed, empty_rpc_url,
}
use centralized_relay.Events
use centralized_relay.Types.Message.{
  BigInt, Message, MessageKey, TxResponse, success, failed, message_key,
}
use centralized_relay.Types.Contracts.{
  TextMap, EventMap, xcall_contract, connection_contract, validate_contracts,
}
use centralized_relay.Types.EventMaps.{get_address_by_event_type, value_at}
use centralized_relay.Relayer.Route.{RouteOutcome}
use centralized_relay.Icon.Types.{
  new_hex_int, new_hex_bytes, new_address, hex_int64, hex_int_value, hex_bytes_value,
}
use centralized_relay.Icon.Client.{
  TransactionResult, TransactionParam, CallData, Node, wait_for_results, jsonrpc_api_version,
}
use centralized_relay.Icon.Query.{whole, is_one}

pub record StepConfig : Type 0 where
  pub step_min : ℤ
  pub step_limit : ℤ
  pub step_adjustment : ℤ

-- `sanitize`
unfoldable pub sanitize : StepConfig → StepConfig
sanitize cfg = elim cfg.step_adjustment [
  | pos zero ↦ record cfg { step_adjustment = pos 50 }
  | _ ↦ cfg
]

-- `Validate`, for the endpoint and the contracts.
unfoldable pub validate_config : Text → TextMap Text → Result (Unit {0})
validate_config rpc_url contracts =
    if text_eq rpc_url [] then err empty_rpc_url else validate_contracts contracts

pub record IconMessage : Type 0 where
  pub address : Text
  pub contents : CallData

unfoldable pub new_icon_message : Text → Option (TextMap Text) → Text → IconMessage
new_icon_message address params method = record {
  address = address;
  contents = record { method = method; params = params };
}

-- `x.Int64()` of a `*big.Int` that may be nil.
abbrev pub int64_at : Option ℤ → Run ℤ
int64_at none = panics
int64_at (some v) = returns (int64 v)

abbrev pub or_empty : Option Text → Text
or_empty none = []
or_empty (some t) = t

module _ (contracts : TextMap EventMap) where
  -- The fields of the JSON object for each event type, and the method that is called.
  unfoldable pub make_icon_message : Message → Run IconMessage
  unfolding get_address_by_event_type new_icon_message
  make_icon_message m =
      let address = or_empty (get_address_by_event_type contracts m.event_type) in
      if text_eq m.event_type Events.emit_message
      then returns (
          new_icon_message address
            (some (
              (codes "srcNetwork", m.src)
              ∷ (codes "_connSn", new_hex_int (int64 m.sn.value))
              ∷ (codes "msg", new_hex_bytes m.bytes)
              ∷ []))
            (codes "recvMessage"))
      else if text_eq m.event_type Events.call_message
      then (int64_at m.req_id >>! λ req_id. returns (
          new_icon_message address
            (some
              ((codes "_reqId", new_hex_int req_id) ∷ (codes "_data", new_hex_bytes m.bytes) ∷ []))
            (codes "executeCall")))
      else if text_eq m.event_type Events.rollback_message
      then returns (
          new_icon_message address (some ((codes "_sn", new_hex_int (int64 m.sn.value)) ∷ []))
            (codes "executeRollback"))
      else if text_eq m.event_type Events.set_admin
      then returns
          (new_icon_message address (some ((codes "_relayer", m.src) ∷ [])) (codes "setAdmin"))
      else if text_eq m.event_type Events.revert_message
      then returns (
          new_icon_message address (some ((codes "_sn", new_hex_int (int64 m.sn.value)) ∷ []))
            (codes "revertMessage"))
      else if text_eq m.event_type Events.claim_fee
      then returns (new_icon_message address none (codes "claimFees"))
      else if text_eq m.event_type Events.set_fee
      then (int64_at m.req_id >>! λ response. returns (
          new_icon_message address
            (some (
              (codes "networkId", m.src)
              ∷ (codes "messageFee", new_hex_int (int64 m.sn.value))
              ∷ (codes "responseFee", new_hex_int response)
              ∷ []))
            (codes "setFee")))
      else fails (unknown_event_type m.event_type)

-- `steps += steps * p.cfg.StepAdjustment / 100` on int64.
abbrev pub adjusted_steps : StepConfig → ℤ → ℤ
adjusted_steps cfg steps = wrap64 (steps +ℤ quotient (wrap64 (steps *ℤ cfg.step_adjustment)) 100)

module _ (cfg : StepConfig) (node : Node) where
  unfoldable pub tx_param : Text → IconMessage → TransactionParam
  tx_param wallet msg = record {
    version = new_hex_int jsonrpc_api_version;
    from_address = new_address wallet;
    to_address = msg.address;
    network_id = node.network_id;
    step_limit = [];
    contents = msg.contents;
  }

  -- After the estimate: the hash of the transaction is what was signed.
  unfoldable pub send_estimated : TransactionParam → ℤ → Run Text
  send_estimated param steps =
      if ltb_ℤ cfg.step_limit steps
      then fails (step_limit_exceeded (bits64 steps))
      else if ltb_ℤ steps cfg.step_min
      then fails (step_below_minimum (bits64 steps))
      else (let limited = record param { step_limit = new_hex_int (adjusted_steps cfg steps) } in
          lift (node.sign limited) >>! λ hash.
          lift (node.send limited) >>! λ _. hex_bytes_value (new_hex_bytes hash))

  unfoldable pub send_transaction : IconMessage → Run Text
  unfolding send_estimated tx_param
  send_transaction msg = lift node.wallet >>! λ wallet.
      lift (node.estimate_step (tx_param wallet msg)) >>! λ step.
      lift (whole (hex_int64 step)) >>! λ steps. send_estimated (tx_param wallet msg) steps

  -- The first call of the callback, when the height of the result cannot be read.
  abbrev pub height_calls : MessageKey → Text → ℤ × Option Error → List (MessageKey × TxResponse)
  height_calls key hash (v, none) = []
  height_calls key hash (v, some e) =
      (key, record { height = 0; tx_hash = hash; code = failed }) ∷ []

  -- The end of `WaitForTxResult`, for the height and the status of the result.
  abbrev pub status_outcome :
      MessageKey → Text → ℕ → List (MessageKey × TxResponse) → Bool → RouteOutcome
  status_outcome key hash height before true = record {
    calls = before ++ (key, record { height = height; tx_hash = hash; code = success }) ∷ [];
    returned = ok tt;
  }
  status_outcome key hash height before false = record {
    calls = before ++ (key, record { height = height; tx_hash = hash; code = failed }) ∷ [];
    returned = err transaction_failed;
  }

  abbrev pub is_success : ℤ × Option Error → Bool
  is_success (v, none) = is_one v
  is_success (v, some e) = false

  unfoldable pub tx_outcome : MessageKey → Text → Result TransactionResult → RouteOutcome
  tx_outcome key hash (err e) = record {
    calls = (key, record { height = 0; tx_hash = hash; code = failed }) ∷ [];
    returned = err e;
  }
  tx_outcome key hash (ok r) =
      let height = hex_int_value r.block_height in
      status_outcome key hash (bits64 height.0) (height_calls key hash height)
        (is_success (hex_int64 r.status))

  -- `WaitForTxResult`, with a callback.
  unfoldable pub wait_for_tx_result : MessageKey → Text → RouteOutcome
  unfolding tx_outcome
  wait_for_tx_result key hash =
      tx_outcome key (new_hex_bytes hash) (wait_for_results node (new_hex_bytes hash))

  -- After a step of `Route` that may panic, which is `none`.
  abbrev pub outcome_after : {A : Type 0} → Run A → (A → Option RouteOutcome) → Option RouteOutcome
  outcome_after (returns a) f = f a
  outcome_after (fails e) f = some (record { calls = []; returned = err e })
  outcome_after panics f = none

  unfoldable pub route : TextMap EventMap → Message → Option RouteOutcome
  unfolding make_icon_message send_transaction wait_for_tx_result
  route contracts m = outcome_after (make_icon_message contracts m) (λ msg.
      outcome_after (send_transaction msg) (λ hash. some (wait_for_tx_result (message_key m) hash)))
