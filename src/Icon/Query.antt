-- ===== src/Icon/Query.antt =====
-- The queries of relayer/chains/icon/query.go, and those of provider.go.
pub mod Sources
pub mod Laws
use centralized_relay.Common.{
  ℕ, zero, suc, ◌+◌, List, [], ◌∷◌, ◌++◌, Option, none, some, Bool, true, false, not, ◌&&◌, ◌||◌,
  Text, codes, text_eq, length, ℤ, pos, ◌==◌, if◌then◌else◌, Result, ok, err, Error, Run, returns,
  fails, panics, ◌>>!◌, ◌>>=◌, lift, at, external, no_messages_found, unknown_event, int64_of,
  int64,
}
use centralized_relay.Events
use centralized_relay.Types.Message.{
  BigInt, Message, MessageKey, MessageKeyWithMessageHeight, Receipt,
}
use centralized_relay.Types.Contracts.{TextMap, EventMap, xcall_contract, connection_contract}
use centralized_relay.Types.EventMaps.{get_event_name, value_at}
use centralized_relay.Icon.Types.{big_int, hex_bytes_value, hex_int64, new_hex_int}
use centralized_relay.Icon.Events.{
  EventLog, emit_message_sig, call_message_sig, rollback_message_sig, uint64, before_slash,
}
use centralized_relay.Icon.Client.{
  TransactionResult, Answer, CallParam, Node, result_of, answered, waiting, refused,
}

-- The log of another contract, or one with other counts of values.
abbrev pub is_other : Text → ℕ → EventLog → Bool
is_other addr indexed e = not (text_eq e.addr addr) || not (length e.indexed == indexed)

-- A decoding error that is logged: the log is left out.
abbrev pub or_skip : {A : Type 0} → Run A → (A → Run (Option Message)) → Run (Option Message)
or_skip (returns a) f = f a
or_skip (fails e) f = returns none
or_skip panics f = panics

module _ (nid : Text) (addresses : TextMap Text) (contracts : TextMap EventMap) where
  unfoldable pub generate_emit : ℕ → Text → ℕ → Text → EventLog → Run (Option Message)
  unfolding get_event_name value_at
  generate_emit new src height sig e =
      if is_other (value_at connection_contract addresses) 3 e || not (length e.contents == 1)
      then returns none
      else (at e.indexed 1 >>! λ dst. at e.indexed 2 >>! λ raw_sn.
          or_skip (lift (big_int raw_sn)) (λ sn. at e.contents 0 >>! λ raw.
          or_skip (hex_bytes_value raw) (λ contents. returns (
            some (record {
              dst = dst;
              src = src;
              sn = record { addr = new; value = sn };
              bytes = contents;
              message_height = height;
              event_type = get_event_name contracts sig;
              req_id = none;
            })))))

  unfoldable pub generate_call : ℕ → ℕ → Text → EventLog → Run (Option Message)
  unfolding get_event_name value_at
  generate_call new height sig e =
      if is_other (value_at xcall_contract addresses) 4 e || not (length e.contents == 2)
      then returns none
      else (at e.indexed 1 >>! λ from. at e.indexed 3 >>! λ raw_sn. lift (big_int raw_sn) >>! λ sn.
          at e.contents 0 >>! λ raw_req. lift (big_int raw_req) >>! λ req_id.
          at e.contents 1 >>! λ raw. or_skip (hex_bytes_value raw) (λ contents. returns (
            some (record {
              dst = nid;
              src = before_slash from;
              sn = record { addr = new; value = sn };
              bytes = contents;
              message_height = height;
              event_type = get_event_name contracts sig;
              req_id = some req_id;
            }))))

  unfoldable pub generate_rollback : ℕ → ℕ → Text → EventLog → Run (Option Message)
  unfolding get_event_name value_at
  generate_rollback new height sig e =
      if is_other (value_at xcall_contract addresses) 2 e
      then returns none
      else (at e.indexed 1 >>! λ raw_sn. lift (big_int raw_sn) >>! λ sn. returns (
          some (record {
            dst = nid;
            src = nid;
            sn = record { addr = new; value = sn };
            bytes = [];
            message_height = height;
            event_type = get_event_name contracts sig;
            req_id = none;
          })))

  unfoldable pub generate_event : ℕ → Text → Text → EventLog → Run (Option Message)
  unfolding generate_emit generate_call generate_rollback
  generate_event new src block_height e = at e.indexed 0 >>! λ sig.
      lift (big_int block_height) >>! λ height.
      if text_eq sig emit_message_sig
      then generate_emit new src (uint64 height) sig e
      else if text_eq sig call_message_sig
      then generate_call new (uint64 height) sig e
      else if text_eq sig rollback_message_sig
      then generate_rollback new (uint64 height) sig e
      else returns none

  abbrev pub appended : List Message → Option Message → List Message
  appended ms none = ms
  appended ms (some m) = ms ++ m ∷ []

  -- The inner loop, after the messages `ms`; the `n`-th log makes a number with the address `n`.
  unfoldable pub generate_events :
      Text → Text → ℕ → List EventLog → List Message → Run (ℕ × List Message)
  unfolding generate_event
  generate_events src block_height new [] ms = returns (new, ms)
  generate_events src block_height new (e ∷ es) ms = generate_event new src block_height e >>! λ o.
      generate_events src block_height (suc new) es (appended ms o)

  -- The loop over the transactions of the block.
  unfoldable pub generate_transactions :
      Node → Text → ℕ → List Text → List Message → Run (List Message)
  unfolding generate_events
  generate_transactions node src new [] ms = returns ms
  generate_transactions node src new (hash ∷ hashes) ms =
      lift (result_of (node.transaction_result hash 0) (external 0)) >>! λ r.
      generate_events src r.block_height new r.event_logs ms >>! λ (after, all).
      generate_transactions node src after hashes all

  abbrev pub nonempty : List Message → Run (List Message)
  nonempty [] = fails no_messages_found
  nonempty (m ∷ ms) = returns (m ∷ ms)

  -- The key is not nil.
  unfoldable pub generate_messages : Node → ℕ → MessageKeyWithMessageHeight → Run (List Message)
  unfolding generate_transactions
  generate_messages node new key =
      lift (node.block_by_height (new_hex_int (int64_of key.height))) >>! λ hashes.
      generate_transactions node key.key.src new hashes [] >>! λ ms. nonempty ms

abbrev pub whole : ℤ × Option Error → Result ℤ
whole (v, none) = ok v
whole (v, some e) = err e

abbrev pub is_one : ℤ → Bool
is_one (pos n) = n == 1
is_one _ = false

module _ (node : Node) where
  unfoldable pub query_transaction_receipt : Text → Result Receipt
  query_transaction_receipt hash = result_of (node.transaction_result hash 0) (external 0) >>= λ r.
      big_int r.block_height >>= λ height. whole (hex_int64 r.status) >>= λ status.
      ok (record { tx_hash = hash; height = uint64 height; status = is_one status })

  unfoldable pub query_latest_height : Result ℕ
  query_latest_height = node.last_block

  -- `prepareCallParams`, for the address of the wallet.
  unfoldable pub prepare_call_params : Text → Text → Text → TextMap Text → CallParam
  prepare_call_params from method to params = record {
    from_address = from;
    to_address = to;
    contents = record { method = method; params = some params };
  }

  unfoldable pub get_fee : Text → TextMap Text → Text → Bool → Result ℕ
  unfolding prepare_call_params value_at
  get_fee from addresses network response =
      node.call (
        prepare_call_params from (codes "getFee") (value_at connection_contract addresses)
          ((codes "to", network) ∷ (codes "response", new_hex_int (pos 1)) ∷ []))
      >>= λ fee. big_int fee >>= λ v. ok (uint64 v)
