-- ===== src/Tests/Evms.antt =====
-- An EVM chain with one log, and runs of its provider (relayer/chains/evm).
use centralized_relay.Common.{
  ℕ, zero, suc, ◌-◌, ◌*◌, ◌^◌, ◌≤◌, ◌<◌, ◌≡◌, refl, List, [], ◌∷◌, none, true, false, Text, codes,
  text_eq, Result, Error, ok, err, external, ◌++◌, In, inl, ◌⊎◌, arith,
}
use centralized_relay.Types.Message.{Message, MessageKeyWithMessageHeight}
use centralized_relay.Types.EventMaps.{get_event_name}
use centralized_relay.Evm.Listen.{ListenerState, timer, failure, run_listener}
use centralized_relay.Evm.Listen.Laws.{run_listener_recovers}
use centralized_relay.Evm.Heights.{
  start_from_height, start_height_of, block_requests, get_logs_retry, max_retry_interval,
}
use centralized_relay.Evm.Heights.Laws.{
  start_from_height_final, Tiles, block_requests-Tiles, info_of,
}
use centralized_relay.Evm.Heights.Retry.{IsFirst, get_logs_retry-IsFirst}
use centralized_relay.Evm.Logs.{
  EvmClient, Log, generate_messages, find_messages, get_relay_message_from_log, parse_topic,
  emit_message_sig,
}
use centralized_relay.Evm.Logs.Laws.{Matches, generate_messages-Matches}
use centralized_relay.Evm.Route.{
  GasConfig, Poll, found, not_found, Node, send_transaction, send_estimated, submit_call,
  contract_call, route,
}
use centralized_relay.Evm.Route.Laws.{Reports, route-Reports}
use centralized_relay.Tests.World.{icon, eth, hello, hello_key, serial}

start_150 : start_from_height 0 10 150 (ok 200) ≡ ok 150
unfolding start_from_height start_height_of
start_150 = refl

abbrev saved : ℕ
saved = 150

abbrev unset : ℕ
unset = 0

start_from_height_final_example :
    (saved ≤ 200 - 10)
    × ((saved ≡ unset) ⊎ ((saved ≡ saved) ⊎ (saved ≡ 200 - 10)))
    × (unset ≡ unset → unset < saved → saved < 200 - 10 → saved ≡ saved)
start_from_height_final_example = start_from_height_final 0 10 150 200 150 (omega arith) start_150

start_wrapped : start_from_height 0 10 0 (ok 4) ≡ ok (2 ^ 64 - 6)
unfolding start_from_height start_height_of
start_wrapped = refl

block_requests-Tiles_example : Tiles 50 100 220 (block_requests 50 220 100)
block_requests-Tiles_example = block_requests-Tiles 50 220 100 (omega arith) (omega arith)

-- The first two attempts fail.
abbrev flaky : ℕ → Result ℕ
flaky zero = err (external 5)
flaky (suc zero) = err (external 5)
flaky (suc (suc i)) = ok i

get_logs_retry-IsFirst_example :
    ((a : ℕ)
      → (get_logs_retry flaky (external 0)).0 ≡ ok a
      → (i : ℕ) × (i < 5) × IsFirst flaky 0 i a)
    × ((x : Error) (i : ℕ)
        → (get_logs_retry flaky (external 0)).0 ≡ err x
        → i < 5
        → (e : Error) × (flaky i ≡ err e))
    × ((get_logs_retry flaky (external 0)).1 ≤ 5 * max_retry_interval)
get_logs_retry-IsFirst_example = get_logs_retry-IsFirst flaky (external 0)

abbrev log : Log
log = record { topics = emit_message_sig ∷ []; block_number = 100; contents = codes "hi" }

abbrev node_client : EvmClient
node_client = record {
  keccak = λ s. s;
  parse_connection_message =
      λ l. ok (record { target_network = icon; sn = serial; msg = l.contents });
  parse_call_message = λ l. err (external 6);
  parse_rollback_message = λ l. err (external 6);
  message_received = λ src sn. ok false;
  header_by_height = λ h. ok [];
  filter_logs = λ from to. ok (log ∷ []);
  transaction_receipt = λ hash. ok (100, true);
}

abbrev parsed : Message
parsed = record {
  dst = icon;
  src = eth;
  sn = serial;
  bytes = codes "hi";
  message_height = 100;
  event_type = [];
  req_id = none;
}

log-parsed : get_relay_message_from_log node_client eth [] log ≡ ok parsed
unfolding get_relay_message_from_log parse_topic get_event_name text_eq
log-parsed = refl

-- A listener whose subscription fails when the height 90 was saved.
abbrev started : ListenerState
started = record { start = 80; subscribed = 0; reconnects = 0; sent = [] }

run_listener_recovers_example :
    In
      (info_of
        (λ (l : Log). l.block_number)
        (get_relay_message_from_log node_client eth [])
        log
        parsed)
      (run_listener
        (λ (l : Log). l.block_number)
        (get_relay_message_from_log node_client eth [])
        (λ r. ok (log ∷ []))
        50
        (λ e. codes "tcp closed")
        (λ e. false)
        ((timer (ok 85) ∷ []) ++ failure (external 3) (ok tt) 90 ∷ timer (ok 220) ∷ [])
        started).sent
run_listener_recovers_example =
    run_listener_recovers (λ (l : Log). l.block_number)
      (get_relay_message_from_log node_client eth []) (λ r. ok (log ∷ [])) 50
      (λ e. codes "tcp closed") (λ e. false) (timer (ok 85) ∷ []) [] started (external 3) (ok tt) 90
      220 log parsed (omega arith) (omega arith) (omega arith) (omega arith) (omega arith)
      (λ r from to. (log ∷ [], refl, inl refl)) log-parsed

abbrev at_100 : MessageKeyWithMessageHeight
at_100 = record { key = hello_key; height = 100 }

generated : generate_messages node_client eth [] at_100 ≡ ok (parsed ∷ [])
unfolding generate_messages find_messages get_relay_message_from_log parse_topic get_event_name
    text_eq
generated = refl

generate_messages-Matches_example :
    (ls : List Log) × (node_client.filter_logs 100 100 ≡ ok ls)
    × Matches node_client eth [] ls (parsed ∷ [])
generate_messages-Matches_example =
    generate_messages-Matches node_client eth [] at_100 (parsed ∷ []) generated

abbrev pub limits : GasConfig
limits = record { gas_min = 10; gas_limit = 1000; gas_adjustment = 50 }

-- A node that has the receipt at the third poll.
abbrev late : Text → ℕ → Poll
late hash zero = not_found
late hash (suc zero) = not_found
late hash (suc (suc i)) = found (record { height = 120; status = 1 })

abbrev pub node : Node
node = record {
  suggest_options = ok tt;
  estimate_gas = λ m. ok 200;
  submit = λ c gas nonce. ok (codes "hash");
  pending_nonce = ok 5;
  poll = late;
  error_text = λ e. codes "nonce too low";
}

hello_sent : (send_transaction limits node hello 5).1 ≡ ok (codes "hash")
unfolding send_transaction send_estimated submit_call contract_call text_eq
hello_sent = refl

route-Reports_example : Reports limits node hello (route limits node hello 5).1
route-Reports_example = route-Reports limits node hello 5
