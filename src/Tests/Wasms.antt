-- ===== src/Tests/Wasms.antt =====
-- A CosmWasm chain with one transaction, runs of its provider (relayer/chains/wasm).
use centralized_relay.Common.{
  ℕ, ◌+◌, ◌%◌, ◌^◌, ◌≡◌, refl, [], ◌∷◌, Option, none, some, true, false, Text, codes, text_eq, pos,
  Result, Error, ok, err, external, leb, if◌then◌else◌, arith, List, ◌++◌, returns, set_string,
  hex_decode, has_prefix,
}
use centralized_relay.Types.Message.{Message, BlockInfo, message_key, success}
use centralized_relay.Types.Contracts.{TextMap, EventMap, lookup}
use centralized_relay.Types.EventMaps.{value_at}
use centralized_relay.Relayer.Route.{RouteOutcome}
use centralized_relay.Wasm.HexString.{new_from_string, to_byte}
use centralized_relay.Wasm.Events.{
  Attribute, Event, Draft, event_type_message, key_conn_sn, key_msg, key_target_network,
  parse_message_from_events,
}
use centralized_relay.Wasm.Events.Laws.{Reads, parse_message_from_events-Reads}
use centralized_relay.Wasm.Query.{
  QueryExpression, Queries, query, composite, next, get_query, texts, join_with, separator,
  get_query-composite, build_query,
}
use centralized_relay.Wasm.Query as Search
use centralized_relay.Wasm.Heights.{get_height_stream, Tx, Found, search_event, run_block_query}
use centralized_relay.Wasm.Heights.Laws.{Reported, run_block_query-Reported}
use centralized_relay.Wasm.Heights.Search.{
  Steps, Pages, pages_after, query_of, search_event_finds, search_event_loses,
}
use centralized_relay.Wasm.Listen.{Listening, subscribe}
use centralized_relay.Wasm.Route.{GasConfig, result, Node, route}
use centralized_relay.Wasm.Route.Sent.{IsCalled}
use centralized_relay.Wasm.Route.Laws.{wasm_route-IsCalled}
use centralized_relay.Tests.World.{icon, hello, hello_key}

abbrev attribute : Text → Text → Attribute
attribute k v = record { key = k; value = v }

abbrev event : Event
event = record {
  kind = event_type_message;
  attributes =
      attribute key_conn_sn (codes "7")
      ∷ attribute key_msg (codes "6869")
      ∷ attribute key_target_network (codes "eth")
      ∷ [];
}

abbrev draft : Draft
draft = record {
  dst = codes "eth";
  src = icon;
  sn = some (record { addr = 0; value = pos 7 });
  bytes = codes "hi";
  event_type = codes "emitMessage";
  req_id = none;
}

event_parsed : parse_message_from_events icon 0 (event ∷ []) ≡ ok (draft ∷ [])
unfolding parse_message_from_events new_from_string to_byte set_string hex_decode has_prefix text_eq
event_parsed = refl

parse_message_from_events-Reads_example : Reads icon (event ∷ []) (draft ∷ [])
parse_message_from_events-Reads_example =
    parse_message_from_events-Reads icon 0 (event ∷ []) (draft ∷ []) event_parsed

abbrev two_heights : Queries
two_heights =
    next (query (codes "a") (codes ">=") (codes "1"))
      (next (query (codes "b") [] (codes "2")) Search.done)

get_query-composite_example :
    get_query (composite false two_heights) ≡ join_with (separator false) (texts two_heights)
get_query-composite_example = get_query-composite false two_heights

two_heights_text : get_query (composite false two_heights) ≡ codes "a>=1 AND b=2"
unfolding get_query text_eq
two_heights_text = refl

abbrev tx : Tx
tx = record { height = 12; events = event ∷ [] }

-- A node that has one transaction for every search.
abbrev one : Found
one = record { txs = tx ∷ []; total = 1 }

abbrev finds_one : Text → Option ℕ → Result Found
finds_one q page = ok one

abbrev block : BlockInfo
block = record { height = 19; messages = hello_12 ∷ [] }
  where
    hello_12 : Message
    hello_12 = record {
      dst = codes "eth";
      src = icon;
      sn = record { addr = 0; value = pos 7 };
      bytes = codes "hi";
      message_height = 12;
      event_type = codes "emitMessage";
      req_id = none;
    }

caught_up : run_block_query icon finds_one (event ∷ []) 10 10 15 ≡ returns (block ∷ [], 16)
unfolding run_block_query new_from_string to_byte set_string hex_decode has_prefix text_eq
caught_up = refl

run_block_query-Reported_example :
    Steps 10 10 15 (get_height_stream 10 10 15)
    × Reported icon finds_one (event ∷ []) 0 (get_height_stream 10 10 15) (block ∷ [])
    × (16 ≡ 15 + 1)
run_block_query-Reported_example =
    run_block_query-Reported icon finds_one (event ∷ []) 10 10 15 16 (block ∷ []) (omega arith)
      (omega arith) caught_up

-- A node that has 30 transactions, some of them on its first page and some on its second.
abbrev thirty : Found
thirty = record { txs = tx ∷ []; total = 30 }

abbrev two_pages : Text → Option ℕ → Result Found
two_pages q none = ok thirty
two_pages q (some page) = if leb page 2 then ok thirty else err (external 4)

all_found : search_event icon two_pages 10 19 event ≡ ok (tx ∷ tx ∷ [])
unfolding search_event
all_found = refl

search_event_finds_example :
    (first : Found) × (rest : List Tx) × (two_pages (query_of icon two_pages 10 19 event) none
      ≡ ok first)
    × ((tx ∷ tx ∷ []) ≡ first.txs ++ rest)
    × Pages icon two_pages
        (query_of icon two_pages 10 19 event)
        (pages_after icon two_pages first.total)
        2
        rest
search_event_finds_example = search_event_finds icon two_pages 10 19 event (tx ∷ tx ∷ []) all_found

-- A node with 50 transactions, one of them on each page that it answers here.
abbrev fifty : Found
fifty = record { txs = tx ∷ []; total = 50 }

-- A node that refuses the pages after the second.
abbrev refuses_third : Text → Option ℕ → Result Found
refuses_third q none = ok fifty
refuses_third q (some page) = if leb page 2 then ok fifty else err (external 4)

search_event_loses_example : (y : Error) × (search_event icon refuses_third 10 19 event ≡ err y)
search_event_loses_example =
    search_event_loses icon refuses_third 10 19 2 event fifty (external 4) refl (omega arith)
      (omega arith) refl

abbrev limits : GasConfig
limits = record { min_gas_amount = 10; max_gas_amount = 1000 }

abbrev addresses : TextMap Text
addresses = (codes "connection", codes "archway1") ∷ []

abbrev node : Node
node = record {
  marshal = λ m. ok (codes "{}");
  read_ints = λ t. ok [];
  factory = ok (true, 0);
  estimate_gas = λ sequence c. ok 200;
  prepare = λ sequence gas c. ok (sequence ∷ []);
  broadcast = λ bytes. ok (0, codes "hash");
  account_sequence = ok 9;
  subscribe = λ hash. ok tt;
  first_event = λ hash. some (result 120 0);
  transaction_receipt = λ hash. ok (120, 0);
  error_text = λ e. [];
  wrong_sequence = codes "incorrect account sequence";
}

abbrev outcome : RouteOutcome
outcome = record {
  calls = (hello_key, record { height = 120; tx_hash = codes "hash"; code = success }) ∷ [];
  returned = ok tt;
}

hello_routed : (route limits addresses node 5 hello).1 ≡ some outcome
unfolding route lookup value_at text_eq message_key
hello_routed = refl

wasm_route-IsCalled_example :
    (sequence : ℕ) × (hash : Text) × ((route limits addresses node 5 hello).0
      ≡ (sequence + 1) % 2 ^ 64)
    × IsCalled limits addresses node 5 hello sequence hash
wasm_route-IsCalled_example =
    wasm_route-IsCalled limits addresses node 5 hello outcome hello_routed refl

-- One contract with two event types, so two subscriptions begin.
abbrev watched : TextMap EventMap
watched =
    (
      codes "archway1",
      record {
        address = codes "archway1";
        contract_name = codes "xcall";
        sig_type =
            (codes "wasm-CallMessage", codes "callMessage")
            ∷ (codes "wasm-RollbackMessage", codes "rollbackMessage")
            ∷ [];
      },
    )
    ∷ []

abbrev behind : Listening
behind = record { start = 10; latest = 15; subscribed = []; sent = [] }

abbrev ahead : Listening
ahead = record {
  start = 16;
  latest = 15;
  subscribed =
      record { height = 15; address = codes "archway1"; method = codes "wasm-CallMessage" }
      ∷ record { height = 15; address = codes "archway1"; method = codes "wasm-RollbackMessage" }
      ∷ [];
  sent = block ∷ [];
}
