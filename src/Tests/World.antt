-- ===== src/Tests/World.antt =====
-- Two chains, a message between them, and a relayer over the database and the JSON library of the
-- tests, for relayer/relay.go.
use centralized_relay.Common.{
  ℕ, ◌*◌, Bool, true, false, List, [], ◌∷◌, none, Text, codes, ok, err, external, pos, text_eq,
  if◌then◌else◌,
}
use centralized_relay.Types.Message.{
  BigInt, Message, RouteMessage, MessageKey, TransactionObject, TxResponse, success,
}
use centralized_relay.Types.Retry.{second}
use centralized_relay.Provider.{Provider}
use centralized_relay.Chain.{Chain, Chains}
use centralized_relay.Runtime.{ChainRuntime}
use centralized_relay.Relayer.State.{Env, State}
use centralized_relay.Tests.Disk.{Disk, list_store}
use centralized_relay.Tests.Codecs.{route_codec, height_codec, object_codec}

abbrev pub icon : Text
icon = codes "icon"

abbrev pub eth : Text
eth = codes "eth"

abbrev pub today : ℕ
today = 60000000000 * second

abbrev pub world : Env Disk
world = record {
  store = list_store;
  messages = route_codec;
  heights = height_codec;
  tx_objects = object_codec;
}

abbrev pub serial : BigInt
serial = record { addr = 0; value = pos 7 }

abbrev pub hello : Message
hello = record {
  dst = eth;
  src = icon;
  sn = serial;
  bytes = codes "hi";
  message_height = 100;
  event_type = codes "emitMessage";
  req_id = none;
}

abbrev pub hello_key : MessageKey
hello_key = record { sn = serial; src = icon; dst = eth; event_type = codes "emitMessage" }

-- The message as it waits in a cache, and after five attempts.
abbrev pub queued : RouteMessage
queued = record { message = hello; retry = 0; processing = false; last_try = 0 }

abbrev pub tried : RouteMessage
tried = record { message = hello; retry = 5; processing = true; last_try = today }

-- A chain that takes every message, has none yet, and makes `hello` again when it is asked.
abbrev pub open_chain : Text → ℕ → Bool → Provider
open_chain nid depth lost = record {
  nid = nid;
  name = nid;
  query_latest_height = λ now. ok 500;
  query_transaction_receipt = λ now hash.
      ok (record { tx_hash = hash; height = 120; status = text_eq hash (codes "good") });
  should_receive_message = λ now m. ok true;
  should_send_message = λ now m. ok true;
  message_received = λ now k. ok false;
  finality_block = λ now. depth;
  generate_messages = λ now k. if lost then err (external 7) else ok (hello ∷ []);
  revert_message = λ now sn. ok tt;
  get_fee = λ now network response. ok 3;
  set_fee = λ now network a b. ok tt;
  claim_fee = λ now. ok tt;
}

abbrev pub icon_provider : Provider
icon_provider = open_chain icon 10 false

abbrev pub eth_provider : Provider
eth_provider = open_chain eth 10 false

abbrev pub runtime : Provider → List (MessageKey × ℕ) → ChainRuntime
runtime p cache = record {
  provider = p;
  last_block_height = 0;
  last_saved_height = 0;
  message_cache = cache;
}

-- `hello` is the object 0 in the cache of `icon`; `r` is what the object holds.
abbrev pub waiting : RouteMessage → Provider → Provider → Disk → State Disk
waiting r from to disk = record {
  disk = disk;
  heap = λ p. r;
  next = 1;
  chains = (icon, runtime from ((hello_key, 0) ∷ [])) ∷ (eth, runtime to []) ∷ [];
  spawned = [];
  routing = [];
}

abbrev pub chain : Provider → Chain
chain p = record { chain_provider = p; debug = false }

abbrev pub both : Chains
both = (icon, chain icon_provider) ∷ (eth, chain eth_provider) ∷ []

abbrev pub delivery : TxResponse
delivery = record { height = 120; tx_hash = codes "good"; code = success }

abbrev pub tx_object : Text → TransactionObject
tx_object hash = record {
  message_key = record { key = hello_key; height = 100 };
  tx_hash = hash;
  tx_height = 120;
}
