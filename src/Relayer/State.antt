-- ===== src/Relayer/State.antt =====
-- The state of `Relayer` in relayer/relay.go. Objects that the code shares by pointers stand on a
-- heap: an address is a pointer to a `RouteMessage`, and every goroutine that was given it sees
-- what the others write. `spawned` and `routing` are the goroutines of `go r.RouteMessage(…)`.
pub mod Laws
pub mod Cached
use centralized_relay.Common.{
  ℕ, suc, ◌*◌, ◌+◌, ◌≤◌, ◌<◌, ◌≡◌, refl, Bool, true, false, List, [], ◌∷◌, Option, none, some, Text,
  codes, text_eq, ◌==◌, if◌then◌else◌, Result, ok, err, chain_runtime_not_found,
}
use Prim.Native.Nat.{max}
use centralized_relay.Types.Message.{
  Message, MessageKey, RouteMessage, TransactionObject, TxResponse, new_route_message, message_key,
}
use centralized_relay.Types.Contracts.{TextMap, lookup}
use centralized_relay.Types.Cache
use centralized_relay.Types.Retry.{second}
use centralized_relay.Store.Interface.{Store}
use centralized_relay.Store.Codec.{Codec}
use centralized_relay.Runtime.{ChainRuntime}

-- Durations in nanoseconds, and the other constants of relay.go.
abbrev pub max_flush_message : ℕ
max_flush_message = 10

abbrev pub message_expiration : ℕ
message_expiration = 24 * 3600 * second

abbrev pub prefix_message_store : Text
prefix_message_store = codes "message"

abbrev pub prefix_block_store : Text
prefix_block_store = codes "block"

abbrev pub prefix_finality_store : Text
prefix_finality_store = codes "finality"

-- What the relayer is built on: the database and the JSON library.
pub record Env (D : Type 0) : Type 0 where
  pub store : Store D
  pub messages : Codec RouteMessage
  pub heights : Codec ℕ
  pub tx_objects : Codec TransactionObject

-- A goroutine that routes the message at `object`, from the cache of `src` to `dst`.
pub record Task : Type 0 where
  pub object : ℕ
  pub src : Text
  pub dst : Text

pub record State (D : Type 0) : Type 0 where
  pub disk : D
  pub heap : ℕ → RouteMessage
  pub next : ℕ
  pub chains : TextMap ChainRuntime
  pub spawned : List Task
  pub routing : List Task

-- The write of a pointer's target.
unfoldable pub assign : (ℕ → RouteMessage) → ℕ → RouteMessage → ℕ → RouteMessage
assign h p r q = if p == q then r else h q

-- A change of the runtime that the map has under `nid`.
unfoldable pub update_chain :
    Text → (ChainRuntime → ChainRuntime) → TextMap ChainRuntime → TextMap ChainRuntime
update_chain nid f [] = []
update_chain nid f ((j, c) ∷ rest) =
    if text_eq j nid then (j, f c) ∷ rest else (j, c) ∷ update_chain nid f rest

abbrev pub runtimes : TextMap ChainRuntime → List ChainRuntime
runtimes [] = []
runtimes ((nid, c) ∷ rest) = c ∷ runtimes rest

-- `src.MessageCache.Get(key)` for the chain `src`.
abbrev pub cached_in : Text → MessageKey → TextMap ChainRuntime → Option ℕ
cached_in src key cs = elim (lookup src cs) [ none ↦ none | some c ↦ Cache.get key c.message_cache ]

abbrev pub cache_pointer : MessageKey → ℕ → ChainRuntime → ChainRuntime
cache_pointer key p c = record c { message_cache = Cache.add key p c.message_cache }

module _ {D : Type 0} where
  unfoldable pub find_chain_runtime : State D → Text → Result ChainRuntime
  find_chain_runtime s nid = elim (lookup nid s.chains) [
    | some c ↦ ok c
    | none ↦ err (chain_runtime_not_found nid)
  ]

  unfoldable pub get_all_chains_runtime : State D → List ChainRuntime
  get_all_chains_runtime s = runtimes s.chains

  unfoldable pub modify_object : ℕ → (RouteMessage → RouteMessage) → State D → State D
  unfolding assign
  modify_object p f s = record s { heap = assign s.heap p (f (s.heap p)) }

  unfoldable pub modify_chain : Text → (ChainRuntime → ChainRuntime) → State D → State D
  unfolding update_chain
  modify_chain nid f s = record s { chains = update_chain nid f s.chains }

  -- A new object, at the next free address; `src.MessageCache.Add` of it. The message's own big
  -- integer was allocated before, so the next address is above it.
  unfoldable pub add_message : Text → RouteMessage → State D → State D
  unfolding assign update_chain
  add_message nid r s = record s {
    heap = assign s.heap s.next r;
    next = suc (max s.next r.message.sn.addr);
    chains = update_chain nid (cache_pointer (message_key r.message) s.next) s.chains;
  }

  unfoldable pub add_messages : Text → List RouteMessage → State D → State D
  unfolding add_message
  add_messages nid [] s = s
  add_messages nid (r ∷ rs) s = add_messages nid rs (add_message nid r s)
