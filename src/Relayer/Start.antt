-- ===== src/Relayer/Start.antt =====
-- `NewRelayer`, `Start`, `StartChainListeners`, `StartRouter`, `StartBlockProcessors`, `StartFinalityProcessor` and
-- `PruneDB` of relayer/relay.go: how a relayer is made, and the events that its loops react to.
use centralized_relay.Common.{
  ℕ, Bool, List, [], ◌∷◌, some, Text, Result, ok, err, ◌>>=◌, if◌then◌else◌,
}
use centralized_relay.Types.Message.{BlockInfo, RouteMessage}
use centralized_relay.Types.Contracts.{TextMap}
use centralized_relay.Store.Blocks.{get_last_stored_block}
use centralized_relay.Chain.{Chains, chain_nid, put}
use centralized_relay.Runtime.{ChainRuntime, new_chain_runtime}
use centralized_relay.Relayer.State.{Env, State, prefix_block_store}
use centralized_relay.Relayer.Clear.{clean_expired_messages}
use centralized_relay.Relayer.Process.{process_messages}
use centralized_relay.Relayer.Route.{RouteOutcome, begin_route, finish_route}
use centralized_relay.Relayer.Flush.{flush_messages}
use centralized_relay.Relayer.Blocks.{process_block_info, save_chains_block_height}
use centralized_relay.Relayer.Finality.{check_finality}

module _ {D : Type 0} (env : Env D) where
  -- The height that was saved before, unless it cannot be read.
  unfoldable pub with_saved_height : Result ℕ → ChainRuntime → ChainRuntime
  with_saved_height (ok height) c = record c { last_saved_height = height }
  with_saved_height (err e) c = c

  unfoldable pub chain_runtimes : D → Chains → TextMap ChainRuntime → Result (TextMap ChainRuntime)
  unfolding with_saved_height put new_chain_runtime chain_nid
  chain_runtimes d [] out = ok out
  chain_runtimes d ((name, chain) ∷ rest) out = new_chain_runtime (some chain) >>= λ c.
      chain_runtimes d rest (
        put (chain_nid chain)
          (with_saved_height
            (get_last_stored_block env.store env.heights prefix_block_store d (chain_nid chain)) c)
          out)

  abbrev pub started : D → (ℕ → RouteMessage) → TextMap ChainRuntime → State D
  started d heap chains = record {
    disk = d;
    heap = heap;
    next = 0;
    chains = chains;
    spawned = [];
    routing = [];
  }

  unfoldable pub relayer_over :
      (ℕ → RouteMessage) → Chains → D × Result (Unit {0}) → Result (State D)
  unfolding chain_runtimes
  relayer_over heap chains (d, err e) = err e
  relayer_over heap chains (d, ok _) =
      chain_runtimes d chains [] >>= λ runtimes. ok (started d heap runtimes)

  -- `heap` is what the memory holds before any object is allocated.
  unfoldable pub new_relayer : D → (ℕ → RouteMessage) → Chains → Bool → Result (State D)
  unfolding relayer_over
  new_relayer d heap chains fresh =
      relayer_over heap chains (if fresh then env.store.clear_store d else (d, ok tt))

  -- `StartChainListeners`: the network id and the height that each `Listener` is called with.
  unfoldable pub start_chain_listeners : TextMap ChainRuntime → List (Text × ℕ)
  start_chain_listeners [] = []
  start_chain_listeners ((nid, c) ∷ rest) =
      (c.provider.nid, c.last_saved_height) ∷ start_chain_listeners rest

  unfoldable pub start : Bool → State D → State D
  start fresh s = if fresh then flush_messages env s else s

  unfoldable pub prune_db : State D → State D × Result (Unit {0})
  prune_db s =
      let cleared = env.store.clear_store s.disk in (record s { disk = cleared.0 }, cleared.1)

-- What the goroutines of the relayer react to: a block from a listener, the timers of `StartRouter`
-- and of the finality processor, and the scheduling and the end of a routing goroutine.
pub data Event : Type 0 where
  block : Text → BlockInfo → Event
  flush_timer : Event
  route_timer : Event
  height_timer : Event
  clean_timer : Event
  finality_timer : Event
  route_begins : ℕ → Event
  route_ends : ℕ → RouteOutcome → Event

module _ {D : Type 0} (env : Env D) where
  -- One event, at the time `now`.
  unfoldable pub step : State D → ℕ × Event → State D
  step s (now, block nid info) = process_block_info env nid info s
  step s (now, flush_timer) = flush_messages env s
  step s (now, route_timer) = process_messages env now s
  step s (now, height_timer) = save_chains_block_height env now s
  step s (now, clean_timer) = clean_expired_messages env now s
  step s (now, finality_timer) = check_finality env now s
  step s (now, route_begins n) = begin_route env now n s
  step s (now, route_ends n out) = finish_route env now n out s

  unfoldable pub run : State D → List (ℕ × Event) → State D
  unfolding step
  run s [] = s
  run s (e ∷ es) = run (step s e) es
