-- ===== src/Relayer/Flight/Run.antt =====
-- The events of a relayer from `NewRelayer` of relayer/relay.go on, for the invariant.
use centralized_relay.Common.{
  ℕ, ◌≡◌, refl, subst, text_eq, Bool, List, [], ◌∷◌, Text, Result, ok, err, Result-cases,
  Bool-cases, inl, inr, arith,
}
use centralized_relay.Types.Message.{RouteMessage}
use centralized_relay.Types.Contracts.{TextMap}
use centralized_relay.Runtime.{ChainRuntime}
use centralized_relay.Chain.{Chains, chain_nid, put}
use centralized_relay.Store.Blocks.{get_last_stored_block}
use centralized_relay.Relayer.State.{Env, State, prefix_block_store}
use centralized_relay.Relayer.Start.{
  Event, block, flush_timer, route_timer, height_timer, clean_timer, finality_timer, route_begins,
  route_ends, step, run, new_relayer, relayer_over, chain_runtimes, with_saved_height, started,
}
use centralized_relay.Relayer.Flight.{count, CachedBelow, IsSingleFlight}
use centralized_relay.Relayer.Flight.Grows.{Grows-IsSingleFlight}
use centralized_relay.Relayer.Flight.Quiet.{
  clean_expired_messages-Grows, flush_messages-Grows, process_block_info-Grows,
  save_chains_block_height-Grows,
}
use centralized_relay.Relayer.Flight.Checks.{check_finality-Grows}
use centralized_relay.Relayer.Flight.Process.{process_messages-IsSingleFlight}
use centralized_relay.Relayer.Flight.Routing.{
  begin_route-IsSingleFlight, finish_route-IsSingleFlight,
}

module _ {D : Type 0} (env : Env D) where
  pub step-IsSingleFlight :
      (s : State D) (now : ℕ) (e : Event) → IsSingleFlight s → IsSingleFlight (step env s (now, e))
  unfolding step
  step-IsSingleFlight s now (block nid info) i =
      Grows-IsSingleFlight (process_block_info-Grows env nid info s) i
  step-IsSingleFlight s now flush_timer i = Grows-IsSingleFlight (flush_messages-Grows env s) i
  step-IsSingleFlight s now route_timer i = process_messages-IsSingleFlight env now s i
  step-IsSingleFlight s now height_timer i =
      Grows-IsSingleFlight (save_chains_block_height-Grows env now s) i
  step-IsSingleFlight s now clean_timer i =
      Grows-IsSingleFlight (clean_expired_messages-Grows env now s) i
  step-IsSingleFlight s now finality_timer i =
      Grows-IsSingleFlight (check_finality-Grows env now s) i
  step-IsSingleFlight s now (route_begins n) i = begin_route-IsSingleFlight env now n s i
  step-IsSingleFlight s now (route_ends n out) i = finish_route-IsSingleFlight env now n out s i

  run_keeps :
      (s : State D) (es : List (ℕ × Event)) → IsSingleFlight s → IsSingleFlight (run env s es)
  unfolding run
  run_keeps s [] i = i
  run_keeps s ((now, e) ∷ es) i = run_keeps (step env s (now, e)) es (step-IsSingleFlight s now e i)

  -- The caches of a new relayer are empty.
  put-CachedBelow :
      (n : ℕ) (nid : Text) (c : ChainRuntime) (cs : TextMap ChainRuntime)
      → c.message_cache ≡ []
      → CachedBelow n cs
      → CachedBelow n (put nid c cs)
  unfolding put
  put-CachedBelow n nid c [] e h = (rw e tt, tt)
  put-CachedBelow n nid c ((j, x) ∷ cs) e h = elim (Bool-cases (text_eq j nid)) [
    | inl t ↦ rw t (rw e tt, h.1)
    | inr f ↦ rw f (h.0, put-CachedBelow n nid c cs e h.1)
  ]

  saved_cache :
      (r : Result ℕ) (c : ChainRuntime)
      → (with_saved_height env r c).message_cache ≡ c.message_cache
  unfolding with_saved_height
  saved_cache (ok h) c = refl
  saved_cache (err e) c = refl

  chain_runtimes-CachedBelow :
      (d : D) (cs : Chains) (out rs : TextMap ChainRuntime)
      → CachedBelow 0 out
      → chain_runtimes env d cs out ≡ ok rs
      → CachedBelow 0 rs
  unfolding chain_runtimes
  chain_runtimes-CachedBelow d [] out rs h e =
      let same : out ≡ rs = cc in subst (CachedBelow 0) same h
  chain_runtimes-CachedBelow d ((name, chain) ∷ cs) out rs h e =
      chain_runtimes-CachedBelow d cs _ rs
        (put-CachedBelow 0 (chain_nid chain) _ out
          (saved_cache
            (get_last_stored_block env.store env.heights prefix_block_store d (chain_nid chain)) _)
          h)
        e

  relayer_over-IsSingleFlight :
      (heap : ℕ → RouteMessage) (chains : Chains) (w : D × Result (Unit {0})) (s : State D)
      → relayer_over env heap chains w ≡ ok s
      → IsSingleFlight s
  unfolding relayer_over count
  relayer_over-IsSingleFlight heap chains (d, err x) s e = cc
  relayer_over-IsSingleFlight heap chains (d, ok u) s e =
      elim (Result-cases (chain_runtimes env d chains [])) [
        | inl (rs, f) ↦
            let same : started env d heap rs ≡ s = ground arith in
            subst IsSingleFlight same (record {
              single = λ p. omega arith;
              marked = λ p h. absurd (omega arith);
              below = λ p h. absurd (omega arith);
              cached = chain_runtimes-CachedBelow d chains [] rs tt f;
            })
        | inr (x, f) ↦ absurd (ground arith)
      ]

  -- Of a new relayer, whatever the events, no message object is ever given to two goroutines at a
  -- time, and it is marked as being processed for as long as one has it.
  pub run-IsSingleFlight :
      (d : D) (heap : ℕ → RouteMessage) (chains : Chains) (fresh : Bool) (s : State D)
      (es : List (ℕ × Event))
      → new_relayer env d heap chains fresh ≡ ok s
      → IsSingleFlight (run env s es)
  unfolding new_relayer
  run-IsSingleFlight d heap chains fresh s es e =
      run_keeps s es (relayer_over-IsSingleFlight heap chains _ s e)
