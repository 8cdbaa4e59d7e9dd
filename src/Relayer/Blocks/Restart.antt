-- ===== src/Relayer/Blocks/Restart.antt =====
-- Where the chains of relayer/relay.go listen from after a restart.
use centralized_relay.Common.{
  ℕ, ◌≡◌, refl, ◌∙◌, sym, ap, subst, All, >>=-gives, false, [], ◌∷◌, Text, In, inl, inr, ok,
}
use centralized_relay.Types.Message.{RouteMessage}
use centralized_relay.Types.Contracts.{TextMap}
use centralized_relay.Store.Interface.{StoreLaws, done}
use centralized_relay.Store.Codec.{CodecLaws, height_at}
use centralized_relay.Store.Blocks.{
  store_block, get_last_stored_block, get_last_stored_block-store_block,
}
use centralized_relay.Runtime.{ChainRuntime, new_chain_runtime}
use centralized_relay.Chain.{Chain, chain_nid, put}
use centralized_relay.Relayer.State.{Env, State, prefix_block_store}
use centralized_relay.Relayer.Blocks.{save_block_height}
use centralized_relay.Relayer.Start.{with_saved_height, chain_runtimes}
use centralized_relay.Chain.{Chains}
use centralized_relay.Chain.Maps.{All-put, HasKey, put-HasKey, put-HasKey_old}
use centralized_relay.Relayer.Start.{relayer_over, new_relayer, start_chain_listeners, started}

module _ {D : Type 0} (env : Env D) where
  -- If the chain with the network id is this one it listens from the height.
  abbrev ListensFrom : Text → ℕ → Text × ChainRuntime → Type 0
  ListensFrom nid height (k, c) = k ≡ nid → (c.provider.nid ≡ nid) × (c.last_saved_height ≡ height)

  -- The runtime of a chain before its saved height was read, and after.
  abbrev fresh : Chain → ChainRuntime
  fresh chain = record {
    provider = chain.chain_provider;
    last_block_height = 0;
    last_saved_height = 0;
    message_cache = [];
  }

  abbrev begun : D → Chain → ChainRuntime
  begun d chain =
      with_saved_height env
        (get_last_stored_block env.store env.heights prefix_block_store d (chain_nid chain))
        (fresh chain)

  begun-ListensFrom :
      (d : D) (nid : Text) (height : ℕ) (chain : Chain)
      → get_last_stored_block env.store env.heights prefix_block_store d nid ≡ ok height
      → ListensFrom nid height (chain_nid chain, begun d chain)
  unfolding with_saved_height chain_nid
  begun-ListensFrom d nid height chain saved same =
      subst
        (λ r.
          ((with_saved_height env r (fresh chain)).provider.nid ≡ nid)
          × ((with_saved_height env r (fresh chain)).last_saved_height ≡ height))
        (sym (ap (get_last_stored_block env.store env.heights prefix_block_store d) same ∙ saved))
        (same, refl)

  chain_runtimes-ListensFrom :
      (d : D) (nid : Text) (height : ℕ) (cs : Chains) (out runtimes : TextMap ChainRuntime)
      → get_last_stored_block env.store env.heights prefix_block_store d nid ≡ ok height
      → All (ListensFrom nid height) out
      → chain_runtimes env d cs out ≡ ok runtimes
      → All (ListensFrom nid height) runtimes
  unfolding chain_runtimes new_chain_runtime
  chain_runtimes-ListensFrom d nid height [] out runtimes saved h e =
      let same : out ≡ runtimes = cc in subst (All (ListensFrom nid height)) same h
  chain_runtimes-ListensFrom d nid height ((name, chain) ∷ cs) out runtimes saved h e =
      chain_runtimes-ListensFrom d nid height cs (put (chain_nid chain) (begun d chain) out)
        runtimes saved
        (All-put (ListensFrom nid height) (chain_nid chain) (begun d chain) out h
          (begun-ListensFrom d nid height chain saved))
        e

  chain_runtimes-HasKey :
      (d : D) (nid : Text) (cs : Chains) (out runtimes : TextMap ChainRuntime)
      → HasKey nid out
      → chain_runtimes env d cs out ≡ ok runtimes
      → HasKey nid runtimes
  unfolding chain_runtimes new_chain_runtime
  chain_runtimes-HasKey d nid [] out runtimes h e =
      let same : out ≡ runtimes = cc in subst (HasKey nid) same h
  chain_runtimes-HasKey d nid ((name, chain) ∷ cs) out runtimes h e =
      chain_runtimes-HasKey d nid cs (put (chain_nid chain) (begun d chain) out) runtimes
        (put-HasKey_old nid (chain_nid chain) (begun d chain) out h) e

  chain_runtimes-HasKey_chain :
      (d : D) (name : Text) (chain : Chain) (cs : Chains) (out runtimes : TextMap ChainRuntime)
      → In (name, chain) cs
      → chain_runtimes env d cs out ≡ ok runtimes
      → HasKey (chain_nid chain) runtimes
  unfolding chain_runtimes new_chain_runtime
  chain_runtimes-HasKey_chain d name chain [] out runtimes i e = absurd i
  chain_runtimes-HasKey_chain d name chain ((n, x) ∷ cs) out runtimes (inl same) e =
      subst (λ y. HasKey (chain_nid y.1) runtimes) same
        (chain_runtimes-HasKey d (chain_nid x) cs (put (chain_nid x) (begun d x) out) runtimes
          (put-HasKey (chain_nid x) (begun d x) out) e)
  chain_runtimes-HasKey_chain d name chain ((n, x) ∷ cs) out runtimes (inr i) e =
      chain_runtimes-HasKey_chain d name chain cs (put (chain_nid x) (begun d x) out) runtimes i e

  start_chain_listeners-In :
      (nid : Text) (height : ℕ) (c : ChainRuntime) (runtimes : TextMap ChainRuntime)
      → In (nid, c) runtimes
      → All (ListensFrom nid height) runtimes
      → In (nid, height) (start_chain_listeners env runtimes)
  unfolding start_chain_listeners
  start_chain_listeners-In nid height c [] i h = absurd i
  start_chain_listeners-In nid height c ((k, x) ∷ rest) (inl same) h =
      let (named, from) = h.0 (ap (λ y. y.0) same) in
      inl (ap (λ n. (n, x.last_saved_height)) named ∙ ap (λ l. (nid, l)) from)
  start_chain_listeners-In nid height c ((k, x) ∷ rest) (inr i) h =
      inr (start_chain_listeners-In nid height c rest i h.1)

  relayer_over-chains :
      (heap : ℕ → RouteMessage) (chains : Chains) (d : D) (s : State D)
      → relayer_over env heap chains (d, ok tt) ≡ ok s
      → (chain_runtimes env d chains [] ≡ ok s.chains)
  unfolding relayer_over
  relayer_over-chains heap chains d s e =
      >>=-gives (chain_runtimes env d chains []) _ s e (λ runtimes p q.
        let same : started env d heap runtimes ≡ s = cc in p ∙ ap (λ u. ok u.chains) same)

module _ {D : Type 0} (env : Env D) (laws : StoreLaws env.store)
    (codec_laws : CodecLaws env.heights height_at) where
  -- After a height was saved for a chain with no error, a relayer that is made anew over the same
  -- database, without clearing it, starts the listener of this chain from that height, whichever
  -- other chains are configured.
  pub save_block_height_restart :
      (chain : Chain) (height : ℕ) (key name : Text) (s r : State D) (heap : ℕ → RouteMessage)
      (chains : Chains)
      → (save_block_height env key (chain_nid chain) height s).1 ≡ done
      → In (name, chain) chains
      → new_relayer env
          (save_block_height env key (chain_nid chain) height s).0.disk
          heap
          chains
          false
        ≡ ok r
      → In (chain_nid chain, height) (start_chain_listeners env r.chains)
  unfolding save_block_height new_relayer
  save_block_height_restart chain height key name s r heap chains saved i made =
      let wrote =
        store_block env.store env.heights prefix_block_store s.disk height (chain_nid chain) in
      let runs : chain_runtimes env wrote.0 chains [] ≡ ok r.chains =
        relayer_over-chains env heap chains wrote.0 r made in
      let read : get_last_stored_block env.store env.heights prefix_block_store wrote.0
            (chain_nid chain)
          ≡ ok height =
        get_last_stored_block-store_block env.store env.heights prefix_block_store laws codec_laws
          s.disk height (chain_nid chain) saved in
      let (c, j) = chain_runtimes-HasKey_chain env wrote.0 name chain chains [] r.chains i runs in
      start_chain_listeners-In env (chain_nid chain) height c r.chains j (
        chain_runtimes-ListensFrom env wrote.0 (chain_nid chain) height chains [] r.chains read tt
          runs)
