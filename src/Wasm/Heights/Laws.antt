-- ===== src/Wasm/Heights/Laws.antt =====
-- What a catch-up of relayer/chains/wasm/provider.go reports.
use centralized_relay.Common.{
  ℕ, suc, ◌+◌, ◌*◌, ◌^◌, ◌<◌, ◌≡◌, refl, sym, ap, subst, List, [], ◌∷◌, ◌++◌, Option, Text, Result,
  Error, ok, err, Result-cases, inl, inr, ◌⊎◌, Run, returns, fails, panics, >>!-gives,
  returns_injective,
}
use centralized_relay.Types.Message.{BlockInfo}
use centralized_relay.Wasm.Events.{Event}
use centralized_relay.Wasm.Heights.{
  get_height_stream, Found, Tx, search_event, search_events, get_messages_from_tx_list,
  fetch_block_messages, all_messages, block_of, query_ranges, run_block_query,
}
use centralized_relay.Wasm.Heights.Search.{Steps, get_height_stream-Steps}

module _ (nid : Text) (search : Text → Option ℕ → Result Found) where
  module _ (filters : List Event) where
    -- The transactions are, for each event in order, what its search has found, and nothing for an
    -- event whose search failed.
    abbrev pub Gathered : ℕ → ℕ → List Event → List Tx → Type 0
    Gathered start end [] txs = txs ≡ []
    Gathered start end (e ∷ es) txs =
        ((x : Error) × (search_event nid search start end e ≡ err x) × Gathered start end es txs)
        ⊎ ((found : List Tx) × (more : List Tx) × (search_event nid search start end e ≡ ok found)
            × (txs ≡ found ++ more)
            × Gathered start end es more)

    search_events-Gathered :
        (start end : ℕ) (es : List Event)
        → Gathered start end es (search_events nid search start end es)
    unfolding search_events
    search_events-Gathered start end [] = refl
    search_events-Gathered start end (e ∷ es) =
        elim (Result-cases (search_event nid search start end e)) [
          | inl (txs, p) ↦
              rw (p, search_events)
                (inr (
                  txs,
                  search_events nid search start end es,
                  refl,
                  refl,
                  search_events-Gathered start end es,
                ))
          | inr (x, p) ↦ rw (p, search_events) (inl (x, refl, search_events-Gathered start end es))
        ]

    -- For each range in order, the transactions that were gathered for it either cannot be parsed, and
    -- nothing is sent, or one block is sent with the end of the range as its height and all messages of
    -- these transactions.
    abbrev pub Reported : ℕ → List (ℕ × ℕ) → List BlockInfo → Type 0
    Reported new [] blocks = blocks ≡ []
    Reported new ((start, end) ∷ rs) blocks =
        (txs : List Tx) × Gathered start end filters txs
        × (((x : Error) × (get_messages_from_tx_list nid search (new * 2 ^ 32) txs ≡ fails x)
              × Reported (suc new) rs blocks)
            ⊎ ((infos : List BlockInfo) × (more : List BlockInfo) × (get_messages_from_tx_list nid
                    search (new * 2 ^ 32) txs
                  ≡ returns infos)
                × (blocks
                    ≡ record { height = end; messages = all_messages nid search filters infos }
                      ∷ more)
                × Reported (suc new) rs more))

    block_of-Reported :
        (new start end : ℕ) (rs : List (ℕ × ℕ)) (txs : List Tx) (r : Run (List BlockInfo))
        (sent more : List BlockInfo)
        → Gathered start end filters txs
        → get_messages_from_tx_list nid search (new * 2 ^ 32) txs ≡ r
        → block_of nid search filters end r ≡ returns sent
        → Reported (suc new) rs more
        → Reported new ((start, end) ∷ rs) (sent ++ more)
    block_of-Reported new start end rs txs (returns infos) sent more gathered f h k =
        let same : (record { height = end; messages = all_messages nid search filters infos } ∷ [])
            ≡ sent =
          returns_injective h in
        (txs, gathered, inr (infos, more, f, ap (λ b. b ++ more) (sym same), k))
    block_of-Reported new start end rs txs (fails x) sent more gathered f h k =
        let same : [] ≡ sent = returns_injective h in
        (txs, gathered, inl (x, f, subst (λ b. Reported (suc new) rs (b ++ more)) same k))
    block_of-Reported new start end rs txs panics sent more gathered f h k = absurd (cc)

    query_ranges-Reported :
        (new : ℕ) (rs : List (ℕ × ℕ)) (blocks : List BlockInfo)
        → query_ranges nid search filters new rs ≡ returns blocks
        → Reported new rs blocks
    unfolding query_ranges fetch_block_messages
    query_ranges-Reported new [] blocks h = sym (returns_injective h)
    query_ranges-Reported new ((start, end) ∷ rs) blocks h =
        let txs = search_events nid search start end filters in
        let r = get_messages_from_tx_list nid search (new * 2 ^ 32) txs in
        >>!-gives (block_of nid search filters end r) _ blocks h (λ sent p g.
          >>!-gives (query_ranges nid search filters (suc new) rs) _ blocks g (λ more q k.
            subst (Reported new ((start, end) ∷ rs)) (returns_injective k) (
              block_of-Reported new start end rs txs r sent more
                (search_events-Gathered start end filters) refl p
                (query_ranges-Reported (suc new) rs more q))))

    -- A catch-up that ends without a panic, for a batch size that is not 0 and a latest height that
    -- fits uint64 together with it, has asked for ranges that follow each other from its start, each
    -- with as many heights as a batch, until the latest height is reached. For each it has sent one
    -- block with the messages of the transactions that the searches for its events have found, where
    -- a search that failed gives none, or nothing when these transactions cannot be parsed. It goes on
    -- after the latest height in any case.
    pub run_block_query-Reported :
        (batch from to next : ℕ) (blocks : List BlockInfo)
        → 0 < batch
        → to + batch < 2 ^ 64
        → run_block_query nid search filters batch from to ≡ returns (blocks, next)
        → Steps batch from to (get_height_stream batch from to)
          × Reported 0 (get_height_stream batch from to) blocks
          × (next ≡ to + 1)
    unfolding run_block_query
    run_block_query-Reported batch from to next blocks p h r =
        >>!-gives (query_ranges nid search filters 0 (get_height_stream batch from to)) _
          (blocks, next) r
          (λ sent q g.
            let same : (sent, to + 1) ≡ (blocks, next) = returns_injective g in
            (
              get_height_stream-Steps batch from to p h,
              subst (Reported 0 (get_height_stream batch from to)) (ap (λ x. x.0) same)
                  (query_ranges-Reported 0 (get_height_stream batch from to) sent q),
              sym (ap (λ x. x.1) same),
            ))
