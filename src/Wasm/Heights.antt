-- ===== src/Wasm/Heights.antt =====
-- How the provider of relayer/chains/wasm/provider.go reads blocks: where its listener starts, the
-- ranges that it searches, and the messages of a range.
pub mod Search
pub mod Laws
use centralized_relay.Common.{
  ℕ, zero, suc, ◌+◌, ◌-◌, ◌*◌, ◌/◌, ◌%◌, ◌^◌, List, [], ◌∷◌, ◌++◌, Option, none, some, Bool, true,
  false, ◌&&◌, Text, Result, ok, err, Error, ltb, leb, ◌==◌, if◌then◌else◌, Run, returns, fails,
  panics, ◌>>!◌, ◌>>=◌, lift, saved_height_too_high, length, map, not,
}
use centralized_relay.Types.Message.{Message, BlockInfo, MessageKeyWithMessageHeight}
use centralized_relay.Wasm.Events.{Event, Draft, parse_message_from_events, complete}
use centralized_relay.Wasm.Query.{TxSearchParam, build_query}

-- `getStartHeight`
unfoldable pub get_start_height : ℕ → ℕ → ℕ → Result ℕ
get_start_height configured latest saved =
    if ltb 0 configured && ltb configured latest
    then ok configured
    else if ltb latest saved
    then err saved_height_too_high
    else if not (saved == 0) && ltb saved latest
    then ok saved
    else ok latest

-- `sanitize`: a batch size of 0 is replaced.
unfoldable pub sanitize_batch : ℕ → ℕ
sanitize_batch batch = if batch == 0 then 50 else batch

-- The ranges of `getHeightStream`, on uint64; each round goes forward, so `to + 1` rounds are enough.
unfoldable pub height_stream_from : ℕ → ℕ → ℕ → ℕ → List (ℕ × ℕ)
height_stream_from zero batch to from = []
height_stream_from (suc fuel) batch to from =
    let rest = height_stream_from fuel batch to ((from + batch) % 2 ^ 64) in
    if leb from to then (from, (from + batch + 2 ^ 64 - 1) % 2 ^ 64) ∷ rest else []

unfoldable pub get_height_stream : ℕ → ℕ → ℕ → List (ℕ × ℕ)
unfolding height_stream_from
get_height_stream batch from to = height_stream_from (to + 1) batch to from

-- A transaction that a search returns, and the page of one.
pub record Tx : Type 0 where
  pub height : ℕ
  pub events : List Event

pub record Found : Type 0 where
  pub txs : List Tx
  pub total : ℕ

abbrev pub per_page : ℕ
per_page = 25

-- The search of the node: the text of the query, and the page if one is asked for.
module _ (nid : Text) (search : Text → Option ℕ → Result Found) where
  -- The pages from `page` on, `left` of them.
  unfoldable pub next_pages : Text → ℕ → ℕ → List Tx → Result (List Tx)
  next_pages query zero page txs = ok txs
  next_pages query (suc left) page txs =
      search query (some page) >>= λ found. next_pages query left (page + 1) (txs ++ found.txs)

  -- What the goroutine for an event finds, over all pages.
  unfoldable pub search_event : ℕ → ℕ → Event → Result (List Tx)
  unfolding next_pages build_query
  search_event start end e =
      let query = build_query (record { start = start; end = end; events = e ∷ []; page = none }) in
      search query none >>= λ found.
      if ltb per_page found.total
      then next_pages query (found.total / per_page) 2 found.txs
      else ok found.txs

  -- The loop over the events: an error is logged, and the event gives nothing.
  unfoldable pub search_events : ℕ → ℕ → List Event → List Tx
  unfolding search_event
  search_events start end [] = []
  search_events start end (e ∷ es) =
      let rest = search_events start end es in
      elim (search_event start end e) [ ok txs ↦ txs ++ rest | err x ↦ rest ]

  unfoldable pub complete_all : ℕ → List Draft → Run (List Message)
  unfolding complete
  complete_all height [] = returns []
  complete_all height (d ∷ ds) =
      let rest = complete_all height ds in
      complete height d >>! λ m. rest >>! λ ms. returns (m ∷ ms)

  -- The numbers of the `n`-th transaction have their addresses from `n` times 2^32 on.
  unfoldable pub get_messages_from_tx_list : ℕ → List Tx → Run (List BlockInfo)
  unfolding complete_all parse_message_from_events
  get_messages_from_tx_list new [] = returns []
  get_messages_from_tx_list new (tx ∷ txs) =
      let rest = get_messages_from_tx_list (suc new) txs in
      lift (parse_message_from_events nid (new * 2 ^ 32) tx.events) >>! λ ds.
      complete_all tx.height ds >>! λ ms.
      rest >>! λ infos. returns (record { height = tx.height; messages = ms } ∷ infos)

  module _ (filters : List Event) where
    unfoldable pub fetch_block_messages : ℕ → ℕ → ℕ → Run (List BlockInfo)
    unfolding search_events get_messages_from_tx_list
    fetch_block_messages new start end =
        get_messages_from_tx_list new (search_events start end filters)

    abbrev pub all_messages : List BlockInfo → List Message
    all_messages [] = []
    all_messages (b ∷ bs) = b.messages ++ all_messages bs

    unfoldable pub generate_messages : ℕ → MessageKeyWithMessageHeight → Run (List Message)
    unfolding fetch_block_messages
    generate_messages new key =
        fetch_block_messages new key.height key.height >>! λ infos. returns (all_messages infos)

    -- A round of `runBlockQuery` after the fetch: a range that fails is logged and left out.
    abbrev pub block_of : ℕ → Run (List BlockInfo) → Run (List BlockInfo)
    block_of end (returns infos) =
        returns (record { height = end; messages = all_messages infos } ∷ [])
    block_of end (fails e) = returns []
    block_of end panics = panics

    -- The blocks that are sent for the ranges.
    unfoldable pub query_ranges : ℕ → List (ℕ × ℕ) → Run (List BlockInfo)
    unfolding fetch_block_messages
    query_ranges new [] = returns []
    query_ranges new ((start, end) ∷ ranges) =
        let rest = query_ranges (suc new) ranges in
        block_of end (fetch_block_messages (new * 2 ^ 32) start end) >>! λ blocks.
        rest >>! λ more. returns (blocks ++ more)

    -- `runBlockQuery`: the blocks that are sent, and the height that it returns.
    unfoldable pub run_block_query : ℕ → ℕ → ℕ → Run (List BlockInfo × ℕ)
    unfolding query_ranges get_height_stream
    run_block_query batch from to =
        query_ranges 0 (get_height_stream batch from to) >>! λ blocks. returns (blocks, to + 1)
