-- ===== src/Wasm/Heights/Search.antt =====
-- The pages and the ranges that relayer/chains/wasm/provider.go searches.
use centralized_relay.Common.{
  ℕ, zero, suc, ◌+◌, ◌-◌, ◌*◌, ◌/◌, ◌%◌, ◌^◌, ◌≤◌, ◌<◌, ◌≡◌, refl, sym, ◌∙◌, subst, >>=-gives,
  if◌then◌else◌, List, [], ◌∷◌, ◌++◌, Option, none, some, true, Text, Result, Error, ok, err, ltb,
  leb, arith, Bool-cases, Result-cases, inl, inr,
}
use mathlib.Core.List.{append-nil, append_assoc}
use centralized_relay.Wasm.Events.{Event}
use centralized_relay.Wasm.Query.{build_query}
use centralized_relay.Wasm.Heights.{
  height_stream_from, get_height_stream, Tx, Found, per_page, next_pages, search_event,
}

-- The ranges follow each other from `lo` on, each has `batch` heights, and the first height after
-- them is beyond `to`.
abbrev pub Steps : ℕ → ℕ → ℕ → List (ℕ × ℕ) → Type 0
Steps batch lo to [] = to < lo
Steps batch lo to ((a, b) ∷ rs) =
    (a ≡ lo) × (a ≤ to) × (b + 1 ≡ a + batch) × Steps batch (b + 1) to rs

height_stream_from-Steps :
    (fuel batch to from : ℕ)
    → 0 < batch
    → to + batch < 2 ^ 64
    → to + 1 ≤ from + fuel
    → Steps batch from to (height_stream_from fuel batch to from)
unfolding height_stream_from
height_stream_from-Steps zero batch to from p h k = omega arith
height_stream_from-Steps (suc fuel) batch to from p h k = elim (Bool-cases (leb from to)) [
  | inl e ↦
      let small : from ≤ to = ground arith in
      let next : (from + batch) % 2 ^ 64 ≡ from + batch = omega arith in
      let back : (from + batch + 2 ^ 64 - 1) % 2 ^ 64 ≡ from + batch - 1 = omega arith in
      let after : from + batch ≡ from + batch - 1 + 1 = omega arith in
      rw (e, next, back)
        (
          refl,
          small,
          omega arith,
          subst (λ n. Steps batch n to (height_stream_from fuel batch to (from + batch))) after
              (height_stream_from-Steps fuel batch to (from + batch) p h (omega arith)),
        )
  | inr e ↦ rw e (ground arith)
]

pub get_height_stream-Steps :
    (batch from to : ℕ)
    → 0 < batch
    → to + batch < 2 ^ 64
    → Steps batch from to (get_height_stream batch from to)
unfolding get_height_stream
get_height_stream-Steps batch from to p h =
    height_stream_from-Steps (to + 1) batch to from p h (omega arith)

module _ (nid : Text) (search : Text → Option ℕ → Result Found) where
  -- The transactions are those of the `left` pages from `page` on, in order, all of which the node
  -- has answered.
  abbrev pub Pages : Text → ℕ → ℕ → List Tx → Type 0
  Pages query zero page txs = txs ≡ []
  Pages query (suc left) page txs =
      (found : Found) × (more : List Tx) × (search query (some page) ≡ ok found)
      × (txs ≡ found.txs ++ more)
      × Pages query left (page + 1) more

  next_pages-Pages :
      (query : Text) (left page : ℕ) (txs all : List Tx)
      → next_pages nid search query left page txs ≡ ok all
      → (rest : List Tx) × (all ≡ txs ++ rest) × Pages query left page rest
  unfolding next_pages
  next_pages-Pages query zero page txs all h =
      let same : txs ≡ all = cc in ([], sym same ∙ sym (append-nil txs), refl)
  next_pages-Pages query (suc left) page txs all h =
      >>=-gives (search query (some page)) _ all h (λ found p g.
        let (rest, joined, later) =
          next_pages-Pages query left (page + 1) (txs ++ found.txs) all g in
        (
          found.txs ++ rest,
          joined ∙ append_assoc txs found.txs rest,
          (found, rest, p, refl, later),
        ))

  next_pages_refused :
      (query : Text) (left page : ℕ) (txs : List Tx) (x : Error)
      → search query (some (page + left)) ≡ err x
      → (y : Error) × (next_pages nid search query (suc left) page txs ≡ err y)
  unfolding next_pages
  next_pages_refused query zero page txs x h =
      let here : search query (some page) ≡ err x =
        subst (λ n. search query (some n) ≡ err x) (omega arith) h in
      (x, rw (here) refl)
  next_pages_refused query (suc left) page txs x h =
      elim (Result-cases (search query (some page))) [
        | inr (y, e) ↦ (y, rw (e) refl)
        | inl (found, e) ↦
            let (y, k) =
              next_pages_refused query left (page + 1) (txs ++ found.txs) x
                (subst (λ n. search query (some n) ≡ err x) (omega arith) h) in
            (y, rw (e) k)
      ]

  -- The text of the search for an event.
  abbrev pub query_of : ℕ → ℕ → Event → Text
  query_of start end e =
      build_query (record { start = start; end = end; events = e ∷ []; page = none })

  -- The pages that are asked for after the first answer.
  abbrev pub pages_after : ℕ → ℕ
  pages_after total = if ltb 25 total then total / 25 else 0

  -- When the search for an event succeeds, the node has answered without a page and then, if it counts
  -- more than 25 transactions, every page from the second up to the count over 25 plus 1; and what is
  -- found is exactly the transactions of these answers, in order.
  pub search_event_finds :
      (start end : ℕ) (e : Event) (all : List Tx)
      → search_event nid search start end e ≡ ok all
      → (first : Found) × (rest : List Tx) × (search (query_of start end e) none ≡ ok first)
        × (all ≡ first.txs ++ rest)
        × Pages (query_of start end e) (pages_after first.total) 2 rest
  unfolding search_event
  search_event_finds start end e all h =
      >>=-gives (search (query_of start end e) none) _ all h (λ first p g.
        elim (Bool-cases (ltb 25 first.total)) [
          | inl t ↦
              let (rest, joined, pages) =
                next_pages-Pages (query_of start end e) (first.total / 25) 2 first.txs all
                  (rw t at g) in
              (
                first,
                rest,
                p,
                joined,
                subst (λ b. Pages (query_of start end e) (if b then first.total / 25 else 0) 2 rest)
                    (sym t) pages,
              )
          | inr t ↦
              let same : first.txs ≡ all = ok_injective (rw t at g) in
              (
                first,
                [],
                p,
                sym same ∙ sym (append-nil first.txs),
                subst (λ b. Pages (query_of start end e) (if b then first.total / 25 else 0) 2 [])
                    (sym t) refl,
              )
        ])
    where
      ok_injective : {x y : List Tx} → ok x ≡ ok y → x ≡ y
      ok_injective q = cc

  -- When an event has a multiple of 25 transactions, more than 25, and the node refuses the page after
  -- the last one, the search for the event fails, whatever the pages before have found.
  pub search_event_loses :
      (start end k : ℕ) (e : Event) (first : Found) (x : Error)
      → search (query_of start end e) none ≡ ok first
      → first.total ≡ 25 * k
      → 2 ≤ k
      → search (query_of start end e) (some (k + 1)) ≡ err x
      → (y : Error) × (search_event nid search start end e ≡ err y)
  unfolding search_event
  search_event_loses start end zero e first x f t h r = absurd (omega arith)
  search_event_loses start end (suc k) e first x f t h r =
      let many : ltb per_page first.total ≡ true = ground arith in
      let count : first.total / 25 ≡ suc k = omega arith in
      let (y, refused) =
        subst
          (λ n. (y : Error) × (next_pages nid search (query_of start end e) n 2 first.txs ≡ err y))
          (sym count)
          (next_pages_refused (query_of start end e) k 2 first.txs x
            (subst (λ n. search (query_of start end e) (some n) ≡ err x) (omega arith) r)) in
      (y, rw (f, search_event) (rw (many, search_event) refused))
