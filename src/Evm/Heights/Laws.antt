-- ===== src/Evm/Heights/Laws.antt =====
-- The start height and the ranges of relayer/chains/evm/listener.go, and the messages of a range.
use centralized_relay.Common.{
  ℕ, zero, suc, ◌+◌, ◌-◌, ◌%◌, ◌^◌, ◌≤◌, ◌<◌, ◌≡◌, refl, sym, subst, List, [], ◌∷◌, false, Result,
  ok, leb, ◌==◌, arith, Bool-cases, Result-cases, inl, inr, ◌⊎◌, In, In-append_left,
  In-append_right,
}
use Prim.Native.Nat.{min}
use centralized_relay.Types.Message.{Message, BlockInfo}
use centralized_relay.Evm.Heights.{
  sub64, start_height_of, start_from_height, block_requests_from, block_requests, emit_logs,
  sync_ranges, catch_up,
}

-- If the chain is at least as high as its finality, the listener starts at a height that is final:
-- at the configured one, at the saved one, or at the last final one, and at the saved one whenever
-- it is final and none is configured.
pub start_from_height_final :
    (configured finality saved latest start : ℕ)
    → finality ≤ latest
    → start_from_height configured finality saved (ok latest) ≡ ok start
    → (start ≤ latest - finality)
      × ((start ≡ configured) ⊎ ((start ≡ saved) ⊎ (start ≡ latest - finality)))
      × (configured ≡ 0 → 0 < saved → saved < latest - finality → start ≡ saved)
unfolding start_from_height start_height_of
start_from_height_final configured finality saved latest start h e =
    (ground arith, ground arith, λ z p q. ground arith)

-- On a chain that is not yet as high as its finality, which is below 2^63, and without a configured
-- or a saved height, the listener starts at a height beyond 2^63.
start_from_height_wraps :
    (finality latest start : ℕ)
    → latest < finality
    → finality < 2 ^ 63
    → start_from_height 0 finality 0 (ok latest) ≡ ok start
    → 2 ^ 63 < start
unfolding start_from_height start_height_of
start_from_height_wraps finality latest start h k e = ground arith

-- The ranges follow each other from `lo` up to `hi`, and each has at most `batch` heights.
abbrev pub Tiles : ℕ → ℕ → ℕ → List (ℕ × ℕ) → Type 0
Tiles batch lo hi [] = hi < lo
Tiles batch lo hi ((a, b) ∷ rs) =
    (a ≡ lo) × (a ≤ b) × (b ≤ hi) × (b < a + batch) × Tiles batch (b + 1) hi rs

past_end :
    (fuel batch latest start : ℕ)
    → latest < start
    → block_requests_from fuel batch latest start ≡ []
unfolding block_requests_from
past_end zero batch latest start h = refl
past_end (suc fuel) batch latest start h = ground arith

next-Tiles :
    (fuel batch latest start : ℕ)
    → 0 < batch
    → start ≤ latest
    → Tiles batch (start + batch) latest (block_requests_from fuel batch latest (start + batch))
    → Tiles batch
        (min (start + batch - 1) latest + 1)
        latest
        (block_requests_from fuel batch latest (start + batch))
next-Tiles fuel batch latest start p small h = elim (Bool-cases (leb (start + batch) latest)) [
  | inl e ↦
      subst (λ n. Tiles batch n latest (block_requests_from fuel batch latest (start + batch)))
        (ground arith) h
  | inr e ↦ rw (past_end fuel batch latest (start + batch) (ground arith)) (ground arith)
]

block_requests_from-Tiles :
    (fuel batch latest start : ℕ)
    → 0 < batch
    → latest + batch < 2 ^ 64
    → latest + 1 ≤ start + fuel
    → Tiles batch start latest (block_requests_from fuel batch latest start)
unfolding block_requests_from
block_requests_from-Tiles zero batch latest start p h k = omega arith
block_requests_from-Tiles (suc fuel) batch latest start p h k =
    elim (Bool-cases (leb start latest)) [
      | inl e ↦
          let small : start ≤ latest = ground arith in
          let next : (start + batch) % 2 ^ 64 ≡ start + batch = omega arith in
          let back : sub64 (start + batch) 1 ≡ start + batch - 1 = ground arith in
          rw (e, next, back)
            (
              refl,
              omega arith,
              omega arith,
              omega arith,
              next-Tiles fuel batch latest start p small
                  (block_requests_from-Tiles fuel batch latest (start + batch) p h (omega arith)),
            )
      | inr e ↦ rw e (ground arith)
    ]

-- For a batch size that is not 0 and a latest height that fits uint64 together with it, the requested
-- ranges tile the heights from the start to the latest one.
pub block_requests-Tiles :
    (batch latest start : ℕ)
    → 0 < batch
    → latest + batch < 2 ^ 64
    → Tiles batch start latest (block_requests batch latest start)
unfolding block_requests
block_requests-Tiles batch latest start p h =
    block_requests_from-Tiles (latest + 1) batch latest start p h (omega arith)

-- A height between the ends lies in one of the ranges of a tiling.
Tiles-In :
    (batch lo hi h : ℕ) (rs : List (ℕ × ℕ))
    → Tiles batch lo hi rs
    → lo ≤ h
    → h ≤ hi
    → (r : ℕ × ℕ) × In r rs × (r.0 ≤ h) × (h ≤ r.1)
Tiles-In batch lo hi h [] t p q = absurd (omega arith)
Tiles-In batch lo hi h ((a, b) ∷ rs) t p q = elim (Bool-cases (leb h b)) [
  | inl e ↦ ((a, b), inl refl, omega (arith, t.0), ground arith)
  | inr e ↦
      let (r, i, x, y) = Tiles-In batch (b + 1) hi h rs t.4 (ground arith) q in (r, inr i, x, y)
]

module _ {L : Type 0} (height_of : L → ℕ) (message_of : L → Result Message) where
  abbrev pub info_of : L → Message → BlockInfo
  info_of l m = record { height = height_of l; messages = m ∷ [] }

  emit_logs-In :
      (l : L) (m : Message) (ls : List L)
      → In l ls
      → message_of l ≡ ok m
      → In (info_of l m) (emit_logs height_of message_of ls)
  unfolding emit_logs
  emit_logs-In l m [] i e = absurd i
  emit_logs-In l m (x ∷ ls) (inl same) e =
      subst (λ y. In (info_of l m) (emit_logs height_of message_of (y ∷ ls))) (sym same)
        (rw (e, emit_logs) (inl refl))
  emit_logs-In l m (x ∷ ls) (inr i) e = elim (Result-cases (message_of x)) [
    | inl (n, f) ↦ rw (f, emit_logs) (inr (emit_logs-In l m ls i e))
    | inr (y, f) ↦ rw (f, emit_logs) (emit_logs-In l m ls i e)
  ]

  sync_ranges-In :
      (fetch : ℕ × ℕ → Result (List L)) (r : ℕ × ℕ) (logs : List L) (l : L) (m : Message)
      (rs : List (ℕ × ℕ))
      → In r rs
      → fetch r ≡ ok logs
      → In l logs
      → message_of l ≡ ok m
      → In (info_of l m) (sync_ranges height_of message_of fetch rs)
  unfolding sync_ranges
  sync_ranges-In fetch r logs l m [] i f j e = absurd i
  sync_ranges-In fetch r logs l m (x ∷ rs) (inl same) f j e =
      subst (λ y. In (info_of l m) (sync_ranges height_of message_of fetch (y ∷ rs))) (sym same)
        (rw (f, sync_ranges)
          (In-append_left (info_of l m) (emit_logs height_of message_of logs) _
            (emit_logs-In l m logs j e)))
  sync_ranges-In fetch r logs l m (x ∷ rs) (inr i) f j e = elim (Result-cases (fetch x)) [
    | inl (ls, g) ↦
        rw (g, sync_ranges)
          (In-append_right (info_of l m) (emit_logs height_of message_of ls) _
            (sync_ranges-In fetch r logs l m rs i f j e))
    | inr (y, g) ↦ rw (g, sync_ranges) (sync_ranges-In fetch r logs l m rs i f j e)
  ]

  -- When the listener catches up from a height, every log from there up to the latest height that
  -- is a message, and that the chain returns for every range around it, is passed on to the relayer
  -- with its height.
  pub catch_up_complete :
      (fetch : ℕ × ℕ → Result (List L)) (batch latest start : ℕ) (l : L) (m : Message)
      → 0 < batch
      → latest + batch < 2 ^ 64
      → 0 < start
      → start ≤ height_of l
      → height_of l ≤ latest
      → ((r : ℕ × ℕ)
          → r.0 ≤ height_of l
          → height_of l ≤ r.1
          → (logs : List L) × (fetch r ≡ ok logs) × In l logs)
      → message_of l ≡ ok m
      → In (info_of l m) (catch_up height_of message_of fetch batch latest start)
  unfolding catch_up
  catch_up_complete fetch batch latest start l m p h positive from to found e =
      let (r, i, x, y) =
        Tiles-In batch start latest (height_of l) (block_requests batch latest start)
          (block_requests-Tiles batch latest start p h) from to in
      let (logs, f, j) = found r x y in
      let started : (start == 0) ≡ false = ground arith in
      rw started (sync_ranges-In fetch r logs l m (block_requests batch latest start) i f j e)
