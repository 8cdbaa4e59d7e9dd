-- ===== src/Evm/Heights.antt =====
-- Where the listener of relayer/chains/evm/listener.go starts, and how it catches up.
pub mod Laws
pub mod Retry
use centralized_relay.Common.{
  ℕ, zero, suc, ◌+◌, ◌-◌, ◌*◌, ◌%◌, ◌^◌, List, [], ◌∷◌, ◌++◌, Bool, Result, Error, ok, err, leb,
  ltb, not, ◌==◌, ◌&&◌, ◌>>=◌, if◌then◌else◌,
}
use Prim.Native.Nat.{min}
use centralized_relay.Types.Message.{Message, BlockInfo}
use centralized_relay.Types.Retry.{second}

abbrev pub max_block_range : ℕ
max_block_range = 50

abbrev pub default_finality_block : ℕ
default_finality_block = 10

abbrev pub base_retry_interval : ℕ
base_retry_interval = 3 * second

abbrev pub max_retry_interval : ℕ
max_retry_interval = 5 * 60 * second

abbrev pub max_retry_count : ℕ
max_retry_count = 5

-- `sanitize`, and the default that `NewProvider` sets: a 0 of the configuration is replaced.
unfoldable pub sanitize_batch : ℕ → ℕ
sanitize_batch batch = if batch == 0 then max_block_range else batch

unfoldable pub finality_or_default : ℕ → ℕ
finality_or_default finality = if finality == 0 then default_finality_block else finality

-- The difference of two uint64.
abbrev pub sub64 : ℕ → ℕ → ℕ
sub64 a b = if leb b a then a - b else a + 2 ^ 64 - b

-- With the configured start, the finality and the saved height, for the latest height that was read.
unfoldable pub start_height_of : ℕ → ℕ → ℕ → ℕ → ℕ
start_height_of configured finality saved latest =
    let query = sub64 latest finality in
    if not (configured == 0) && ltb configured query
    then configured
    else if not (saved == 0) && ltb saved query
    then saved
    else query

unfoldable pub start_from_height : ℕ → ℕ → ℕ → Result ℕ → Result ℕ
unfolding start_height_of
start_from_height configured finality saved (ok latest) =
    ok (start_height_of configured finality saved latest)
start_from_height configured finality saved (err e) = err e

-- The loop `for start := startHeight; start <= latestHeight; start += BlockBatchSize`; each round
-- goes forward, so `latest + 1` rounds are enough.
unfoldable pub block_requests_from : ℕ → ℕ → ℕ → ℕ → List (ℕ × ℕ)
block_requests_from zero batch latest start = []
block_requests_from (suc fuel) batch latest start =
    let rest = block_requests_from fuel batch latest ((start + batch) % 2 ^ 64) in
    if leb start latest then (start, min (sub64 ((start + batch) % 2 ^ 64) 1) latest) ∷ rest else []

unfoldable pub block_requests : ℕ → ℕ → ℕ → List (ℕ × ℕ)
unfolding block_requests_from
block_requests batch latest start = block_requests_from (latest + 1) batch latest start

-- The delay after the failure with the given count of attempts.
abbrev pub retry_delay : ℕ → ℕ
retry_delay attempts =
    if ltb max_retry_interval (2 ^ attempts * base_retry_interval)
    then max_retry_interval
    else 2 ^ attempts * base_retry_interval

-- The loop of `getLogsRetry` with `left` attempts to go: what it returns, and how long it sleeps.
-- `ask i` is the answer to the attempt `i`.
unfoldable pub get_logs_from : {A : Type 0} → (ℕ → Result A) → ℕ → ℕ → Error → Result A × ℕ
get_logs_from ask zero attempts last = (err last, 0)
get_logs_from ask (suc left) attempts last = elim (ask attempts) [
  | ok logs ↦ (ok logs, 0)
  | err e ↦
      let rest = get_logs_from ask left (attempts + 1) e in
      (rest.0, retry_delay (attempts + 1) + rest.1)
]

-- The error before the first attempt is nil, and is never returned: there are five attempts.
unfoldable pub get_logs_retry : {A : Type 0} → (ℕ → Result A) → Error → Result A × ℕ
unfolding get_logs_from
get_logs_retry ask initial = get_logs_from ask max_retry_count 0 initial

module _ {L : Type 0} (height_of : L → ℕ) (message_of : L → Result Message) where
  -- A log that is no message is skipped.
  unfoldable pub emit_logs : List L → List BlockInfo
  emit_logs [] = []
  emit_logs (l ∷ ls) =
      let rest = emit_logs ls in
      elim (message_of l) [
        | ok m ↦ record { height = height_of l; messages = m ∷ [] } ∷ rest
        | err e ↦ rest
      ]

  -- The loop over `blockReqs`: a range that cannot be fetched is left out, and the loop goes on.
  unfoldable pub sync_ranges : (ℕ × ℕ → Result (List L)) → List (ℕ × ℕ) → List BlockInfo
  unfolding emit_logs
  sync_ranges fetch [] = []
  sync_ranges fetch (r ∷ rs) = elim (fetch r) [
    | ok logs ↦ emit_logs logs ++ sync_ranges fetch rs
    | err e ↦ sync_ranges fetch rs
  ]

  -- The case of the timer in `Listener`: a start of 0 is the latest height.
  unfoldable pub catch_up : (ℕ × ℕ → Result (List L)) → ℕ → ℕ → ℕ → List BlockInfo
  unfolding sync_ranges block_requests
  catch_up fetch batch latest start =
      sync_ranges fetch (block_requests batch latest (if start == 0 then latest else start))
