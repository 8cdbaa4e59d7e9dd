-- ===== src/Types/Retry.antt =====
-- The retry state of a `RouteMessage` in relayer/types/types.go: attempts, backoff, expiry.
pub mod Laws
use centralized_relay.Common.{
  ℕ, ◌+◌, ◌-◌, ◌*◌, ◌%◌, ◌^◌, Bool, not, ◌||◌, ltb, leb, ◌==◌, if◌then◌else◌,
}
use centralized_relay.Types.Message.{RouteMessage}

-- Durations are counted in nanoseconds.
abbrev pub second : ℕ
second = 1000000000

abbrev pub max_tx_retry : ℕ
max_tx_retry = 5

abbrev pub stale_mark_count : ℕ
stale_mark_count = max_tx_retry * 3

abbrev pub route_duration : ℕ
route_duration = 3 * second

abbrev pub retry_interval : ℕ
retry_interval = 3 * second + route_duration

-- `RetryInterval * time.Duration(math.Pow(2, float64(r.Retry)))` as the bits of an int64.
unfoldable pub backoff : ℕ → ℕ
backoff retry = (retry_interval * 2 ^ retry) % 2 ^ 64

-- `t.Add(d)` for the int64 duration with the bits `d`.
unfoldable pub add_duration : ℕ → ℕ → ℕ
add_duration t d = if ltb d (2 ^ 63) then t + d else t - (2 ^ 64 - d)

unfoldable pub add_next_try : ℕ → RouteMessage → RouteMessage
add_next_try now r = record r { last_try = add_duration now (backoff r.retry) }

unfoldable pub increment_retry : ℕ → RouteMessage → RouteMessage
increment_retry now r = add_next_try now (record r { retry = (r.retry + 1) % 2 ^ 8 })

unfoldable pub toggle_processing : RouteMessage → RouteMessage
toggle_processing r = record r { processing = not r.processing }

unfoldable pub is_processing : ℕ → RouteMessage → Bool
is_processing now r = r.processing || not (r.last_try == 0 || ltb r.last_try now)

unfoldable pub is_stale : RouteMessage → Bool
is_stale r = leb stale_mark_count r.retry

-- `r.LastTry.Add(duration).Before(time.Now())`, for a duration of this program, which is positive.
unfoldable pub is_elapsed : ℕ → ℕ → RouteMessage → Bool
is_elapsed now duration r = ltb (r.last_try + duration) now
