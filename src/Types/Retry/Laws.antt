-- ===== src/Types/Retry/Laws.antt =====
-- The attempts and the backoff of a `RouteMessage` in relayer/types/types.go.
use native.Mathlib.Nat.{pow-le-pow_right, one-le-pow}
use centralized_relay.Common.{refl, ℕ, ◌+◌, ◌*◌, ◌^◌, ◌≤◌, ◌<◌, ◌≡◌, true, false, arith, leb}
use centralized_relay.Types.Message.{RouteMessage, Message, new_route_message}
use centralized_relay.Types.Retry.{
  retry_interval, backoff, add_duration, add_next_try, increment_retry, toggle_processing,
  is_processing, is_elapsed,
}

backoff_small : (n : ℕ) → n ≤ 30 → backoff n ≡ retry_interval * 2 ^ n
unfolding backoff
backoff_small n h = omega (arith, pow-le-pow_right {n = 2} (omega arith) h)

backoff_pos : (n : ℕ) → n ≤ 30 → (1 ≤ backoff n) × (backoff n < 2 ^ 63)
backoff_pos n h =
    rw (backoff_small n h)
      (omega (arith, pow-le-pow_right {n = 2} (omega arith) h, one-le-pow n 2 (omega arith)))

-- An attempt that is at most the thirtieth, of a message that is being processed, counts one more
-- retry. The message is busy until its mark is taken back, and then exactly until `retry_interval *
-- 2 ^ retry` nanoseconds after the attempt have passed, for its new `retry`.
pub increment_retry_waits :
    (now later : ℕ) (r : RouteMessage)
    → r.retry < 30
    → r.processing ≡ true
    → ((increment_retry now r).retry ≡ r.retry + 1)
      × (is_processing later (increment_retry now r) ≡ true)
      × (is_processing later (toggle_processing (increment_retry now r))
          ≡ leb later (now + retry_interval * 2 ^ (r.retry + 1)))
unfolding increment_retry add_next_try add_duration is_processing toggle_processing
increment_retry_waits now later r h p = (
  omega arith,
  rw p refl,
  rw p (
      ground (
        arith,
        backoff_small (r.retry + 1) (omega arith),
        backoff_pos (r.retry + 1) (omega arith),
      )),
)

-- After the thirty-first attempt, at a time past 2^64 nanoseconds, a message that is not being
-- processed counts as ready at once: the duration has overflowed int64.
increment_retry_overflows :
    (now later : ℕ) (r : RouteMessage)
    → r.retry ≡ 30
    → r.processing ≡ false
    → 2 ^ 64 < now
    → now ≤ later
    → is_processing later (increment_retry now r) ≡ false
unfolding increment_retry add_next_try add_duration is_processing backoff
increment_retry_overflows now later r h p late after = rw (h, p) (ground arith)

-- A message that was never tried has run out as soon as the clock has passed `duration`: its
-- `LastTry` is the zero time. The clock of a running relay has, by two thousand years.
pub new_route_message-elapsed :
    (now duration : ℕ) (m : Message)
    → duration < now
    → is_elapsed now duration (new_route_message m) ≡ true
unfolding is_elapsed new_route_message
new_route_message-elapsed now duration m h = ground arith
