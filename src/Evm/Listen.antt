-- ===== src/Evm/Listen.antt =====
-- `Listener`, `isConnectionError` and `Subscribe` of relayer/chains/evm/listener.go, as the steps that
-- the loop takes.
pub mod Laws
use centralized_relay.Common.{
  ℕ, suc, ◌+◌, ◌==◌, List, [], ◌∷◌, ◌++◌, Bool, true, false, Text, codes, Result, ok, err, Error,
  if◌then◌else◌,
}
use centralized_relay.Types.Message.{Message, BlockInfo}
use centralized_relay.Evm.Heights.{emit_logs, catch_up}
use centralized_relay.Evm.Route.{contains}

-- What the loop and its subscriptions change: the height to go on from, the subscriptions that were
-- started, the clients that were made, and the blocks that were sent.
pub record ListenerState : Type 0 where
  pub start : ℕ
  pub subscribed : ℕ
  pub reconnects : ℕ
  pub sent : List BlockInfo

-- The timer with the answer for the latest height; a subscription that ends with an error, with the
-- result of a reconnection and the saved height; and a log that a subscription brings.
pub data Occurrence (L : Type 0) : Type 0 where
  timer : Result ℕ → Occurrence L
  failure : Error → Result (Unit {0}) → ℕ → Occurrence L
  arrival : L → Occurrence L

-- `latestHeight`
unfoldable pub latest_height : Result ℕ → ℕ
latest_height (ok height) = height
latest_height (err e) = 0

-- With the text of an error, and whether it is a deadline that has passed.
unfoldable pub is_connection_error : (Error → Text) → (Error → Bool) → Error → Bool
unfolding contains
is_connection_error error_text is_deadline e =
    if contains (error_text e) (codes "tcp") then true else is_deadline e

-- The client is replaced when the reconnection succeeds.
unfoldable pub reconnected : Result (Unit {0}) → ℕ → ℕ
reconnected (ok _) n = suc n
reconnected (err e) n = n

module _ {L : Type 0} (height_of : L → ℕ) (message_of : L → Result Message) where
  module _ (fetch : ℕ × ℕ → Result (List L)) (batch : ℕ) (error_text : Error → Text)
      (is_deadline : Error → Bool) where
    -- The timer starts a subscription before it reads the latest height and catches up.
    unfoldable pub on_timer : ℕ → ListenerState → ListenerState
    unfolding catch_up
    on_timer latest s = record {
      start = if s.start == 0 then latest else s.start;
      subscribed = suc s.subscribed;
      reconnects = s.reconnects;
      sent = s.sent ++ catch_up height_of message_of fetch batch latest s.start;
    }

    -- A log that `Subscribe` receives: a block with its message is sent, unless it is no message.
    unfoldable pub on_arrival : L → ListenerState → ListenerState
    unfolding emit_logs
    on_arrival l s = record s { sent = s.sent ++ emit_logs height_of message_of (l ∷ []) }

    -- One case of the loop of `Listener`, or of that of a subscription.
    unfoldable pub listener_step : Occurrence L → ListenerState → ListenerState
    unfolding on_timer on_arrival latest_height is_connection_error reconnected
    listener_step (timer answer) s = on_timer (latest_height answer) s
    listener_step (failure e answer saved) s = record s {
      start = saved;
      reconnects =
          if is_connection_error error_text is_deadline e
          then reconnected answer s.reconnects
          else s.reconnects;
    }
    listener_step (arrival l) s = on_arrival l s

    unfoldable pub run_listener : List (Occurrence L) → ListenerState → ListenerState
    unfolding listener_step
    run_listener [] s = s
    run_listener (o ∷ os) s = run_listener os (listener_step o s)
