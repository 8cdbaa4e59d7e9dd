-- ===== src/Relayer/Route/Contract.antt =====
-- What the relayer relies on when a chain provider routes a message: the contract of
-- `ChainProvider.Route` in relayer/provider/provider.go, as relayer/relay.go uses it.
use centralized_relay.Common.{
  ℕ, ◌≡◌, refl, ap, ◌∙◌, List, [], ◌∷◌, ◌++◌, some, Text, All, Option-cases, inl, inr, ◌⊎◌, err,
  Error,
}
use centralized_relay.Types.Message.{Message, MessageKey, TxResponse, success, failed, message_key}
use centralized_relay.Types.Contracts.{lookup}
use centralized_relay.Store.Interface.{done}
use centralized_relay.Runtime.{ChainRuntime}
use centralized_relay.Relayer.State.{Env, State, Task, cached_in}
use centralized_relay.Relayer.Route.{
  RouteOutcome, callback, callbacks, on_response, end_route, take_task, finish_route,
  handle_message_failed,
}

-- A call of the callback that reports a failure of the message.
abbrev pub IsFailure : Message → MessageKey × TxResponse → Type 0
IsFailure m (key, r) = (key ≡ message_key m) × (r.code ≡ failed)

-- What `Route` may do: report failures and return an error, or report failures, then one success, and
-- return no error. Every report is for the message.
abbrev pub IsSettled : Message → RouteOutcome → Type 0
IsSettled m out =
    (All (IsFailure m) out.calls × ((e : Error) × (out.returned ≡ err e)))
    ⊎ ((before : List (MessageKey × TxResponse)) × All (IsFailure m) before
        × ((r : TxResponse) × (r.code ≡ success)
            × ((out.calls ≡ before ++ (message_key m, r) ∷ []) × (out.returned ≡ done))))

module _ {D : Type 0} (env : Env D) (now : ℕ) where
  -- A response that is no success changes nothing.
  pub callback_failed :
      (src : Text) (dst : ChainRuntime) (key : MessageKey) (r : TxResponse) (s : State D)
      → r.code ≡ failed
      → callback env now src dst key r s ≡ s
  unfolding callback on_response
  callback_failed src dst key r s h = elim (Option-cases (cached_in src key s.chains)) [
    | inl e ↦ rw (e, callback) refl
    | inr (p, e) ↦ rw (e, callback) (rw (h, on_response) refl)
  ]

  callbacks_failures :
      (src : Text) (dst : ChainRuntime) (m : Message) (before rest : List (MessageKey × TxResponse))
      (s : State D)
      → All (IsFailure m) before
      → callbacks env now src dst (before ++ rest) s ≡ callbacks env now src dst rest s
  unfolding callbacks
  callbacks_failures src dst m [] rest s h = refl
  callbacks_failures src dst m ((key, r) ∷ before) rest s ((same, code), h) =
      ap (callbacks env now src dst (before ++ rest)) (callback_failed src dst key r s code)
      ∙ callbacks_failures src dst m before rest s h

  callbacks_failed :
      (src : Text) (dst : ChainRuntime) (m : Message) (calls : List (MessageKey × TxResponse))
      (s : State D)
      → All (IsFailure m) calls
      → callbacks env now src dst calls s ≡ s
  unfolding callbacks
  callbacks_failed src dst m [] s h = refl
  callbacks_failed src dst m ((key, r) ∷ calls) s ((same, code), h) =
      ap (callbacks env now src dst calls) (callback_failed src dst key r s code)
      ∙ callbacks_failed src dst m calls s h

  -- The state is that of the failed message, or of the successful response.
  abbrev pub IsDecided : Task → ChainRuntime → Message → State D → State D → Type 0
  IsDecided t dst m s u =
      (u ≡ handle_message_failed env now t.object t.src s)
      ⊎ ((r : TxResponse) × (r.code ≡ success)
          × (u ≡ callback env now t.src dst (message_key m) r s))

  settled-IsDecided :
      (t : Task) (dst : ChainRuntime) (m : Message) (s : State D) (out : RouteOutcome)
      → IsSettled m out
      → IsDecided t dst m s
          (end_route env now t out.returned (callbacks env now t.src dst out.calls s))
  unfolding end_route callbacks
  settled-IsDecided t dst m s out (inl (told, (e, fails))) =
      rw (callbacks_failed t.src dst m out.calls s told, fails) (inl refl)
  settled-IsDecided t dst m s out (inr (before, told, (r, good, (calls, back)))) =
      rw (calls, callbacks_failures t.src dst m before ((message_key m, r) ∷ []) s told, back)
        (inr (r, good, refl))

  -- A goroutine that routes a message to a chain whose `Route` keeps the contract ends as the callback
  -- leaves the state after a successful response for that message, or as `HandleMessageFailed` leaves
  -- it.
  pub finish_route_settled :
      (n : ℕ) (m : Message) (t : Task) (ts : List Task) (dst : ChainRuntime) (out : RouteOutcome)
      (s : State D)
      → take_task env now n s.routing ≡ some (t, ts)
      → lookup t.dst s.chains ≡ some dst
      → IsSettled m out
      → IsDecided t dst m (record s { routing = ts }) (finish_route env now n out s)
  unfolding finish_route
  finish_route_settled n m t ts dst out s taken known settled =
      rw (taken, finish_route)
        (rw (known, finish_route)
          (settled-IsDecided t dst m (record s { routing = ts }) out settled))
