-- ===== src/Evm/Route/Delivery.antt =====
-- What becomes of a message that the relayer routes to an EVM chain: relayer/relay.go over
-- relayer/chains/evm/route.go.
use centralized_relay.Common.{
  ℕ, ◌≡◌, refl, sym, ◌∙◌, List, [], some, Result-cases, inl, inr, ◌⊎◌, subst, All,
}
use centralized_relay.Types.Message.{Message, ResponseCode, success, failed}
use centralized_relay.Types.Contracts.{lookup}
use centralized_relay.Runtime.{ChainRuntime}
use centralized_relay.Relayer.State.{Env, State, Task}
use centralized_relay.Relayer.Route.{RouteOutcome, take_task, finish_route}
use centralized_relay.Relayer.Route.Contract.{IsFailure, IsSettled, IsDecided, finish_route_settled}
use centralized_relay.Evm.Route.{GasConfig, Node, route}
use centralized_relay.Evm.Route.Laws.{Reports, route-Reports}

code-cases : (c : ResponseCode) → (c ≡ success) ⊎ (c ≡ failed)
code-cases success = inl refl
code-cases failed = inr refl

module _ (cfg : GasConfig) (node : Node) where
  reported-IsSettled : (m : Message) (out : RouteOutcome) → Reports cfg node m out → IsSettled m out
  reported-IsSettled m out (inl (silent, fails)) =
      inl (subst (All (IsFailure m)) (sym silent) tt, fails)
  reported-IsSettled m out (inr (r, told, (good, back))) = elim (code-cases r.code) [
    | inl c ↦ inr ([], tt, (r, c, (told, good c)))
    | inr c ↦ elim (Result-cases out.returned) [
      | inl (u, e) ↦ absurd (differ (sym (back e) ∙ c))
      | inr (x, e) ↦ inl (subst (All (IsFailure m)) (sym told) ((refl, c), tt), (x, e))
    ]
  ]
    where
      differ : success ≡ failed → ⊥
      differ h = cc

  -- The EVM `Route` keeps the contract of `ChainProvider.Route`.
  pub route-IsSettled : (m : Message) (nonce : ℕ) → IsSettled m (route cfg node m nonce).1
  route-IsSettled m nonce =
      reported-IsSettled m (route cfg node m nonce).1 (route-Reports cfg node m nonce)

  -- Whatever an EVM chain's node answers, a goroutine that routes a message there ends as the callback
  -- leaves the state after a successful response for that message, or as `HandleMessageFailed` leaves
  -- it.
  finish_route-IsDecided :
      {D : Type 0} (env : Env D) (now n nonce : ℕ) (m : Message) (t : Task) (ts : List Task)
      (dst : ChainRuntime) (s : State D)
      → take_task env now n s.routing ≡ some (t, ts)
      → lookup t.dst s.chains ≡ some dst
      → IsDecided env now t dst m
          (record s { routing = ts })
          (finish_route env now n (route cfg node m nonce).1 s)
  finish_route-IsDecided env now n nonce m t ts dst s taken known =
      finish_route_settled env now n m t ts dst (route cfg node m nonce).1 s taken known
        (route-IsSettled m nonce)
