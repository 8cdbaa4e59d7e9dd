-- ===== src/Remote.antt =====
-- The chains that a message may be routed to, behind `ChainProvider.Route` of
-- relayer/provider/provider.go.
use centralized_relay.Common.{ℕ, ◌≡◌, subst, List, some, Option, Text}
use centralized_relay.Types.Message.{Message}
use centralized_relay.Types.Contracts.{TextMap, EventMap, lookup}
use centralized_relay.Runtime.{ChainRuntime}
use centralized_relay.Relayer.State.{Env, State, Task}
use centralized_relay.Relayer.Route.{RouteOutcome, take_task, finish_route}
use centralized_relay.Relayer.Route.Contract.{IsSettled, IsDecided, finish_route_settled}
use centralized_relay.Evm.Route as EvmRoute
use centralized_relay.Evm.Route.Delivery.{route-IsSettled}
use centralized_relay.Icon.Route as IconRoute
use centralized_relay.Icon.Route.Laws.{icon_route-IsSettled}
use centralized_relay.Icon.Client
use centralized_relay.Wasm.Route as WasmRoute
use centralized_relay.Wasm.Route.Sent.{wasm_route-IsSettled}
use centralized_relay.Mock.{MockProvider, mock_route, mock_route-IsSettled}

-- A provider with what its `Route` reads: the configuration, what the node answers, and the nonce, the
-- contracts or the sequence number.
pub data Remote : Type 0 where
  evm : EvmRoute.GasConfig → EvmRoute.Node → ℕ → Remote
  icon : IconRoute.StepConfig → Client.Node → TextMap EventMap → Remote
  wasm : WasmRoute.GasConfig → TextMap Text → WasmRoute.Node → ℕ → Remote
  mock : MockProvider → Remote

-- What `Route` does: nothing when it panics or never returns.
unfoldable pub remote_route : Remote → Message → Option RouteOutcome
unfolding EvmRoute.route IconRoute.route WasmRoute.route mock_route
remote_route (evm cfg node nonce) m = some (EvmRoute.route cfg node m nonce).1
remote_route (icon cfg node contracts) m = IconRoute.route cfg node contracts m
remote_route (wasm cfg addresses node sequence) m =
    (WasmRoute.route cfg addresses node sequence m).1
remote_route (mock p) m = some (mock_route m p).1

some-IsSettled :
    (m : Message) (made out : RouteOutcome)
    → some made ≡ some out
    → IsSettled m made
    → IsSettled m out
some-IsSettled m made out h k = let same : made ≡ out = cc in subst (IsSettled m) same k

-- Every provider keeps the contract of `Route` whenever it returns: it reports failures of the message
-- and returns an error, or reports failures, then one success, and returns no error.
pub remote_route-IsSettled :
    (r : Remote) (m : Message) (out : RouteOutcome) → remote_route r m ≡ some out → IsSettled m out
unfolding remote_route
remote_route-IsSettled (evm cfg node nonce) m out h =
    some-IsSettled m (EvmRoute.route cfg node m nonce).1 out h (route-IsSettled cfg node m nonce)
remote_route-IsSettled (icon cfg node contracts) m out h =
    icon_route-IsSettled cfg node contracts m out h
remote_route-IsSettled (wasm cfg addresses node sequence) m out h =
    wasm_route-IsSettled cfg addresses node sequence m out h
remote_route-IsSettled (mock p) m out h =
    some-IsSettled m (mock_route m p).1 out h (mock_route-IsSettled m p)

-- Whichever chain a goroutine routes its message to, when `Route` returns the goroutine ends as the
-- callback leaves the state after a successful response for that message, or as `HandleMessageFailed`
-- leaves it.
pub finish_remote-IsDecided :
    {D : Type 0} (env : Env D) (now n : ℕ) (r : Remote) (m : Message) (t : Task) (ts : List Task)
    (dst : ChainRuntime) (out : RouteOutcome) (s : State D)
    → take_task env now n s.routing ≡ some (t, ts)
    → lookup t.dst s.chains ≡ some dst
    → remote_route r m ≡ some out
    → IsDecided env now t dst m (record s { routing = ts }) (finish_route env now n out s)
finish_remote-IsDecided env now n r m t ts dst out s taken known routed =
    finish_route_settled env now n m t ts dst out s taken known
      (remote_route-IsSettled r m out routed)
