-- ===== src/Tests/Deliveries.antt =====
-- The relayer of the tests routes its message to an EVM chain.
use centralized_relay.Common.{ℕ, zero, suc, ◌≡◌, refl, [], ◌∷◌, some, Text, codes, text_eq, ok}
use centralized_relay.Types.Contracts.{lookup}
use centralized_relay.Relayer.State.{State, Task}
use centralized_relay.Relayer.Route.{take_task, finish_route}
use centralized_relay.Evm.Route.{GasConfig, Node, Poll, found, not_found, route}
use centralized_relay.Relayer.Route.Contract.{IsDecided}
use centralized_relay.Remote.{evm, remote_route, finish_remote-IsDecided}
use centralized_relay.Tests.Disk.{Disk}
use centralized_relay.Tests.World.{
  icon, eth, today, world, hello, icon_provider, eth_provider, runtime, waiting, tried,
}

abbrev limits : GasConfig
limits = record { gas_min = 10; gas_limit = 1000; gas_adjustment = 50 }

-- A node that has the receipt at the second poll.
abbrev late : Text → ℕ → Poll
late hash zero = not_found
late hash (suc i) = found (record { height = 120; status = 1 })

abbrev node : Node
node = record {
  suggest_options = ok tt;
  estimate_gas = λ m. ok 200;
  submit = λ c gas nonce. ok (codes "hash");
  pending_nonce = ok 5;
  poll = late;
  error_text = λ e. codes "nonce too low";
}

abbrev task : Task
task = record { object = 0; src = icon; dst = eth }

abbrev routed : State Disk
routed = record (waiting tried icon_provider eth_provider []) { routing = task ∷ [] }

task_taken : take_task world today 0 routed.routing ≡ some (task, [])
unfolding take_task
task_taken = refl

eth_known : lookup eth routed.chains ≡ some (runtime eth_provider [])
unfolding lookup text_eq
eth_known = refl

finish_remote-IsDecided_example :
    IsDecided world today task
      (runtime eth_provider [])
      hello
      (record routed { routing = [] })
      (finish_route world today 0 (route limits node hello 5).1 routed)
unfolding remote_route
finish_remote-IsDecided_example =
    finish_remote-IsDecided world today 0 (evm limits node 5) hello task []
      (runtime eth_provider []) (route limits node hello 5).1 routed task_taken eth_known refl
