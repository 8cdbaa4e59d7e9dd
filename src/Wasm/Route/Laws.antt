-- ===== src/Wasm/Route/Laws.antt =====
-- What `Route` of relayer/chains/wasm/provider.go promises, and which transactions it sends.
use centralized_relay.Common.{
  ℕ, ◌+◌, ◌%◌, ◌^◌, ◌≤◌, ◌≡◌, refl, sym, ap, ◌∙◌, subst, List, [], ◌∷◌, none, some, Option, Text,
  Bool, true, false, Result, ok, err, Error, inl, inr, ◌⊎◌, Bool-cases, Result-cases, Option-cases,
  ltb, ◌==◌, ◌>>=◌, arith, transaction_failed, gas_below_minimum, gas_limit_exceeded, >>=-gives,
  err-ne,
}
use centralized_relay.Types.Message.{Message, BigInt}
use centralized_relay.Types.Contracts.{TextMap}
use centralized_relay.Relayer.Route.{RouteOutcome}
use centralized_relay.Wasm.Route.{
  GasConfig, Node, get_raw_contract_message, contract_of, call, await_called, route, administer,
  admin_message,
}
use centralized_relay.Wasm.Route.Sent.{IsCalled, call-IsCalled}

module _ (cfg : GasConfig) (addresses : TextMap Text) (node : Node) where
  -- A `Route` that reports a success has sent the message to the contract for its event type, with the
  -- text for it, with gas between the limits, under the sequence number before the one that it leaves
  -- in the wallet, which is that of the wallet or the one that the chain gave; and the transaction was
  -- accepted.
  pub wasm_route-IsCalled :
      (before : ℕ) (m : Message) (out : RouteOutcome)
      → (route cfg addresses node before m).1 ≡ some out
      → out.returned ≡ ok tt
      → (sequence : ℕ) × (hash : Text) × ((route cfg addresses node before m).0
          ≡ (sequence + 1) % 2 ^ 64)
        × IsCalled cfg addresses node before m sequence hash
  unfolding route await_called
  wasm_route-IsCalled before m out h k = after (call cfg addresses node before m) refl h
    where
      after :
          (r : ℕ × Result Text)
          → call cfg addresses node before m ≡ r
          → (await_called cfg addresses node m r).1 ≡ some out
          → (sequence : ℕ) × (hash : Text) × ((await_called cfg addresses node m
                (call cfg addresses node before m)).0
              ≡ (sequence + 1) % 2 ^ 64)
            × IsCalled cfg addresses node before m sequence hash
      after (s, err x) c g =
          let made : RouteOutcome = record { calls = []; returned = err x } in
          let same : made ≡ out = cc in
          let failed_call : err x ≡ ok tt = ap (λ o. o.returned) same ∙ k in absurd (cc)
      after (s, ok hash) c g = (
        s,
        hash,
        ap (λ r. (await_called cfg addresses node m r).0) c,
        call-IsCalled cfg addresses node before s m hash c,
      )

  -- The address that `SetAdmin` is given has no effect on what is sent.
  set_admin_ignores :
      (sequence : ℕ) (unread : BigInt) (a b : Text)
      → administer cfg addresses node sequence (admin_message unread a)
        ≡ administer cfg addresses node sequence (admin_message unread b)
  unfolding administer call get_raw_contract_message contract_of centralized_relay.Common.text_eq
  set_admin_ignores sequence unread a b = refl
