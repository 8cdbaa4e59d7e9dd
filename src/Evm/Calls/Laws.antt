-- ===== src/Evm/Calls/Laws.antt =====
-- The bytes of an EVM transaction and those whose gas is estimated (relayer/chains/evm/provider.go).
use centralized_relay.Common.{
  ℕ, ◌≤◌, ◌≡◌, ◌≢◌, refl, sym, ap, ◌∙◌, subst, [], ◌∷◌, some, Text, text_eq, text_eq_sound, true,
  false, ok, >>=-gives, inl, inr, ◌⊎◌, Bool-cases, unknown_event_type, err-ne,
}
use centralized_relay.Events
use centralized_relay.Types.Message.{Message}
use centralized_relay.Types.Contracts.{TextMap, connection_contract}
use centralized_relay.Evm.Route.{
  ContractCall, contract_call, GasConfig, adjusted, Node, send_transaction,
}
use centralized_relay.Evm.Route.Laws.{send_transaction-IsSent}
use centralized_relay.Evm.Calls.{
  text_argument, MethodCall, method_set_admin, bound_call, estimated_call, Ethereum, address_of,
  estimate_packed, estimate_gas, transact_call, submit_bound, bound_node,
}

-- The call that `EstimateGas` makes for an admin, with the address as a text.
abbrev pub admin_call : Text → MethodCall
admin_call admin = record {
  contract = connection_contract;
  method = method_set_admin;
  arguments = text_argument admin ∷ [];
}

call_message_differs :
    (t : Text)
    → text_eq t Events.call_message ≡ true
    → (text_eq t Events.set_admin ≡ false)
      × (text_eq t Events.revert_message ≡ false)
      × (text_eq t Events.claim_fee ≡ false)
      × (text_eq t Events.set_fee ≡ false)
unfolding text_eq
call_message_differs t h =
    subst
      (λ t.
        (text_eq t Events.set_admin ≡ false)
        × (text_eq t Events.revert_message ≡ false)
        × (text_eq t Events.claim_fee ≡ false)
        × (text_eq t Events.set_fee ≡ false))
      (sym (text_eq_sound t Events.call_message h)) (refl, refl, refl, refl)

module _ (to_address : Text → Text) where
  -- For every event type but that of an admin the two switches make the same call.
  estimated_call-contract_call :
      (m : Message) (c : ContractCall)
      → contract_call m ≡ ok c
      → (estimated_call m ≡ some (bound_call to_address c))
        ⊎ (estimated_call m ≡ some (admin_call m.src))
  unfolding contract_call bound_call estimated_call
  estimated_call-contract_call m c h =
      elim (Bool-cases (text_eq m.event_type Events.emit_message)) [
        | inl a ↦ inl (rw (a, estimated_call) (same (rw (a, contract_call) at h)))
        | inr a ↦ elim (Bool-cases (text_eq m.event_type Events.call_message)) [
          | inl b ↦
              let (x, y, z, w) = call_message_differs m.event_type b in
              inl (rw (a, x, y, z, w, b, estimated_call) (same (rw (a, b, contract_call) at h)))
          | inr b ↦ elim (Bool-cases (text_eq m.event_type Events.set_admin)) [
            | inl x ↦ inr (rw (a, x, estimated_call) refl)
            | inr x ↦ elim (Bool-cases (text_eq m.event_type Events.revert_message)) [
              | inl y ↦
                  inl (rw (a, x, y, estimated_call) (same (rw (a, b, x, y, contract_call) at h)))
              | inr y ↦ elim (Bool-cases (text_eq m.event_type Events.claim_fee)) [
                | inl z ↦ inl (
                    rw (a, x, y, z, estimated_call) (same (rw (a, b, x, y, z, contract_call) at h)))
                | inr z ↦ elim (Bool-cases (text_eq m.event_type Events.set_fee)) [
                  | inl w ↦ inl (
                      rw (a, x, y, z, w, estimated_call)
                        (same (rw (a, b, x, y, z, w, contract_call) at h)))
                  | inr w ↦ elim (Bool-cases (text_eq m.event_type Events.rollback_message)) [
                    | inl v ↦ inl (
                        rw (a, x, y, z, w, b, v, estimated_call)
                          (same (rw (a, b, x, y, z, w, v, contract_call) at h)))
                    | inr v ↦ absurd (
                        err-ne (unknown_event_type m.event_type) c
                          (rw (a, b, x, y, z, w, v, contract_call) at h))
                  ]
                ]
              ]
            ]
          ]
        ]
      ]
    where
      same :
          {d : ContractCall}
          → ok d ≡ ok c
          → some (bound_call to_address d) ≡ some (bound_call to_address c)
      same g = cc

module _ (ethereum : Ethereum) (contracts : TextMap Text) (cfg : GasConfig) (node : Node) where
  -- The packing refuses a text where the contract takes an address.
  abbrev pub RefusesTexts : Type 0
  RefusesTexts = (admin bytes : Text) → ethereum.pack (admin_call admin) ≢ ok bytes

  -- The gas was estimated, within the limits, for the bytes and the contract of the transaction.
  pub record IsEstimated (m : Message) (nonce : ℕ) (hash : Text) : Type 0 where
    pub call : ContractCall
    pub bytes : Text
    pub gas : ℕ
    pub meant : contract_call m ≡ ok call
    pub packed : ethereum.pack (bound_call ethereum.to_address call) ≡ ok bytes
    pub estimated :
        ethereum.estimate
          (address_of ethereum contracts (bound_call ethereum.to_address call).contract)
          bytes
        ≡ ok gas
    pub enough : cfg.gas_min ≤ gas
    pub allowed : gas ≤ cfg.gas_limit
    pub transacted :
        ethereum.transact
          (address_of ethereum contracts (bound_call ethereum.to_address call).contract)
          bytes
          (adjusted cfg gas)
          nonce
        ≡ ok hash

  estimate_packed-gives :
      {P : Type 0} (c : MethodCall) (gas : ℕ)
      → estimate_packed ethereum contracts (some c) ≡ ok gas
      → ((bytes : Text)
          → ethereum.pack c ≡ ok bytes
          → ethereum.estimate (address_of ethereum contracts c.contract) bytes ≡ ok gas
          → P)
      → P
  unfolding estimate_packed
  estimate_packed-gives c gas h k = >>=-gives (ethereum.pack c) _ gas h k

  -- If the packing refuses a text where the contract takes an address, a transaction that
  -- SendTransaction sent is the call that its message asks for, with bytes and a contract for which
  -- EstimateGas had asked, and with an estimate within the limits.
  pub send_transaction-IsEstimated :
      (m : Message) (nonce : ℕ) (hash : Text)
      → RefusesTexts
      → (send_transaction cfg (bound_node ethereum contracts node) m nonce).1 ≡ ok hash
      → IsEstimated m nonce hash
  unfolding bound_node estimate_gas submit_bound transact_call
  send_transaction-IsEstimated m nonce hash refuses h =
      let s = send_transaction-IsSent cfg (bound_node ethereum contracts node) m nonce hash h in
      elim (estimated_call-contract_call ethereum.to_address m s.call s.meant) [
        | inl e ↦
            estimate_packed-gives (bound_call ethereum.to_address s.call) s.gas
              (ap (estimate_packed ethereum contracts) (sym e) ∙ s.estimated)
              (λ bytes p q.
                >>=-gives (ethereum.pack (bound_call ethereum.to_address s.call)) _ hash s.submitted
                  (λ sent r t.
                    let same : bytes ≡ sent = ok_injective (sym p ∙ r) in
                    record {
                      call = s.call;
                      bytes = bytes;
                      gas = s.gas;
                      meant = s.meant;
                      packed = p;
                      estimated = q;
                      enough = s.enough;
                      allowed = s.allowed;
                      transacted =
                          ap
                            (λ x.
                              ethereum.transact
                                (address_of ethereum contracts
                                  (bound_call ethereum.to_address s.call).contract)
                                x (adjusted cfg s.gas) nonce)
                            same
                          ∙ t;
                    }))
        | inr e ↦
            estimate_packed-gives (admin_call m.src) s.gas
              (ap (estimate_packed ethereum contracts) (sym e) ∙ s.estimated)
              (λ bytes p q. absurd (refuses m.src bytes p))
      ]
    where
      ok_injective : {x y : Text} → ok x ≡ ok y → x ≡ y
      ok_injective g = cc
