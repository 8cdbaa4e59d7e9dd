-- ===== src/Wasm/Route/Sent.antt =====
-- Which transactions `Route` of relayer/chains/wasm/provider.go sends, and what it reports.
use centralized_relay.Common.{
  ℕ, ◌≤◌, ◌≡◌, refl, sym, ap, ◌∙◌, subst, [], none, some, Option, Text, Bool, Result, ok, err, inl,
  inr, ◌⊎◌, Bool-cases, Result-cases, Option-cases, ltb, ◌==◌, arith, transaction_failed,
  gas_below_minimum, gas_limit_exceeded, >>=-gives, err-ne,
}
use centralized_relay.Types.Message.{Message, message_key}
use centralized_relay.Types.Contracts.{TextMap}
use centralized_relay.Relayer.Route.{RouteOutcome}
use centralized_relay.Relayer.Route.Contract.{IsSettled}
use centralized_relay.Evm.Route.{contains}
use centralized_relay.Wasm.Route.{
  GasConfig, ExecuteContract, TxEvent, result, unreadable, Node, code_type_ok,
  get_raw_contract_message, contract_of, gas_of, accepted, push_with, prepare_and_push, resend,
  call, event_outcome, wait_for_tx_result, await_called, route,
}

module _ (cfg : GasConfig) (addresses : TextMap Text) (node : Node) where
  event_outcome-IsSettled :
      (m : Message) (hash : Text) (e : TxEvent)
      → IsSettled m (event_outcome cfg addresses node (message_key m) hash e)
  unfolding event_outcome
  event_outcome-IsSettled m hash (unreadable x) = inl (((refl, refl), tt), (x, refl))
  event_outcome-IsSettled m hash (result height code) = elim (Bool-cases (code == code_type_ok)) [
    | inl e ↦ rw (e, event_outcome) (inr ([], tt, (_, refl, (refl, refl))))
    | inr e ↦ rw (e, event_outcome) (inl (((refl, refl), tt), (transaction_failed, refl)))
  ]

  wait_for_tx_result-IsSettled :
      (m : Message) (hash : Text) (out : RouteOutcome)
      → wait_for_tx_result cfg addresses node (message_key m) hash ≡ some out
      → IsSettled m out
  unfolding wait_for_tx_result
  wait_for_tx_result-IsSettled m hash out h = elim (Result-cases (node.subscribe hash)) [
    | inr (x, e) ↦ settled _ (rw (e, wait_for_tx_result) at h) (inl (((refl, refl), tt), (x, refl)))
    | inl (u, e) ↦ elim (Option-cases (node.first_event hash)) [
      | inl n ↦ never (rw (e, n, wait_for_tx_result) at h)
      | inr (t, n) ↦
          settled (event_outcome cfg addresses node (message_key m) hash t)
            (rw (e, n, wait_for_tx_result) at h) (event_outcome-IsSettled m hash t)
    ]
  ]
    where
      settled : (made : RouteOutcome) → some made ≡ some out → IsSettled m made → IsSettled m out
      settled made g k = let same : made ≡ out = cc in subst (IsSettled m) same k

      nothing : Option RouteOutcome
      nothing = none

      never : nothing ≡ some out → IsSettled m out
      never g = absurd (cc)

  -- When the CosmWasm `Route` returns, it keeps the contract of `ChainProvider.Route`, whatever the
  -- node answers.
  pub wasm_route-IsSettled :
      (sequence : ℕ) (m : Message) (out : RouteOutcome)
      → (route cfg addresses node sequence m).1 ≡ some out
      → IsSettled m out
  unfolding route await_called
  wasm_route-IsSettled sequence m out h = after (call cfg addresses node sequence m) h
    where
      after :
          (r : ℕ × Result Text)
          → (await_called cfg addresses node m r).1 ≡ some out
          → IsSettled m out
      after (s, err x) g =
          let made : RouteOutcome = record { calls = []; returned = err x } in
          let same : made ≡ out = cc in subst (IsSettled m) same (inl (tt, (x, refl)))
      after (s, ok hash) g = wait_for_tx_result-IsSettled m hash out g

  -- What a transaction with a sequence number has passed.
  pub record IsPushed (sequence : ℕ) (c : ExecuteContract) (hash : Text) : Type 0 where
    pub simulated : Bool
    pub preset : ℕ
    pub gas : ℕ
    pub bytes : Text
    pub built : node.factory ≡ ok (simulated, preset)
    pub gas_read : gas_of cfg addresses node sequence c (simulated, preset) ≡ ok gas
    pub enough : cfg.min_gas_amount ≤ gas
    pub allowed : gas ≤ cfg.max_gas_amount
    pub prepared : node.prepare sequence gas c ≡ ok bytes
    pub accepted_ok : node.broadcast bytes ≡ ok (code_type_ok, hash)

  accepted-ok :
      (r : ℕ × Text) (hash : Text)
      → accepted cfg addresses node r ≡ ok hash
      → r ≡ (code_type_ok, hash)
  unfolding accepted
  accepted-ok (code, h) hash e = elim (Bool-cases (code == code_type_ok)) [
    | inl t ↦
        let zero_code : code ≡ code_type_ok = ground arith in
        ap (λ c. (c, h)) zero_code
        ∙ ap (λ x. (code_type_ok, x)) (ok_injective (rw (t, accepted) at e))
    | inr t ↦ absurd (refused (rw (t, accepted) at e))
  ]
    where
      ok_injective : {a b : Text} → ok a ≡ ok b → a ≡ b
      ok_injective g = cc

      failed_send : Result Text
      failed_send = err transaction_failed

      refused : failed_send ≡ ok hash → ⊥
      refused g = cc

  push_with-IsPushed :
      (sequence : ℕ) (c : ExecuteContract) (gas preset : ℕ) (simulated : Bool) (hash : Text)
      → node.factory ≡ ok (simulated, preset)
      → gas_of cfg addresses node sequence c (simulated, preset) ≡ ok gas
      → push_with cfg addresses node sequence c gas ≡ ok hash
      → IsPushed sequence c hash
  unfolding push_with
  push_with-IsPushed sequence c gas preset simulated hash f g h =
      elim (Bool-cases (ltb gas cfg.min_gas_amount)) [
        | inl t ↦ absurd (err-ne (gas_below_minimum gas) hash (rw (t, push_with) at h))
        | inr t ↦ elim (Bool-cases (ltb cfg.max_gas_amount gas)) [
          | inl u ↦ absurd (err-ne (gas_limit_exceeded gas) hash (rw (t, u, push_with) at h))
          | inr u ↦
              >>=-gives (node.prepare sequence gas c) _ hash (rw (t, u, push_with) at h)
                (λ bytes p k. >>=-gives (node.broadcast bytes) _ hash k (λ r q l. record {
                  simulated = simulated;
                  preset = preset;
                  gas = gas;
                  bytes = bytes;
                  built = f;
                  gas_read = g;
                  enough = ground arith;
                  allowed = ground arith;
                  prepared = p;
                  accepted_ok = q ∙ ap ok (accepted-ok r hash l);
                }))
        ]
      ]

  prepare_and_push-IsPushed :
      (sequence : ℕ) (c : ExecuteContract) (hash : Text)
      → prepare_and_push cfg addresses node sequence c ≡ ok hash
      → IsPushed sequence c hash
  unfolding prepare_and_push
  prepare_and_push-IsPushed sequence c hash h = >>=-gives node.factory _ hash h (λ f p g.
      >>=-gives (gas_of cfg addresses node sequence c f) _ hash g
        (λ gas q k. push_with-IsPushed sequence c gas f.1 f.0 hash p q k))

  -- The message is the call that was sent, with the sequence number: that of the wallet, or the one
  -- that the chain gave after a mismatch.
  abbrev pub IsCalled : ℕ → Message → ℕ → Text → Type 0
  IsCalled before m sequence hash =
      (raw : Text) × (get_raw_contract_message cfg addresses node m ≡ ok raw)
      × ((contract : Text) × (contract_of cfg addresses node m.event_type ≡ ok contract)
          × (IsPushed sequence (record { contract = contract; msg = raw }) hash
              × ((sequence ≡ before) ⊎ (node.account_sequence ≡ ok sequence))))

  resend-IsPushed :
      (before sequence : ℕ) (c : ExecuteContract) (r : Result Text) (hash : Text)
      → prepare_and_push cfg addresses node before c ≡ r
      → resend cfg addresses node before c r ≡ (sequence, ok hash)
      → IsPushed sequence c hash × ((sequence ≡ before) ⊎ (node.account_sequence ≡ ok sequence))
  unfolding resend
  resend-IsPushed before sequence c (ok h) hash p e =
      let same : before ≡ sequence = ap (λ x. x.0) e in
      let result_same : ok h ≡ ok hash = ap (λ x. x.1) e in
      (
        subst (λ s. IsPushed s c hash) same
            (prepare_and_push-IsPushed before c hash (p ∙ result_same)),
        inl (sym same),
      )
  resend-IsPushed before sequence c (err x) hash p e =
      elim (Bool-cases (contains (node.error_text x) node.wrong_sequence)) [
        | inr t ↦ absurd (err-ne x hash (ap (λ y. y.1) (rw (t, resend) at e)))
        | inl t ↦ elim (Result-cases node.account_sequence) [
          | inr (y, a) ↦ absurd (err-ne y hash (ap (λ z. z.1) (rw (t, a, resend) at e)))
          | inl (current, a) ↦
              resent current a (ap (λ z. z.0) (rw (t, a, resend) at e))
                (ap (λ z. z.1) (rw (t, a, resend) at e))
        ]
      ]
    where
      resent :
          (current : ℕ)
          → node.account_sequence ≡ ok current
          → current ≡ sequence
          → prepare_and_push cfg addresses node current c ≡ ok hash
          → IsPushed sequence c hash × ((sequence ≡ before) ⊎ (node.account_sequence ≡ ok sequence))
      resent current a same k = (
        subst (λ s. IsPushed s c hash) same (prepare_and_push-IsPushed current c hash k),
        inr (a ∙ ap ok same),
      )

  pub call-IsCalled :
      (before sequence : ℕ) (m : Message) (hash : Text)
      → call cfg addresses node before m ≡ (sequence, ok hash)
      → IsCalled before m sequence hash
  unfolding call
  call-IsCalled before sequence m hash h =
      elim (Result-cases (get_raw_contract_message cfg addresses node m)) [
        | inr (x, e) ↦ absurd (err-ne x hash (ap (λ y. y.1) (rw (e, call) at h)))
        | inl (raw, e) ↦ elim (Result-cases (contract_of cfg addresses node m.event_type)) [
          | inr (x, f) ↦ absurd (err-ne x hash (ap (λ y. y.1) (rw (e, f, call) at h)))
          | inl (contract, f) ↦
              let c : ExecuteContract = record { contract = contract; msg = raw } in
              let (pushed, from) =
                resend-IsPushed before sequence c (prepare_and_push cfg addresses node before c)
                  hash refl (rw (e, f, call) at h) in
              (raw, e, (contract, f, (pushed, from)))
        ]
      ]
