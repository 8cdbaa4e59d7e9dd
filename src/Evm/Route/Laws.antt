-- ===== src/Evm/Route/Laws.antt =====
-- What `Route` of relayer/chains/evm/route.go promises to its caller in relayer/relay.go.
use centralized_relay.Common.{
  ℕ, zero, suc, ◌+◌, ◌≤◌, ◌<◌, ◌≡◌, ◌≢◌, ◌↔◌, refl, ap, ◌∙◌, subst, [], ◌∷◌, Text, Option, none,
  some, receipt_timeout, gas_limit_exceeded, gas_below_minimum, Result, Error, ok, err, ltb, ◌==◌,
  Bool-cases, Result-cases, inl, inr, arith, ◌⊎◌,
}
use centralized_relay.Types.Message.{Message, TxResponse, success, message_key}
use centralized_relay.Store.Interface.{done}
use centralized_relay.Relayer.Route.{RouteOutcome}
use centralized_relay.Evm.Route.{
  ContractCall, GasConfig, EvmReceipt, Poll, found, not_found, broken, Node, EvmError,
  contract_call, adjusted, maximum_poll_try, receipt_successful, nonce_retry, submit_call,
  send_estimated, send_transaction, limit_less_than_gas, less_gas, nonce_too_low, nonce_too_high,
  unknown, wait_from, wait_for_results, tx_outcome, await_sent, route, parse_err,
}

module _ (cfg : GasConfig) (node : Node) where
  -- The poll `i` is the first, from `n` on, that is not answered with "not found", and its answer
  -- is `p`.
  abbrev pub IsAnswered : Text → ℕ → ℕ → Poll → Type 0
  IsAnswered hash n i p =
      (n ≤ i) × (node.poll hash i ≡ p) × ((j : ℕ) → n ≤ j → j < i → node.poll hash j ≡ not_found)

  found_first :
      (hash : Text) (n left : ℕ) (p : Poll) (next : Result EvmReceipt) (r : EvmReceipt)
      → node.poll hash n ≡ p
      → (elim p [ found x ↦ ok x | broken e ↦ err e | not_found ↦ next ]) ≡ ok r
      → (next ≡ ok r → (i : ℕ) × (i < n + 1 + left) × IsAnswered hash (n + 1) i (found r))
      → (i : ℕ) × (i < n + suc left) × IsAnswered hash n i (found r)
  found_first hash n left (found x) next r e h k =
      let same : x ≡ r = cc in
      (n, omega arith, (omega arith, e ∙ ap found same, λ j p q. absurd (omega arith)))
  found_first hash n left (broken x) next r e h k = absurd (cc)
  found_first hash n left not_found next r e h k =
      let (i, bound, (from, at_i, earlier)) = k h in
      (
        i,
        omega arith,
        (
          omega arith,
          at_i,
          λ j p q. elim (Bool-cases (j == n)) [
            | inl same ↦
                let eq : n ≡ j = ground arith in subst (λ m. node.poll hash m ≡ not_found) eq e
            | inr other ↦ earlier j (ground arith) q
          ],
        ),
      )

  wait_from-ok :
      (hash : Text) (left n : ℕ) (r : EvmReceipt)
      → wait_from cfg node hash left n ≡ ok r
      → (i : ℕ) × (i < n + left) × IsAnswered hash n i (found r)
  unfolding wait_from
  wait_from-ok hash zero n r e = cc
  wait_from-ok hash (suc left) n r e =
      found_first hash n left (node.poll hash n) (wait_from cfg node hash left (n + 1)) r refl e
        (wait_from-ok hash left (n + 1) r)

  wait_from_none :
      (hash : Text) (left n : ℕ)
      → ((i : ℕ) → n ≤ i → i < n + left → node.poll hash i ≡ not_found)
      → wait_from cfg node hash left n ≡ err (receipt_timeout (n + left))
  unfolding wait_from
  wait_from_none hash zero n h = ap (λ k. err (receipt_timeout k)) (omega arith)
  wait_from_none hash (suc left) n h =
      rw (h n (omega arith) (omega arith), wait_from)
        (wait_from_none hash left (n + 1) (λ i p q. h i (omega arith) (omega arith))
          ∙ ap (λ k. err (receipt_timeout k)) (omega arith))

  -- A receipt that is returned is the answer of one of the first fifteen polls, before which no
  -- poll was answered; and if none of the fifteen is, the wait ends with an error.
  wait_for_results_first :
      (hash : Text)
      → ((r : EvmReceipt)
          → wait_for_results cfg node hash ≡ ok r
          → (i : ℕ) × (i < 15) × IsAnswered hash 0 i (found r))
        × (((i : ℕ) → i < 15 → node.poll hash i ≡ not_found)
            → wait_for_results cfg node hash ≡ err (receipt_timeout 15))
  unfolding wait_for_results
  wait_for_results_first hash = (
    wait_from-ok hash maximum_poll_try 0,
    λ h. wait_from_none hash maximum_poll_try 0 (λ i p q. h i q),
  )

  -- What a transaction that was sent has passed: its estimate lies between the limits of the
  -- configuration, and the contract was called as the message's event type asks, with the adjusted
  -- estimate as its gas limit.
  pub record IsSent (m : Message) (nonce : ℕ) (hash : Text) : Type 0 where
    pub gas : ℕ
    pub call : ContractCall
    pub estimated : node.estimate_gas m ≡ ok gas
    pub enough : cfg.gas_min ≤ gas
    pub allowed : gas ≤ cfg.gas_limit
    pub meant : contract_call m ≡ ok call
    pub submitted : node.submit call (adjusted cfg gas) nonce ≡ ok hash

  -- The result after the pending nonce was read, or not.
  abbrev anew : Error → Result ℕ → Option ℕ × Result Text
  anew e r = elim r [ ok current ↦ (some current, err e) | err x ↦ (none, err x) ]

  anew_fails : (e : Error) (r : Result ℕ) (hash : Text) → (anew e r).1 ≢ ok hash
  anew_fails e (ok current) hash h = cc
  anew_fails e (err x) hash h = cc

  nonce_retry_fails :
      (x : EvmError) (e : Error) (nonce : ℕ) (hash : Text)
      → (nonce_retry cfg node x e nonce).1 ≢ ok hash
  unfolding nonce_retry
  nonce_retry_fails limit_less_than_gas e nonce hash h = cc
  nonce_retry_fails less_gas e nonce hash h = anew_fails e node.pending_nonce hash h
  nonce_retry_fails nonce_too_low e nonce hash h = anew_fails e node.pending_nonce hash h
  nonce_retry_fails nonce_too_high e nonce hash h = anew_fails e node.pending_nonce hash h
  nonce_retry_fails unknown e nonce hash h = cc

  submit_call-ok :
      (r : Result ContractCall) (gas nonce : ℕ) (hash : Text)
      → (submit_call cfg node r gas nonce).1 ≡ ok hash
      → (c : ContractCall) × (r ≡ ok c) × (node.submit c gas nonce ≡ ok hash)
  unfolding submit_call
  submit_call-ok (err e) gas nonce hash h = absurd (cc)
  submit_call-ok (ok c) gas nonce hash h = elim (Result-cases (node.submit c gas nonce)) [
    | inl (t, e) ↦ (c, refl, e ∙ (rw (e, submit_call) at h))
    | inr (x, e) ↦
        absurd (
          nonce_retry_fails (parse_err (node.error_text x)) x nonce hash (rw (e, submit_call) at h))
  ]

  -- A transaction that was sent has passed the limits, and is the call that the message asks for.
  pub send_transaction-IsSent :
      (m : Message) (nonce : ℕ) (hash : Text)
      → (send_transaction cfg node m nonce).1 ≡ ok hash
      → IsSent m nonce hash
  unfolding send_transaction send_estimated
  send_transaction-IsSent m nonce hash h = elim (Result-cases (node.estimate_gas m)) [
    | inl (gas, e) ↦ estimated_sent gas e (rw (e, send_transaction) at h)
    | inr (x, e) ↦ absurd (failed_sent x (rw (e, send_transaction) at h))
  ]
    where
      failed_text : Error → Result Text
      failed_text x = err x

      failed_sent : (x : Error) → failed_text x ≡ ok hash → ⊥
      failed_sent x g = cc

      estimated_sent :
          (gas : ℕ)
          → node.estimate_gas m ≡ ok gas
          → (send_estimated cfg node gas m nonce).1 ≡ ok hash
          → IsSent m nonce hash
      estimated_sent gas e g = elim (Bool-cases (ltb cfg.gas_limit gas)) [
        | inl t ↦ absurd (failed_sent (gas_limit_exceeded gas) (rw (t, send_estimated) at g))
        | inr t ↦ elim (Bool-cases (ltb gas cfg.gas_min)) [
          | inl u ↦ absurd (failed_sent (gas_below_minimum gas) (rw (t, u, send_estimated) at g))
          | inr u ↦
              let (c, meant, submitted) =
                submit_call-ok (contract_call m) (adjusted cfg gas) nonce hash
                  (rw (t, u, send_estimated) at g) in
              record {
                gas = gas;
                call = c;
                estimated = e;
                enough = ground arith;
                allowed = ground arith;
                meant = meant;
                submitted = submitted;
              }
        ]
      ]

  -- Nothing is reported before a transaction was sent, and then `Route` fails; after it, one
  -- response is reported for the message, which says success exactly if `Route` returns no error.
  abbrev pub Reports : Message → RouteOutcome → Type 0
  Reports m out =
      ((out.calls ≡ []) × ((e : Error) × (out.returned ≡ err e)))
      ⊎ ((r : TxResponse) × (out.calls ≡ (message_key m, r) ∷ [])
          × ((r.code ≡ success) ↔ (out.returned ≡ done)))

  tx_outcome-Reports :
      (m : Message) (hash : Text) (r : Result EvmReceipt)
      → Reports m (tx_outcome cfg node (message_key m) hash r)
  unfolding tx_outcome
  tx_outcome-Reports m hash (err e) = inr (_, refl, (λ h. cc, λ h. cc))
  tx_outcome-Reports m hash (ok r) = elim (Bool-cases (r.status == receipt_successful)) [
    | inl e ↦ rw (e, tx_outcome) (inr (_, refl, (λ h. refl, λ h. refl)))
    | inr e ↦ rw (e, tx_outcome) (inr (_, refl, (λ h. cc, λ h. cc)))
  ]

  await_sent-Reports : (m : Message) (sent : Result Text) → Reports m (await_sent cfg node m sent)
  unfolding await_sent
  await_sent-Reports m (err e) = inl (refl, (e, refl))
  await_sent-Reports m (ok hash) = tx_outcome-Reports m hash (wait_for_results cfg node hash)

  -- Whatever the node answers, `Route` calls its callback once at most, for its own message, and
  -- with success exactly if it then returns no error.
  pub route-Reports : (m : Message) (nonce : ℕ) → Reports m (route cfg node m nonce).1
  unfolding route
  route-Reports m nonce = elim (Result-cases node.suggest_options) [
    | inl (u, e) ↦ rw (e, route) (await_sent-Reports m (send_transaction cfg node m nonce).1)
    | inr (x, e) ↦ rw (e, route) (inl (refl, (x, refl)))
  ]
