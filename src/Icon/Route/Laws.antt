-- ===== src/Icon/Route/Laws.antt =====
-- What `Route` of relayer/chains/icon/route.go promises, and which transactions it sends.
use centralized_relay.Common.{
  ℕ, ◌≡◌, refl, sym, ap, ◌∙◌, subst, List, [], ◌∷◌, ◌++◌, none, some, Option, Text, Bool, true,
  false, ℤ, All, pos, Result, ok, err, Error, inl, inr, Bool-cases, Run, returns, fails, panics,
  lift, >>!-gives, lift-returns, returns_injective, fails-ne, ltb_ℤ, bits64, step_limit_exceeded,
  step_below_minimum, transaction_failed, ◌≤◌, ◌^◌, IsByte, number_out_of_range,
}
use centralized_relay.Types.Message.{Message, MessageKey, TxResponse, failed, message_key}
use centralized_relay.Types.Contracts.{TextMap, EventMap}
use centralized_relay.Store.Interface.{done}
use centralized_relay.Relayer.Route.{RouteOutcome}
use centralized_relay.Relayer.Route.Contract.{IsFailure, IsSettled}
use centralized_relay.Icon.Types.{hex_int64, hex_int_value, new_hex_int, new_hex_bytes}
use centralized_relay.Icon.Types.Laws.{hex_int64_refuses, hex_bytes_value-new_hex_bytes}
use centralized_relay.Icon.Client.{TransactionResult, TransactionParam, Node, wait_for_results}
use centralized_relay.Icon.Query.{whole}
use centralized_relay.Icon.Route.{
  StepConfig, IconMessage, make_icon_message, adjusted_steps, tx_param, send_estimated,
  send_transaction, height_calls, status_outcome, is_success, tx_outcome, wait_for_tx_result,
  outcome_after, route,
}

module _ (cfg : StepConfig) (node : Node) where
  height_calls-IsFailure :
      (m : Message) (hash : Text) (h : ℤ × Option Error)
      → All (IsFailure m) (height_calls cfg node (message_key m) hash h)
  height_calls-IsFailure m hash (v, none) = tt
  height_calls-IsFailure m hash (v, some e) = ((refl, refl), tt)

  All-append_one :
      (m : Message) (xs : List (MessageKey × TxResponse)) (x : MessageKey × TxResponse)
      → All (IsFailure m) xs
      → IsFailure m x
      → All (IsFailure m) (xs ++ x ∷ [])
  All-append_one m [] x h p = (p, tt)
  All-append_one m (y ∷ xs) x h p = (h.0, All-append_one m xs x h.1 p)

  status_outcome-IsSettled :
      (m : Message) (hash : Text) (height : ℕ) (before : List (MessageKey × TxResponse)) (b : Bool)
      → All (IsFailure m) before
      → IsSettled m (status_outcome cfg node (message_key m) hash height before b)
  status_outcome-IsSettled m hash height before true h = inr (before, h, (_, refl, (refl, refl)))
  status_outcome-IsSettled m hash height before false h = inl (
    All-append_one m before
        (message_key m, record { height = height; tx_hash = hash; code = failed }) h (refl, refl),
    (transaction_failed, refl),
  )

  tx_outcome-IsSettled :
      (m : Message) (hash : Text) (r : Result TransactionResult)
      → IsSettled m (tx_outcome cfg node (message_key m) hash r)
  unfolding tx_outcome
  tx_outcome-IsSettled m hash (err e) = inl (((refl, refl), tt), (e, refl))
  tx_outcome-IsSettled m hash (ok r) =
      status_outcome-IsSettled m hash _ _ (is_success cfg node (hex_int64 r.status))
        (height_calls-IsFailure m hash (hex_int_value r.block_height))

  -- The outcome of a call that does not panic keeps the contract if what follows it does.
  outcome_after-IsSettled :
      {A : Type 0} (m : Message) (r : Run A) (f : A → Option RouteOutcome) (out : RouteOutcome)
      → outcome_after cfg node r f ≡ some out
      → ((a : A) → r ≡ returns a → f a ≡ some out → IsSettled m out)
      → IsSettled m out
  outcome_after-IsSettled m (returns a) f out h k = k a refl h
  outcome_after-IsSettled m (fails e) f out h k =
      let made : RouteOutcome = record { calls = []; returned = err e } in
      let same : made ≡ out = cc in subst (IsSettled m) same (inl (tt, (e, refl)))
  outcome_after-IsSettled m panics f out h k = absurd (cc)

  -- When the ICON `Route` does not panic, it keeps the contract of `ChainProvider.Route`, whatever the
  -- node answers: it reports failures of the message and returns an error, or reports failures, then
  -- one success, and returns no error.
  pub icon_route-IsSettled :
      (contracts : TextMap EventMap) (m : Message) (out : RouteOutcome)
      → route cfg node contracts m ≡ some out
      → IsSettled m out
  unfolding route wait_for_tx_result
  icon_route-IsSettled contracts m out h =
      outcome_after-IsSettled m (make_icon_message contracts m) _ out h (λ msg p g.
        outcome_after-IsSettled m (send_transaction cfg node msg) _ out g (λ hash q k.
          let made : RouteOutcome = wait_for_tx_result cfg node (message_key m) hash in
          let same : made ≡ out = cc in
          subst (IsSettled m) same (
            tx_outcome-IsSettled m (new_hex_bytes hash)
              (wait_for_results node (new_hex_bytes hash)))))

  -- What a transaction that was sent has passed.
  pub record IsSent (msg : IconMessage) (hash : Text) : Type 0 where
    pub wallet : Text
    pub step : Text
    pub steps : ℤ
    pub unlocked : node.wallet ≡ ok wallet
    pub estimated : node.estimate_step (tx_param cfg node wallet msg) ≡ ok step
    pub read : hex_int64 step ≡ (steps, none)
    pub allowed : ltb_ℤ cfg.step_limit steps ≡ false
    pub enough : ltb_ℤ steps cfg.step_min ≡ false
    pub signed :
        node.sign (record (tx_param cfg node wallet msg) {
          step_limit = new_hex_int (adjusted_steps cfg steps);
        })
        ≡ ok hash
    pub submitted :
        node.send (record (tx_param cfg node wallet msg) {
          step_limit = new_hex_int (adjusted_steps cfg steps);
        })
        ≡ done

  whole-ok : (r : ℤ × Option Error) (v : ℤ) → whole r ≡ ok v → r ≡ (v, none)
  whole-ok (w, none) v h = cc
  whole-ok (w, some e) v h = absurd (cc)

  send_estimated-IsSent :
      (msg : IconMessage) (wallet step : Text) (steps : ℤ) (hash : Text)
      → ((p : TransactionParam) (x : Text) → node.sign p ≡ ok x → All IsByte x)
      → node.wallet ≡ ok wallet
      → node.estimate_step (tx_param cfg node wallet msg) ≡ ok step
      → hex_int64 step ≡ (steps, none)
      → send_estimated cfg node (tx_param cfg node wallet msg) steps ≡ returns hash
      → IsSent msg hash
  unfolding send_estimated
  send_estimated-IsSent msg wallet step steps hash bytes w e r h =
      elim (Bool-cases (ltb_ℤ cfg.step_limit steps)) [
        | inl t ↦
            absurd
              (fails-ne (step_limit_exceeded (bits64 steps)) hash (rw (t, send_estimated) at h))
        | inr t ↦ elim (Bool-cases (ltb_ℤ steps cfg.step_min)) [
          | inl u ↦
              absurd
                (fails-ne (step_below_minimum (bits64 steps)) hash (rw (t, u, send_estimated) at h))
          | inr u ↦
              let limited : TransactionParam = record (tx_param cfg node wallet msg) {
                step_limit = new_hex_int (adjusted_steps cfg steps);
              } in
              >>!-gives (lift (node.sign limited)) _ hash (rw (t, u, send_estimated) at h)
                (λ signed p g. >>!-gives (lift (node.send limited)) _ hash g (λ sent q k.
                  let is_signed : node.sign limited ≡ ok signed =
                    lift-returns (node.sign limited) signed p in
                  let same : signed ≡ hash = returns_injective (
                    sym (hex_bytes_value-new_hex_bytes signed (bytes limited signed is_signed))
                    ∙ k) in
                  record {
                    wallet = wallet;
                    step = step;
                    steps = steps;
                    unlocked = w;
                    estimated = e;
                    read = r;
                    allowed = t;
                    enough = u;
                    signed = is_signed ∙ ap ok same;
                    submitted = lift-returns (node.send limited) sent q;
                  }))
        ]
      ]

  -- An ICON transaction that was sent has an estimate of steps that was read and lies between the
  -- configured limits; it was signed and submitted with the adjusted estimate as its step limit, and the
  -- hash that is returned is the one that was signed, when hashes are bytes.
  pub icon_send_transaction-IsSent :
      (msg : IconMessage) (hash : Text)
      → ((p : TransactionParam) (x : Text) → node.sign p ≡ ok x → All IsByte x)
      → send_transaction cfg node msg ≡ returns hash
      → IsSent msg hash
  unfolding send_transaction
  icon_send_transaction-IsSent msg hash bytes h =
      >>!-gives (lift node.wallet) _ hash h (λ wallet w g.
        >>!-gives (lift (node.estimate_step (tx_param cfg node wallet msg))) _ hash g (λ step e k.
          >>!-gives (lift (whole (hex_int64 step))) _ hash k (λ steps r l.
            send_estimated-IsSent msg wallet step steps hash bytes
              (lift-returns node.wallet wallet w)
              (lift-returns (node.estimate_step (tx_param cfg node wallet msg)) step e)
              (whole-ok (hex_int64 step) steps (lift-returns (whole (hex_int64 step)) steps r)) l)))

  -- An estimate of 2^31 steps or more is refused, whatever limit is configured.
  send_transaction_refuses :
      (msg : IconMessage) (wallet : Text) (n : ℕ)
      → node.wallet ≡ ok wallet
      → node.estimate_step (tx_param cfg node wallet msg) ≡ ok (new_hex_int (pos n))
      → 2 ^ 31 ≤ n
      → send_transaction cfg node msg ≡ fails number_out_of_range
  unfolding send_transaction
  send_transaction_refuses msg wallet n w e h =
      rw (w, send_transaction) (rw (e, send_transaction) (rw (hex_int64_refuses n h) refl))
