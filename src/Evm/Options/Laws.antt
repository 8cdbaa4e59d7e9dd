-- ===== src/Evm/Options/Laws.antt =====
-- What GetTransationOpts does with the nonces (relayer/chains/evm/provider.go).
use centralized_relay.Common.{
  ℕ, ◌*◌, ◌-◌, ◌≤◌, ◌≡◌, ◌≢◌, refl, sym, ◌∙◌, Option, Option-cases, [], none, some, true, false,
  Text, ℤ, Result, ok, err, Error, Run, returns, fails, panics, >>!-gives, lift, ltb, Bool-cases,
  inl, inr, gas_limit_exceeded, gas_below_minimum, fails-ne,
}
use centralized_relay.Types.Contracts.{TextMap, lookup}
use centralized_relay.Evm.Nonce.{IsShared, nonce_update_interval, above, get_nonce, get_nonce_next}
use centralized_relay.Evm.Route.{ContractCall, set_admin, claim_fee, GasConfig, Node}
use centralized_relay.Evm.Calls.{Ethereum, MethodCall, estimate_packed}
use centralized_relay.Evm.Calls.Laws.{admin_call}
use centralized_relay.Evm.Options.{
  or_nil, Account, TransactOpts, Answers, first_nonce, wallet, priced, get_transaction_opts,
  log_transaction, fees_call, send_logged, unless_failed, claim_fees, change_admin,
}

module _ (now : ℕ) (addr : Text) where
  -- When the wallet is open, the signer is made, and the nonces were set at most three minutes ago to
  -- n, the nonce after n is taken and the next ones go on after it: whether the gas price cannot be
  -- read, and the call fails, or the options are made with this nonce and twice the price.
  pub get_transaction_opts_takes :
      (time : ℕ) (n : ℤ) (answers : Answers) (a : Account)
      → a.loaded ≡ true
      → answers.signer ≡ ok tt
      → IsShared addr n time a.tracker
      → now - time ≤ nonce_update_interval
      → (b : Account) × (b.loaded ≡ true)
        × IsShared addr (above n) time b.tracker
        × ((e : Error)
            → answers.gas_price ≡ err e
            → get_transaction_opts now addr answers a ≡ some (b, err e))
        × ((price : ℕ)
            → answers.gas_price ≡ ok price
            → get_transaction_opts now addr answers a
              ≡ some (
                b,
                ok (record {
                  nonce = above n;
                  gas_fee_cap = price * 2;
                  gas_tip_cap = or_nil answers.gas_tip;
                }),
              ))
  unfolding get_transaction_opts wallet lookup priced
  get_transaction_opts_takes time n answers a loaded signed shared soon =
      let (u, got, kept) = get_nonce_next now time addr answers.pending n a.tracker shared soon in
      (
        record a { tracker = u },
        loaded,
        kept,
        λ e p. rw (loaded, signed, got, get_transaction_opts, p, priced) refl,
        λ price p. rw (loaded, signed, got, get_transaction_opts, p, priced) refl,
      )

  -- When the pending nonce cannot be read after the key was read for the first time, the call fails,
  -- and the next call panics, whatever it is answered, unless its signer fails.
  pub get_transaction_opts_panics :
      (e : Error) (answers later : Answers) (a : Account)
      → a.loaded ≡ false
      → lookup addr a.tracker.values ≡ none
      → answers.keystore ≡ ok tt
      → answers.pending ≡ err e
      → later.signer ≡ ok tt
      → (b : Account) × (get_transaction_opts now addr answers a ≡ some (b, err e))
        × (get_transaction_opts now addr later b ≡ none)
  unfolding get_transaction_opts wallet first_nonce get_nonce lookup
  get_transaction_opts_panics e answers later a closed unset read failed signed = (
    record a { loaded = true },
    rw (closed, read, failed, get_transaction_opts) refl,
    rw (signed, unset, get_transaction_opts) refl,
  )

log_transaction-unnumbered : (o : TransactOpts) → log_transaction o none ≡ panics
unfolding log_transaction
log_transaction-unnumbered o = elim (Option-cases o.gas_tip_cap) [
  | inl e ↦ rw (e, log_transaction) refl
  | inr (tip, e) ↦ rw (e, log_transaction) refl
]

module _ (cfg : GasConfig) (node : Node) (ethereum : Ethereum) (contracts : TextMap Text) where
  -- A message without a number is not sent: the line that is logged before the call panics.
  send_logged-unnumbered :
      (o : TransactOpts) (call : Option MethodCall) (submit : ℕ → Result Text) (hash : Text)
      → send_logged cfg node ethereum contracts o none call submit ≢ returns hash
  unfolding send_logged
  send_logged-unnumbered o call submit hash h =
      >>!-gives (lift (estimate_packed ethereum contracts call)) _ hash h (λ gas p g.
        elim (Bool-cases (ltb cfg.gas_limit gas)) [
          | inl t ↦ fails-ne (gas_limit_exceeded gas) hash (rw t at g)
          | inr t ↦ elim (Bool-cases (ltb gas cfg.gas_min)) [
            | inl u ↦ fails-ne (gas_below_minimum gas) hash (rw (t, u) at g)
            | inr u ↦
                >>!-gives (log_transaction o none) _ hash (rw (t, u) at g)
                  (λ v q k. stops v (sym (log_transaction-unnumbered o) ∙ q))
          ]
        ])
    where
      stops : (v : Unit {0}) → panics ≡ returns v → ⊥
      stops v q = cc

  -- Whatever the node and the library answer, ClaimFee and SetAdmin do not return without an error.
  claim_fees_stops :
      (options : Result TransactOpts) (submit : ContractCall → ℕ → Result Text)
      → (claim_fees cfg node ethereum contracts options submit ≢ returns tt)
        × (change_admin cfg node ethereum contracts options submit ≢ returns tt)
  unfolding claim_fees change_admin
  claim_fees_stops options submit = (
    λ h. >>!-gives (lift options) _ tt h (λ o p g.
        >>!-gives
          (send_logged cfg node ethereum contracts o none (some fees_call) (submit claim_fee)) _ tt
          g (λ hash q k. send_logged-unnumbered o (some fees_call) (submit claim_fee) hash q)),
    λ h. >>!-gives (lift options) _ tt h (λ o p g.
        >>!-gives
          (unless_failed cfg node ethereum contracts (
            send_logged cfg node ethereum contracts o none (some (admin_call []))
              (submit (set_admin []))))
          _ tt g
          (λ hash q k.
            send_logged-unnumbered o (some (admin_call [])) (submit (set_admin [])) hash
              (sent _ hash q))),
  )
    where
      sent :
          (r : Run Text) (hash : Text)
          → unless_failed cfg node ethereum contracts r ≡ returns hash
          → r ≡ returns hash
      sent (returns x) hash q = q
      sent (fails e) hash q = absurd (cc)
      sent panics hash q = absurd (cc)
