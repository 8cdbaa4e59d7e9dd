-- ===== src/Evm/Options.antt =====
-- Wallet, GetTransationOpts, ClaimFee and SetAdmin of relayer/chains/evm/provider.go.
pub mod Laws
use centralized_relay.Common.{
  ℕ, suc, ◌*◌, ◌==◌, List, [], ◌∷◌, Option, none, some, Bool, true, false, Text, ℤ, Result, ok, err,
  Error, Run, returns, fails, panics, ◌>>!◌, lift, ltb, if◌then◌else◌, gas_limit_exceeded,
  gas_below_minimum, transaction_failed, codes,
}
use centralized_relay.Types.Message.{BigInt}
use centralized_relay.Evm.Nonce.{NonceTracker, write, set_nonce, get_nonce}
use centralized_relay.Evm.Route.{
  ContractCall, set_admin, claim_fee, GasConfig, adjusted, Node, EvmReceipt, wait_for_results,
}
use centralized_relay.Evm.Calls.{
  Ethereum, MethodCall, method_set_admin, text_argument, estimate_packed, submit_bound,
}
use centralized_relay.Evm.Calls.Laws.{admin_call}
use centralized_relay.Types.Contracts.{TextMap, connection_contract}

-- Whether the key of the wallet was read, and the nonces.
pub record Account : Type 0 where
  pub loaded : Bool
  pub tracker : NonceTracker

-- The tip is nil when it cannot be read.
pub record TransactOpts : Type 0 where
  pub nonce : ℤ
  pub gas_fee_cap : ℕ
  pub gas_tip_cap : Option ℕ

-- What the key files, the library and the node answer: the key, a signer, the pending nonce, the gas
-- price and the tip.
pub record Answers : Type 0 where
  pub keystore : Result (Unit {0})
  pub signer : Result (Unit {0})
  pub pending : Result ℤ
  pub gas_price : Result ℕ
  pub gas_tip : Result ℕ

abbrev pub or_nil : Result ℕ → Option ℕ
or_nil (err e) = none
or_nil (ok tip) = some tip

module _ (now : ℕ) (addr : Text) where
  -- The pending nonce is a new number, which the tracker then keeps.
  unfoldable pub set_pending : ℤ → NonceTracker → NonceTracker
  unfolding set_nonce
  set_pending n t =
      set_nonce now addr t.next (record t { numbers = write t.numbers t.next n; next = suc t.next })

  -- `Wallet`, after the key was read.
  unfoldable pub first_nonce : Result ℤ → Account → Account × Result (Unit {0})
  unfolding set_pending
  first_nonce (err e) a = (record a { loaded = true }, err e)
  first_nonce (ok n) a = (record { loaded = true; tracker = set_pending n a.tracker }, ok tt)

  unfoldable pub wallet : Answers → Account → Account × Result (Unit {0})
  unfolding first_nonce
  wallet answers a =
      if a.loaded
      then (a, ok tt)
      else (elim answers.keystore [ err e ↦ (a, err e) | ok _ ↦ first_nonce answers.pending a ])

  -- The end of `GetTransationOpts`, which has taken a nonce.
  unfoldable pub priced : ℤ → Answers → Result TransactOpts
  priced n answers = elim answers.gas_price [
    | err e ↦ err e
    | ok price ↦
        ok (record { nonce = n; gas_fee_cap = price * 2; gas_tip_cap = or_nil answers.gas_tip })
  ]

  abbrev pub with_nonce :
      Answers → Account → NonceTracker × Option ℤ → Option (Account × Result TransactOpts)
  with_nonce answers a (t, none) = none
  with_nonce answers a (t, some n) = some (record a { tracker = t }, priced n answers)

  abbrev pub take_nonce : Answers → Account → Option (Account × Result TransactOpts)
  take_nonce answers a = elim (get_nonce now addr answers.pending a.tracker) [
    | none ↦ none
    | some taken ↦ with_nonce answers a taken
  ]

  abbrev pub opened : Answers → Account × Result (Unit {0}) → Option (Account × Result TransactOpts)
  opened answers (a, err e) = some (a, err e)
  opened answers (a, ok _) = elim answers.signer [
    | err e ↦ some (a, err e)
    | ok _ ↦ take_nonce answers a
  ]

  -- `GetTransationOpts`; a wallet whose nonce was never set panics: `none`.
  unfoldable pub get_transaction_opts : Answers → Account → Option (Account × Result TransactOpts)
  unfolding wallet get_nonce priced
  get_transaction_opts answers a = opened answers (wallet answers a)

abbrev pub fees_call : MethodCall
fees_call = record { contract = connection_contract; method = codes "claimFees"; arguments = [] }

-- The line that `SendTransaction` logs: a nil tip and a nil number panic.
unfoldable pub log_transaction : TransactOpts → Option BigInt → Run (Unit {0})
log_transaction o sn = elim o.gas_tip_cap [
  | none ↦ panics
  | some tip ↦ elim sn [ none ↦ panics | some n ↦ returns tt ]
]

module _ (cfg : GasConfig) (node : Node) (ethereum : Ethereum) (contracts : TextMap Text) where
  -- `SendTransaction` up to the call, for a message that may have no number.
  unfoldable pub send_logged :
      TransactOpts → Option BigInt → Option MethodCall → (ℕ → Result Text) → Run Text
  unfolding log_transaction estimate_packed
  send_logged o sn call submit = lift (estimate_packed ethereum contracts call) >>! λ gas.
      if ltb cfg.gas_limit gas
      then fails (gas_limit_exceeded gas)
      else if ltb gas cfg.gas_min
      then fails (gas_below_minimum gas)
      else (log_transaction o sn >>! λ _. lift (submit (adjusted cfg gas)))

  abbrev pub confirmed : Result EvmReceipt → Run (Unit {0})
  confirmed r =
      lift r >>! λ receipt. if receipt.status == 1 then returns tt else fails transaction_failed

  -- `ClaimFee`, whose message has no number, with the options and the call of the client.
  unfoldable pub claim_fees :
      Result TransactOpts → (ContractCall → ℕ → Result Text) → Run (Unit {0})
  unfolding send_logged wait_for_results
  claim_fees options submit = lift options >>! λ o.
      send_logged o none (some fees_call) (submit claim_fee) >>! λ hash.
      confirmed (wait_for_results cfg node hash)

  -- A transaction that `SetAdmin` did not get is nil, and its hash panics.
  abbrev pub unless_failed : Run Text → Run Text
  unless_failed (returns hash) = returns hash
  unless_failed (fails e) = panics
  unless_failed panics = panics

  -- `SetAdmin`, whose message has no number and keeps the admin where the call does not read it.
  unfoldable pub change_admin :
      Result TransactOpts → (ContractCall → ℕ → Result Text) → Run (Unit {0})
  unfolding send_logged wait_for_results
  change_admin options submit = lift options >>! λ o.
      unless_failed (send_logged o none (some (admin_call [])) (submit (set_admin []))) >>! λ hash.
      confirmed (wait_for_results cfg node hash)
