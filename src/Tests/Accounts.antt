-- ===== src/Tests/Accounts.antt =====
-- The calls of an EVM chain with their bytes, and the options of its account (relayer/chains/evm).
use centralized_relay.Common.{
  ℕ, ◌*◌, Error, ◌≡◌, refl, [], ◌∷◌, none, true, false, Text, codes, text_eq, Result, ok, err,
  external, pos, if◌then◌else◌, some, arith,
}
use centralized_relay.Types.Contracts.{TextMap, lookup}
use centralized_relay.Evm.Calls.{
  Ethereum, MethodCall, method_set_admin, bound_call, estimated_call, estimate_packed, estimate_gas,
  transact_call, submit_bound, bound_node,
}
use centralized_relay.Evm.Calls.Laws.{RefusesTexts, IsEstimated, send_transaction-IsEstimated}
use centralized_relay.Evm.Options.{Account, Answers, TransactOpts, get_transaction_opts}
use centralized_relay.Evm.Options.Laws.{get_transaction_opts_takes, get_transaction_opts_panics}
use centralized_relay.Evm.Nonce.{NonceTracker, IsShared, set_nonce, set_nonce-IsShared, above}
use centralized_relay.Evm.Route.{send_transaction, send_estimated, submit_call, contract_call}
use centralized_relay.Tests.World.{eth, hello, today}
use centralized_relay.Tests.Evms.{limits, node}

-- A tracker that was set to the nonce 5.
abbrev tracker : NonceTracker
tracker = set_nonce today eth 0 (record { numbers = λ p. pos 5; next = 1; values = [] })

tracker-IsShared : IsShared eth (pos 4) today tracker
tracker-IsShared =
    set_nonce-IsShared today eth 0 (record { numbers = λ p. pos 5; next = 1; values = [] })

abbrev contracts : TextMap Text
contracts = (codes "connection", codes "0xc") ∷ (codes "xcall", codes "0xa") ∷ []

-- It packs a call into its method, refuses the text of an admin, and estimates 60 for any data.
abbrev pack_method : MethodCall → Result Text
pack_method c = if text_eq c.method method_set_admin then err (external 8) else ok c.method

abbrev ethereum : Ethereum
ethereum = record {
  to_address = λ t. t;
  pack = pack_method;
  estimate = λ to bytes. ok 60;
  transact = λ to bytes gas nonce. ok (codes "hash");
}

refuses : RefusesTexts ethereum contracts limits node
unfolding text_eq
refuses admin bytes h = refused h
  where
    refused : err (external 8) ≡ ok bytes → ⊥
    refused g = cc

hello_packed :
    (send_transaction limits (bound_node ethereum contracts node) hello 5).1 ≡ ok (codes "hash")
unfolding send_transaction send_estimated submit_call contract_call text_eq bound_node estimate_gas
    submit_bound transact_call bound_call estimated_call estimate_packed
hello_packed = refl

send_transaction-IsEstimated_example :
    IsEstimated ethereum contracts limits node hello 5 (codes "hash")
send_transaction-IsEstimated_example =
    send_transaction-IsEstimated ethereum contracts limits node hello 5 (codes "hash") refuses
      hello_packed

abbrev no_price : Answers
no_price = record {
  keystore = ok tt;
  signer = ok tt;
  pending = ok (pos 5);
  gas_price = err (external 9);
  gas_tip = ok 1;
}

abbrev account : Account
account = record { loaded = true; tracker = tracker }

get_transaction_opts_takes_example :
    (b : Account) × (b.loaded ≡ true)
    × IsShared eth (above (pos 4)) today b.tracker
    × ((e : Error)
        → no_price.gas_price ≡ err e
        → get_transaction_opts today eth no_price account ≡ some (b, err e))
    × ((price : ℕ)
        → no_price.gas_price ≡ ok price
        → get_transaction_opts today eth no_price account
          ≡ some (
            b,
            ok (record { nonce = above (pos 4); gas_fee_cap = price * 2; gas_tip_cap = some 1 }),
          ))
get_transaction_opts_takes_example =
    get_transaction_opts_takes today eth today (pos 4) no_price account refl refl tracker-IsShared
      (omega arith)

abbrev closed_account : Account
closed_account = record {
  loaded = false;
  tracker = record { numbers = λ p. pos 0; next = 0; values = [] };
}

abbrev unanswered : Answers
unanswered = record no_price { pending = err (external 9) }

closed_account_lookup : lookup eth closed_account.tracker.values ≡ none
unfolding lookup
closed_account_lookup = refl

get_transaction_opts_panics_example :
    (b : Account) × (get_transaction_opts today eth unanswered closed_account
      ≡ some (b, err (external 9)))
    × (get_transaction_opts today eth no_price b ≡ none)
get_transaction_opts_panics_example =
    get_transaction_opts_panics today eth (external 9) unanswered no_price closed_account refl
      closed_account_lookup refl refl refl

abbrev opts : TransactOpts
opts = record { nonce = pos 5; gas_fee_cap = 40; gas_tip_cap = some 1 }
