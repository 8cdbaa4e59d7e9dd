-- ===== src/Runtime.antt =====
-- relayer/chain_runtime.go: a chain at run time, with its message cache.
use centralized_relay.Common.{
  ℕ, Bool, true, false, not, List, [], ◌∷◌, Option, none, some, Result, ok, err, chain_runtime_nil,
  if◌then◌else◌,
}
use centralized_relay.Types.Message.{RouteMessage, MessageKey}
use centralized_relay.Types.Retry.{is_processing}
use centralized_relay.Types.Cache
use centralized_relay.Types.Cache.{MessageCache, new_message_cache}
use centralized_relay.Provider.{Provider}
use centralized_relay.Chain.{Chain}

pub record ChainRuntime : Type 0 where
  pub provider : Provider
  pub last_block_height : ℕ
  pub last_saved_height : ℕ
  pub message_cache : MessageCache

unfoldable pub new_chain_runtime : Option Chain → Result ChainRuntime
new_chain_runtime none = err chain_runtime_nil
new_chain_runtime (some chain) = ok (record {
  provider = chain.chain_provider;
  last_block_height = 0;
  last_saved_height = 0;
  message_cache = new_message_cache;
})

unfoldable pub clear_message_from_cache : List MessageKey → ChainRuntime → ChainRuntime
clear_message_from_cache [] r = r
clear_message_from_cache (k ∷ ks) r =
    clear_message_from_cache ks (record r { message_cache = Cache.remove k r.message_cache })

-- `ok, err := …; !ok || err != nil` of the two provider tests.
unfoldable pub agrees : Result Bool → Bool
agrees (ok b) = b
agrees (err e) = false

unfoldable pub should_send_message : ℕ → Provider → Option RouteMessage → Provider → Bool
unfolding agrees
should_send_message now dst none src = false
should_send_message now dst (some r) src =
    if is_processing now r
    then false
    else if not (agrees (dst.should_receive_message now r.message))
    then false
    else if not (agrees (src.should_send_message now r.message))
    then false
    else true

unfoldable pub should_execute_call : ℕ → RouteMessage → Bool
should_execute_call now r = not (is_processing now r)
