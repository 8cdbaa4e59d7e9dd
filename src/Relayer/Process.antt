-- ===== src/Relayer/Process.antt =====
-- `processMessages` of relayer/relay.go: which cached messages are handed to a routing goroutine.
pub mod Dispatch
use centralized_relay.Common.{
  ℕ, Bool, true, false, List, [], ◌∷◌, ◌++◌, Option, none, some, Text, Result, ok, err,
  if◌then◌else◌,
}
use centralized_relay.Types.Message.{MessageKey, RouteMessage}
use centralized_relay.Types.Retry.{toggle_processing}
use centralized_relay.Types.Cache.{MessageCache}
use centralized_relay.Types.Contracts.{TextMap, lookup}
use centralized_relay.Provider.{Provider}
use centralized_relay.Runtime.{ChainRuntime, should_send_message}
use centralized_relay.Relayer.State.{Env, State, Task, find_chain_runtime, modify_object}
use centralized_relay.Relayer.Clear.{clear_messages}

module _ {D : Type 0} (env : Env D) (now : ℕ) where
  -- The body of the inner loop after the message was marked as being processed: the destination is
  -- asked whether it has the message.
  unfoldable pub check_received : Text → Text → MessageKey → ℕ → Result Bool → State D → State D
  check_received src dst key p (err e) s = modify_object p toggle_processing s
  check_received src dst key p (ok true) s = (clear_messages env (key ∷ []) src s).0
  check_received src dst key p (ok false) s = record s {
    spawned = s.spawned ++ record { object = p; src = src; dst = dst } ∷ [];
  }

  -- The body of the inner loop for the destination that was found.
  unfoldable pub process_to : Text → Provider → MessageKey → ℕ → ChainRuntime → State D → State D
  unfolding check_received modify_object
  process_to src source key p dst s =
      if should_send_message now dst.provider (some (s.heap p)) source
      then check_received src (s.heap p).message.dst key p (dst.provider.message_received now key)
          (modify_object p toggle_processing s)
      else s

  unfoldable pub process_message : Text → Provider → MessageKey → ℕ → State D → State D
  process_message src source key p s = elim (find_chain_runtime s (s.heap p).message.dst) [
    | ok dst ↦ process_to src source key p dst s
    | err e ↦ (clear_messages env (key ∷ []) src s).0
  ]

  -- The range over the cache: only the entry that is visited is deleted meanwhile.
  unfoldable pub process_cache : Text → Provider → MessageCache → State D → State D
  process_cache src source [] s = s
  process_cache src source ((key, p) ∷ rest) s =
      process_cache src source rest (process_message src source key p s)

  unfoldable pub process_chains : TextMap ChainRuntime → State D → State D
  process_chains [] s = s
  process_chains ((nid, c) ∷ rest) s =
      process_chains rest (process_cache nid c.provider c.message_cache s)

  unfoldable pub process_messages : State D → State D
  process_messages s = process_chains s.chains s
