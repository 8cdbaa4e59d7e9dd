-- ===== src/Icon/Calls.antt =====
-- The calls of relayer/chains/icon/provider.go that send a transaction of their own.
use centralized_relay.Common.{
  [], ◌∷◌, Option, some, Text, codes, text_eq, ℤ, pos, Result, ok, err, ◌>>=◌, Run, ◌>>!◌, lift,
  if◌then◌else◌, int64, transaction_failed,
}
use centralized_relay.Types.Contracts.{TextMap, xcall_contract, connection_contract}
use centralized_relay.Types.EventMaps.{value_at}
use centralized_relay.Icon.Types.{new_hex_int, new_hex_bytes}
use centralized_relay.Icon.Client.{Node, wait_for_results}
use centralized_relay.Icon.Route.{StepConfig, new_icon_message, int64_at, send_transaction}

module _ (cfg : StepConfig) (node : Node) where
  -- `txr.Status != types.NewHexInt(1)`, with the texts compared.
  unfoldable pub confirm : Text → Result (Unit {0})
  confirm hash = wait_for_results node hash >>= λ r.
      if text_eq r.status (new_hex_int (pos 1)) then ok tt else err transaction_failed

  -- The calls of provider.go that wait for the transaction with the hash that is returned.
  unfoldable pub administer : Text → TextMap Text → Text → Run (Unit {0})
  unfolding send_transaction confirm new_icon_message
  administer address params method =
      send_transaction cfg node (new_icon_message address (some params) method) >>! λ hash.
      lift (confirm (new_hex_bytes hash))

  module _ (addresses : TextMap Text) where
    -- The number is not nil.
    unfoldable pub revert_message : ℤ → Run (Unit {0})
    unfolding administer value_at
    revert_message sn =
        administer (value_at connection_contract addresses)
          ((codes "sn", new_hex_int (int64 sn)) ∷ []) (codes "revertMessage")

    unfoldable pub set_fee : Text → Option ℤ → Option ℤ → Run (Unit {0})
    unfolding administer value_at
    set_fee network fee response = int64_at fee >>! λ message_fee.
        int64_at response >>! λ response_fee.
        administer (value_at connection_contract addresses)
          ((codes "networkId", network)
            ∷ (codes "messageFee", new_hex_int message_fee)
            ∷ (codes "responseFee", new_hex_int response_fee)
            ∷ [])
          (codes "setFee")

    unfoldable pub claim_fee : Run (Unit {0})
    unfolding administer value_at
    claim_fee = administer (value_at connection_contract addresses) [] (codes "claimFees")

    unfoldable pub execute_rollback : ℤ → Run (Unit {0})
    unfolding administer value_at
    execute_rollback sn =
        administer (value_at xcall_contract addresses) ((codes "_sn", new_hex_int sn) ∷ [])
          (codes "executeRollback")

    -- `SetAdmin` waits for the bytes of the hash, not for their hexadecimal text.
    unfoldable pub set_admin : Text → Run (Unit {0})
    unfolding send_transaction confirm value_at new_icon_message
    set_admin admin =
        send_transaction cfg node (
          new_icon_message (value_at connection_contract addresses)
            (some ((codes "_relayer", admin) ∷ [])) (codes "setAdmin"))
        >>! λ hash. lift (confirm hash)
