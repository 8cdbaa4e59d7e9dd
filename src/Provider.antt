-- ===== src/Provider.antt =====
-- relayer/provider/provider.go: the interface of a chain provider and the common configuration.
use centralized_relay.Common.{
  ℕ, Bool, not, List, [], Option, Text, ℤ, text_eq, Result, ok, err, if◌then◌else◌,
  empty_chain_name, empty_home_dir,
}
use centralized_relay.Types.Message.{Message, MessageKey, MessageKeyWithMessageHeight, Receipt}
use centralized_relay.Types.Contracts.{TextMap}

-- `ChainProvider`: what the relayer asks of a chain. The first argument of a query is the time at
-- which it is made, so answers may differ from call to call. `Route` calls back and returns later:
-- its result is part of a step of the relayer (`RouteOutcome` of Relayer.State).
pub record Provider : Type 0 where
  pub nid : Text
  pub name : Text
  pub query_latest_height : ℕ → Result ℕ
  pub query_transaction_receipt : ℕ → Text → Result Receipt
  pub should_receive_message : ℕ → Message → Result Bool
  pub should_send_message : ℕ → Message → Result Bool
  pub message_received : ℕ → MessageKey → Result Bool
  pub finality_block : ℕ → ℕ
  pub generate_messages : ℕ → MessageKeyWithMessageHeight → Result (List Message)
  pub revert_message : ℕ → ℤ → Result (Unit {0})
  pub get_fee : ℕ → Text → Bool → Result ℕ
  pub set_fee : ℕ → Text → Option ℤ → Option ℤ → Result (Unit {0})
  pub claim_fee : ℕ → Result (Unit {0})

pub record CommonConfig : Type 0 where
  pub chain_name : Text
  pub rpc_url : Text
  pub start_height : ℕ
  pub address : Text
  pub contracts : TextMap Text
  pub finality_block : ℕ
  pub nid : Text
  pub home_dir : Text
  pub disabled : Bool

unfoldable pub enabled : CommonConfig → Bool
enabled c = not c.disabled

unfoldable pub set_wallet : Text → CommonConfig → CommonConfig
set_wallet addr c = record c { address = addr }

unfoldable pub get_wallet : CommonConfig → Text
get_wallet c = c.address

unfoldable pub validate : CommonConfig → Result (Unit {0})
validate c =
    if text_eq c.chain_name []
    then err empty_chain_name
    else if text_eq c.home_dir []
    then err empty_home_dir
    else ok tt
