-- ===== src/Events.antt =====
-- relayer/events/eventTypes.go: the names of the event types.
use centralized_relay.Common.{Text, codes}

abbrev pub emit_message : Text
emit_message = codes "emitMessage"

abbrev pub call_message : Text
call_message = codes "callMessage"

abbrev pub rollback_message : Text
rollback_message = codes "rollbackMessage"

abbrev pub revert_message : Text
revert_message = codes "revertMessage"

abbrev pub set_admin : Text
set_admin = codes "setAdmin"

abbrev pub get_fee : Text
get_fee = codes "getFee"

abbrev pub set_fee : Text
set_fee = codes "setFee"

abbrev pub claim_fee : Text
claim_fee = codes "claimFee"
