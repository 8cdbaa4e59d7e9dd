-- ===== src/Wasm/Msg.antt =====
-- The messages to the contracts: relayer/chains/wasm/types/msg.go.
use centralized_relay.Common.{List, Option, none, some, Text, codes, ℤ, int_string, Result, ok, err}
use centralized_relay.Types.Message.{Message}
use centralized_relay.Wasm.HexString.{new_from_byte}

-- `x.String()`, and `%d`, of a `*big.Int` that may be nil.
abbrev pub number_text : Option ℤ → Text
number_text none = codes "<nil>"
number_text (some v) = int_string v

-- A message before it is written as JSON. `execute_call none` is the nil pointer that
-- `NewExecExecMsg` returns when the data of the message is no list of integers.
pub data ExecMsg : Type 0 where
  receive_message : Text → Text → Text → ExecMsg
  execute_call : Option (Text × List ℤ) → ExecMsg
  revert_message : Text → ExecMsg
  set_admin : Text → ExecMsg
  claim_fees : ExecMsg
  set_fee : Text → Text → Text → ExecMsg
  execute_rollback : Text → ExecMsg

unfoldable pub new_exec_recv_msg : Message → ExecMsg
new_exec_recv_msg m = receive_message m.src (int_string m.sn.value) (new_from_byte m.bytes)

-- The JSON library reads the data of a message as a list of integers.
unfoldable pub new_exec_exec_msg : (Text → Result (List ℤ)) → Message → ExecMsg
new_exec_exec_msg read_ints m = elim (read_ints m.bytes) [
  | ok ints ↦ execute_call (some (number_text m.req_id, ints))
  | err e ↦ execute_call none
]

unfoldable pub new_exec_revert_msg : Message → ExecMsg
new_exec_revert_msg m = revert_message (int_string m.sn.value)

unfoldable pub new_exec_set_fee : Text → Option ℤ → Option ℤ → ExecMsg
new_exec_set_fee network fee response = set_fee network (number_text fee) (number_text response)

unfoldable pub new_exec_execute_rollback : ℤ → ExecMsg
new_exec_execute_rollback sn = execute_rollback (int_string sn)
