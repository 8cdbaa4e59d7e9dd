-- ===== src/Types/Cache.antt =====
-- `MessageCache` of relayer/types/types.go. The lock makes each operation atomic, and an operation
-- here is one such step. The cached pointers are addresses into the heap of the relayer's state.
pub mod Laws
use centralized_relay.Common.{ℕ, List, [], ◌∷◌, Option, none, some, length, if◌then◌else◌}
use centralized_relay.Types.Message.{MessageKey, key_eq}

abbrev pub MessageCache : Type 0
MessageCache = List (MessageKey × ℕ)

abbrev pub new_message_cache : MessageCache
new_message_cache = []

-- `m.Messages[*r.MessageKey()] = r`: a key that is there keeps its place.
unfoldable pub add : MessageKey → ℕ → MessageCache → MessageCache
add k r [] = (k, r) ∷ []
add k r ((j, s) ∷ m) = if key_eq j k then (j, r) ∷ m else (j, s) ∷ add k r m

abbrev pub len : MessageCache → ℕ
len m = length m

unfoldable pub remove : MessageKey → MessageCache → MessageCache
remove k [] = []
remove k ((j, s) ∷ m) = let rest = remove k m in if key_eq j k then rest else (j, s) ∷ rest

unfoldable pub get : MessageKey → MessageCache → Option ℕ
get k [] = none
get k ((j, s) ∷ m) = if key_eq j k then some s else get k m
