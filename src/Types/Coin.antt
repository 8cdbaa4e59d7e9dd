-- ===== src/Types/Coin.antt =====
-- `Coin` of relayer/types/types.go. `Calculate` prints a float and is not modelled.
use centralized_relay.Common.{ℕ, ◌+◌, Text, map, ◌++◌, decimal, leb, ◌&&◌, if◌then◌else◌}

pub record Coin : Type 0 where
  pub denom : Text
  pub amount : ℕ

-- `strings.ToLower` on ASCII text.
unfoldable pub lower : ℕ → ℕ
lower c = if leb b'A' c && leb c b'Z' then c + 32 else c

unfoldable pub new_coin : Text → ℕ → Coin
unfolding lower
new_coin denom amount = record { denom = map lower denom; amount = amount }

unfoldable pub coin_string : Coin → Text
coin_string c = decimal c.amount ++ c.denom
