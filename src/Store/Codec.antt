-- ===== src/Store/Codec.antt =====
-- The JSON library (`jsoniter`), which is not part of the repository. `encode` stands for
-- `Marshal`; `decode addr` stands for `Unmarshal` into a new object whose `*big.Int` is allocated
-- at `addr`.
use centralized_relay.Common.{ℕ, ◌≡◌, Text, Result, ok}
use centralized_relay.Types.Message.{RouteMessage, TransactionObject}

pub record Codec (A : Type 0) : Type 0 where
  pub encode : A → Result Text
  pub decode : ℕ → Text → Result A

-- What is written can be read back, as a value whose big integer is a new object at `addr`; `at
-- addr` is a value with its big integer moved there.
pub record CodecLaws {A : Type 0} (c : Codec A) (at : ℕ → A → A) : Type 0 where
  pub decode-encode :
      (a : A) (b : Text) (addr : ℕ) → c.encode a ≡ ok b → c.decode addr b ≡ ok (at addr a)
  pub decode_placed : (a : A) (b : Text) (addr : ℕ) → c.decode addr b ≡ ok a → at addr a ≡ a

-- The message with its serial number moved to `addr`.
abbrev pub message_at : ℕ → RouteMessage → RouteMessage
message_at addr r = record r {
  message = record r.message { sn = record { addr = addr; value = r.message.sn.value } };
}

abbrev pub tx_object_at : ℕ → TransactionObject → TransactionObject
tx_object_at addr t = record t {
  message_key = record t.message_key {
    key = record t.message_key.key {
      sn = record { addr = addr; value = t.message_key.key.sn.value };
    };
  };
}

abbrev pub height_at : ℕ → ℕ → ℕ
height_at addr h = h
