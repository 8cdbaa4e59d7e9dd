-- ===== src/Store/Messages.antt =====
-- `MessageStore` of relayer/store/messageStore.go over any `Store` and JSON library.
pub mod Scan
pub mod Laws
use centralized_relay.Common.{
  ℕ, zero, suc, ◌+◌, List, [], ◌∷◌, ◌++◌, Option, none, some, Text, length, Result, ok, err, ◌>>=◌,
  message_nil, ◌==◌, if◌then◌else◌,
}
use centralized_relay.Types.Message.{RouteMessage, MessageKey}
use centralized_relay.Store.Interface.{Store, set_encoded}
use centralized_relay.Store.Keys.{entry_key, chain_key, get_key}
use centralized_relay.Store.Pagination.{Pagination}
use centralized_relay.Store.Codec.{Codec}

-- The loop of `GetMessages`: `n` messages are read, and the next one is allocated at `addr`. The
-- test for the limit comes after the append, so a limit of 0 is never met.
unfoldable pub read_messages :
    Codec RouteMessage
    → ℕ
    → ℕ
    → ℕ
    → List (Text × Text)
    → Result (Unit {0})
    → Result (List RouteMessage)
read_messages c limit n addr [] failure = failure >>= λ _. ok []
read_messages c limit n addr ((k, v) ∷ rest) failure =
    let more = read_messages c limit (n + 1) (addr + 1) rest failure in
    c.decode addr v >>= λ m. if n + 1 == limit then ok (m ∷ []) else (more >>= λ ms. ok (m ∷ ms))

module _ {D : Type 0} (db : Store D) (c : Codec RouteMessage) (prefix : Text) where
  abbrev pub message_db_key : RouteMessage → Text
  message_db_key r = entry_key prefix r.message.src r.message.sn.value

  unfoldable pub store_message : D → Option RouteMessage → D × Result (Unit {0})
  store_message d none = (d, err message_nil)
  store_message d (some r) = set_encoded db d (message_db_key r) (c.encode r)

  unfoldable pub get_message : D → ℕ → MessageKey → Result RouteMessage
  get_message d addr k =
      db.get_by_key d (entry_key prefix k.src k.sn.value) >>= λ v. c.decode addr v

  unfoldable pub get_messages : D → ℕ → Text → Pagination → Result (List RouteMessage)
  get_messages d addr nid p =
      let it = db.new_iterator d (chain_key prefix nid) in
      read_messages c p.limit 0 addr it.pairs it.failure

  unfoldable pub delete_message : D → MessageKey → D × Result (Unit {0})
  delete_message d k = db.delete_by_key d (entry_key prefix k.src k.sn.value)

  unfoldable pub count_by_key : D → Text → Result ℕ
  count_by_key d k = let it = db.new_iterator d k in it.failure >>= λ _. ok (length it.pairs)

  unfoldable pub total_count : D → Result ℕ
  total_count d = count_by_key d (get_key (prefix ∷ []))

  unfoldable pub total_count_by_chain : D → Text → Result ℕ
  total_count_by_chain d nid = count_by_key d (chain_key prefix nid)
