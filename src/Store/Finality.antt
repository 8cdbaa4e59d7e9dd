-- ===== src/Store/Finality.antt =====
-- `FinalityStore` of relayer/store/finalityStore.go: transaction objects, kept by the destination.
pub mod Laws
use centralized_relay.Common.{
  ℕ, ◌+◌, List, [], ◌∷◌, Option, none, some, Text, length, Bool, Result, ok, err, ◌>>=◌,
  message_nil, zero, suc, if◌then◌else◌,
}
use centralized_relay.Types.Message.{TransactionObject, MessageKey}
use centralized_relay.Store.Interface.{Store, set_encoded}
use centralized_relay.Store.Keys.{entry_key, chain_key, get_key}
use centralized_relay.Store.Pagination.{Pagination}
use centralized_relay.Store.Codec.{Codec}

-- `for iter.Next()`, the loop of `p.All`.
unfoldable pub read_all :
    Codec TransactionObject → ℕ → List (Text × Text) → Result (List TransactionObject)
read_all c addr [] = ok []
read_all c addr ((k, v) ∷ rest) =
    let more = read_all c (addr + 1) rest in c.decode addr v >>= λ t. more >>= λ ts. ok (t ∷ ts)

-- `for i < p.Limit && iter.Next()`; the iterator's error is read after the loop.
unfoldable pub read_limit :
    Codec TransactionObject
    → ℕ
    → ℕ
    → List (Text × Text)
    → Result (Unit {0})
    → Result (List TransactionObject)
read_limit c zero addr pairs failure = ok []
read_limit c (suc left) addr [] failure = failure >>= λ _. ok []
read_limit c (suc left) addr ((k, v) ∷ rest) failure =
    let more = read_limit c left (addr + 1) rest failure in
    c.decode addr v >>= λ t. more >>= λ ts. ok (t ∷ ts)

module _ {D : Type 0} (db : Store D) (c : Codec TransactionObject) (prefix : Text) where
  abbrev pub tx_db_key : TransactionObject → Text
  tx_db_key t = entry_key prefix t.message_key.key.dst t.message_key.key.sn.value

  unfoldable pub store_tx_object : D → Option TransactionObject → D × Result (Unit {0})
  store_tx_object d none = (d, err message_nil)
  store_tx_object d (some t) = set_encoded db d (tx_db_key t) (c.encode t)

  unfoldable pub get_tx_object : D → ℕ → MessageKey → Result TransactionObject
  get_tx_object d addr k =
      db.get_by_key d (entry_key prefix k.dst k.sn.value) >>= λ v. c.decode addr v

  unfoldable pub get_tx_objects : D → ℕ → Text → Pagination → Result (List TransactionObject)
  get_tx_objects d addr nid p =
      let it = db.new_iterator d (chain_key prefix nid) in
      if p.is_all
      then (read_all c addr it.pairs >>= λ ts. it.failure >>= λ _. ok ts)
      else read_limit c p.limit addr it.pairs it.failure

  unfoldable pub delete_tx_object : D → MessageKey → D × Result (Unit {0})
  delete_tx_object d k = db.delete_by_key d (entry_key prefix k.dst k.sn.value)

  unfoldable pub tx_count_by_key : D → Text → Result ℕ
  tx_count_by_key d k = let it = db.new_iterator d k in it.failure >>= λ _. ok (length it.pairs)

  unfoldable pub tx_total_count : D → Result ℕ
  tx_total_count d = tx_count_by_key d (get_key (prefix ∷ []))

  unfoldable pub tx_total_count_by_chain : D → Text → Result ℕ
  tx_total_count_by_chain d nid = tx_count_by_key d (chain_key prefix nid)
