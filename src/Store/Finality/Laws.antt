-- ===== src/Store/Finality/Laws.antt =====
-- What is read from the store of transaction objects (relayer/store/finalityStore.go).
use centralized_relay.Common.{
  ℕ, zero, suc, ◌+◌, ◌≤◌, ◌≡◌, ◌≢◌, refl, ap, false, List, [], ◌∷◌, some, Text, text_eq_refl,
  length, Result, ok, err, ◌>>=◌, Result-cases, inl, inr, arith,
}
use centralized_relay.Types.Message.{TransactionObject, MessageKey}
use centralized_relay.Store.Interface.{Store, StoreLaws, done, set_encoded-done, set_encoded_failed}
use centralized_relay.Store.Pagination.{Pagination}
use centralized_relay.Store.Codec.{Codec, CodecLaws, tx_object_at}
use centralized_relay.Store.Finality.{
  read_limit, store_tx_object, get_tx_object, get_tx_objects, tx_db_key,
}

module _ {D : Type 0} (db : Store D) (c : Codec TransactionObject) (prefix : Text)
    (laws : StoreLaws db) where
  -- A transaction object that was stored with no error is read back by every key with its
  -- destination and its number.
  pub get_tx_object-store_tx_object :
      (codec_laws : CodecLaws c tx_object_at) (d : D) (t : TransactionObject) (addr : ℕ)
      (k : MessageKey)
      → (store_tx_object db c prefix d (some t)).1 ≡ done
      → k.dst ≡ t.message_key.key.dst
      → k.sn.value ≡ t.message_key.key.sn.value
      → get_tx_object db c prefix (store_tx_object db c prefix d (some t)).0 addr k
        ≡ ok (tx_object_at addr t)
  unfolding store_tx_object get_tx_object
  get_tx_object-store_tx_object codec_laws d t addr k h same_dst same_sn =
      let (b, e, reads) = set_encoded-done db laws d (tx_db_key db c prefix t) (c.encode t) h in
      rw
        (same_dst, same_sn, reads (tx_db_key db c prefix t), text_eq_refl (tx_db_key db c prefix t))
        (codec_laws.decode-encode t b addr e)

  -- A transaction object that could not be stored leaves the database as it was.
  pub store_tx_object_failed :
      (d : D) (t : TransactionObject)
      → (store_tx_object db c prefix d (some t)).1 ≢ done
      → (store_tx_object db c prefix d (some t)).0 ≡ d
  unfolding store_tx_object
  store_tx_object_failed d t h =
      set_encoded_failed db laws d (tx_db_key db c prefix t) (c.encode t) h

  cons_length :
      (r : Result (List TransactionObject)) (t : TransactionObject) (ts : List TransactionObject)
      (n : ℕ)
      → (r >>= λ rest. ok (t ∷ rest)) ≡ ok ts
      → ((rest : List TransactionObject) → r ≡ ok rest → length rest ≤ n)
      → length ts ≤ suc n
  cons_length (ok rest) t ts n e h =
      let same : t ∷ rest ≡ ts = cc in omega (arith, ap length same, h rest refl)
  cons_length (err x) t ts n e h = cc

  read_limit-length :
      (left addr : ℕ) (pairs : List (Text × Text)) (f : Result (Unit {0}))
      (ts : List TransactionObject)
      → read_limit c left addr pairs f ≡ ok ts
      → length ts ≤ left
  unfolding read_limit
  read_limit-length zero addr pairs f ts e =
      let same : [] ≡ ts = cc in omega (arith, ap length same)
  read_limit-length (suc left) addr [] f ts e = elim (Result-cases f) [
    | inl (u, g) ↦ let same : [] ≡ ts = ground arith in omega (arith, ap length same)
    | inr (x, g) ↦ absurd (ground arith)
  ]
  read_limit-length (suc left) addr ((k, v) ∷ rest) f ts e = elim (Result-cases (c.decode addr v)) [
    | inl (t, g) ↦
        cons_length (read_limit c left (addr + 1) rest f) t ts left (ground arith)
          (read_limit-length left (addr + 1) rest f)
    | inr (x, g) ↦ absurd (ground arith)
  ]

  -- Without `All` at most `limit` transaction objects are returned, so none for a limit of 0.
  pub get_tx_objects-length :
      (d : D) (addr : ℕ) (nid : Text) (p : Pagination) (ts : List TransactionObject)
      → p.is_all ≡ false
      → get_tx_objects db c prefix d addr nid p ≡ ok ts
      → length ts ≤ p.limit
  unfolding get_tx_objects
  get_tx_objects-length d addr nid p ts paged e =
      read_limit-length p.limit addr _ _ ts (rw paged at e)
