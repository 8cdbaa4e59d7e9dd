-- ===== src/Store/Messages/Laws.antt =====
-- What `GetMessage` reads after `StoreMessage` (relayer/store/messageStore.go).
use centralized_relay.Common.{
  ℕ, ◌≡◌, ◌≢◌, sym, ap, some, Text, text_eq_refl, ok, ◌>>=◌, arith, Result-cases, inl, inr, ◌⊎◌,
  pos,
}
use centralized_relay.Types.Message.{RouteMessage, MessageKey}
use centralized_relay.Store.Interface.{
  Store, StoreLaws, done, set_encoded-done, set_encoded_ne, set_encoded_failed,
}
use centralized_relay.Store.Keys.{entry_key, entry_key_injective}
use centralized_relay.Store.Codec.{Codec, CodecLaws, message_at}
use centralized_relay.Store.Messages.{store_message, get_message, delete_message, message_db_key}

module _ {D : Type 0} (db : Store D) (c : Codec RouteMessage) (prefix : Text)
    (laws : StoreLaws db) where
  -- A message that was stored with no error is read back by every key with its source and its
  -- number, as a new object at the address that the decoder allocates.
  pub get_message-store_message :
      (codec_laws : CodecLaws c message_at) (d : D) (r : RouteMessage) (addr : ℕ) (k : MessageKey)
      → (store_message db c prefix d (some r)).1 ≡ done
      → k.src ≡ r.message.src
      → k.sn.value ≡ r.message.sn.value
      → get_message db c prefix (store_message db c prefix d (some r)).0 addr k
        ≡ ok (message_at addr r)
  unfolding store_message get_message
  get_message-store_message codec_laws d r addr k h same_src same_sn =
      let (b, e, reads) =
        set_encoded-done db laws d (message_db_key db c prefix r) (c.encode r) h in
      rw
        (
          same_src,
          same_sn,
          reads (message_db_key db c prefix r),
          text_eq_refl (message_db_key db c prefix r),
        )
        (codec_laws.decode-encode r b addr e)

  -- A message that could not be stored leaves the database as it was.
  pub store_message_failed :
      (d : D) (r : RouteMessage)
      → (store_message db c prefix d (some r)).1 ≢ done
      → (store_message db c prefix d (some r)).0 ≡ d
  unfolding store_message
  store_message_failed d r h =
      set_encoded_failed db laws d (message_db_key db c prefix r) (c.encode r) h

  -- Storing a message leaves what is read under any other chain or number as it was, whether the
  -- write succeeds or fails. (The numbers are those of the contracts: not negative.)
  get_message-store_message_ne :
      (d : D) (r : RouteMessage) (addr : ℕ) (k : MessageKey) (m n : ℕ)
      → r.message.sn.value ≡ pos m
      → k.sn.value ≡ pos n
      → (k.src ≢ r.message.src) ⊎ (n ≢ m)
      → get_message db c prefix (store_message db c prefix d (some r)).0 addr k
        ≡ get_message db c prefix d addr k
  unfolding get_message store_message
  get_message-store_message_ne d r addr k m n rm kn other =
      ap (λ found. found >>= λ v. c.decode addr v)
        (set_encoded_ne db laws d (message_db_key db c prefix r) (c.encode r)
          (entry_key prefix k.src k.sn.value) distinct)
    where
      distinct : message_db_key db c prefix r ≢ entry_key prefix k.src k.sn.value
      distinct e =
          let (p, q) = entry_key_injective prefix r.message.src k.src m n (rw (sym rm, sym kn) e) in
          elim other [ inl f ↦ f (sym p) | inr f ↦ f (sym q) ]

  -- After a deletion that reports no error, no message is read under that chain and number.
  pub get_message-delete_message :
      (d : D) (addr : ℕ) (k j : MessageKey) (r : RouteMessage)
      → (delete_message db c prefix d k).1 ≡ done
      → j.src ≡ k.src
      → j.sn.value ≡ k.sn.value
      → get_message db c prefix (delete_message db c prefix d k).0 addr j ≢ ok r
  unfolding delete_message get_message
  get_message-delete_message d addr k j r h same_src same_sn e =
      elim (Result-cases (db.get_by_key (db.delete_by_key d (stored_key k)).0 (stored_key k))) [
        | inl (v, found) ↦ laws.get-delete_self d (stored_key k) v h found
        | inr (x, gone) ↦ ground (arith, key_same)
      ]
    where
      stored_key : MessageKey → Text
      stored_key i = entry_key prefix i.src i.sn.value

      key_same : stored_key j ≡ stored_key k
      key_same = rw (same_src, same_sn)
