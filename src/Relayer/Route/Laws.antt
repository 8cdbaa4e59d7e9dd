-- ===== src/Relayer/Route/Laws.antt =====
-- How a routing goroutine of relayer/relay.go ends after a success: `callback`.
use centralized_relay.Common.{
  ℕ, ◌<◌, ◌≡◌, ◌≢◌, refl, ◌∙◌, ap, [], ◌∷◌, none, some, Text, text_eq_refl, Result, ok, err, ◌>>=◌,
  ℤ, lt→ltb, arith,
}
use centralized_relay.Types.Message.{
  MessageKey, TxResponse, success, new_transaction_object, TransactionObject,
}
use centralized_relay.Types.Cache.Laws.{key_eq_refl}
use centralized_relay.Store.Interface.{StoreLaws, done}
use centralized_relay.Store.Keys.{entry_key, get_key}
use centralized_relay.Store.Codec.{CodecLaws, tx_object_at}
use centralized_relay.Store.Messages.{delete_message}
use centralized_relay.Store.Finality.{store_tx_object, get_tx_object}
use centralized_relay.Store.Finality.Laws.{get_tx_object-store_tx_object, store_tx_object_failed}
use centralized_relay.Runtime.{ChainRuntime}
use centralized_relay.Relayer.State.{
  Env, State, cached_in, prefix_message_store, prefix_finality_store,
}
use centralized_relay.Relayer.Clear.Laws.{clear_messages_cached, clear_messages_disk}
use centralized_relay.Relayer.Route.{
  callback, on_response, delivered, clear_delivered, tx_object_of,
}

abbrev first_byte : Text → ℕ
first_byte [] = 0
first_byte (c ∷ s) = c

stores_apart :
    (a b : Text) (n : ℤ) → entry_key prefix_message_store a n ≢ entry_key prefix_finality_store b n
unfolding get_key
stores_apart a b n e = omega (arith, ap first_byte e)

module _ {D : Type 0} (env : Env D) (laws : StoreLaws env.store) (now : ℕ) where
  -- The message store and the finality store have no key in common.
  untouched :
      (d : D) (key : MessageKey) (addr : ℕ)
      → get_tx_object env.store env.tx_objects prefix_finality_store
          (delete_message env.store env.messages prefix_message_store d key).0
          addr
          key
        ≡ get_tx_object env.store env.tx_objects prefix_finality_store d addr key
  unfolding get_tx_object delete_message
  untouched d key addr =
      ap (λ found. found >>= λ v. env.tx_objects.decode addr v)
        (laws.get-delete_ne d _ _ (stores_apart key.src key.dst key.sn.value))

  final_state :
      (src : Text) (dst : ChainRuntime) (key : MessageKey) (response : TxResponse) (s : State D)
      (p : ℕ)
      → cached_in src key s.chains ≡ some p
      → response.code ≡ success
      → 0 < dst.provider.finality_block now
      → callback env now src dst key response s
        ≡ clear_delivered env now src key
            (store_tx_object env.store env.tx_objects prefix_finality_store s.disk
              (some (tx_object_of key (s.heap p) response)))
            s
  unfolding callback on_response delivered
  final_state src dst key response s p cached delivers final =
      rw (cached, callback) (rw (delivers, on_response) (rw (lt→ltb 0 _ final)))

  -- After a message was delivered to a chain with finality and the record of its transaction was
  -- written, the record can be read, and the message has left the cache of its source.
  pub callback_final :
      (codec_laws : CodecLaws env.tx_objects tx_object_at) (src : Text) (dst : ChainRuntime)
      (key : MessageKey) (response : TxResponse) (s : State D) (p addr : ℕ)
      → cached_in src key s.chains ≡ some p
      → response.code ≡ success
      → 0 < dst.provider.finality_block now
      → (store_tx_object env.store env.tx_objects prefix_finality_store s.disk
          (some (tx_object_of key (s.heap p) response))).1
        ≡ done
      → let t = callback env now src dst key response s in
        (get_tx_object env.store env.tx_objects prefix_finality_store t.disk addr key
          ≡ ok (tx_object_at addr (tx_object_of key (s.heap p) response)))
        × (cached_in src key t.chains ≡ none)
  unfolding new_transaction_object clear_delivered
  callback_final codec_laws src dst key response s p addr cached delivers final stored =
      rw (final_state src dst key response s p cached delivers final) (
        cleared
          (store_tx_object env.store env.tx_objects prefix_finality_store s.disk (some record_of))
          stored
          (get_tx_object-store_tx_object env.store env.tx_objects prefix_finality_store laws
            codec_laws s.disk record_of addr key stored refl refl))
    where
      record_of : TransactionObject
      record_of = tx_object_of key (s.heap p) response

      cleared :
          (w : D × Result (Unit {0}))
          → w.1 ≡ done
          → get_tx_object env.store env.tx_objects prefix_finality_store w.0 addr key
            ≡ ok (tx_object_at addr record_of)
          → (get_tx_object env.store env.tx_objects prefix_finality_store
                (clear_delivered env now src key w s).disk
                addr
                key
              ≡ ok (tx_object_at addr record_of))
            × (cached_in src key (clear_delivered env now src key w s).chains ≡ none)
      cleared (d, ok u) h read = (
        rw (clear_messages_disk env key src (record s { disk = d })) (untouched d key addr ∙ read),
        clear_messages_cached env key src src key (record s { disk = d })
            ∙ rw (text_eq_refl src, key_eq_refl key),
      )
      cleared (d, err x) h read = cc

  -- When a cached message was delivered to a chain with finality, but the record of its transaction
  -- cannot be written, the callback changes nothing: the message stays in the cache, and its object
  -- as it is.
  callback_not_stored :
      (src : Text) (dst : ChainRuntime) (key : MessageKey) (response : TxResponse) (s : State D)
      (p : ℕ)
      → cached_in src key s.chains ≡ some p
      → response.code ≡ success
      → 0 < dst.provider.finality_block now
      → (store_tx_object env.store env.tx_objects prefix_finality_store s.disk
          (some (tx_object_of key (s.heap p) response))).1
        ≢ done
      → callback env now src dst key response s ≡ s
  unfolding clear_delivered
  callback_not_stored src dst key response s p cached delivers final unstored =
      final_state src dst key response s p cached delivers final
      ∙ kept (store_tx_object env.store env.tx_objects prefix_finality_store s.disk _) unstored (
          store_tx_object_failed env.store env.tx_objects prefix_finality_store laws s.disk _
            unstored)
    where
      kept :
          (w : D × Result (Unit {0}))
          → w.1 ≢ done
          → w.0 ≡ s.disk
          → clear_delivered env now src key w s ≡ s
      kept (d, ok u) h same = absurd (h refl)
      kept (d, err x) h same = ap (λ c. record s { disk = c }) same
