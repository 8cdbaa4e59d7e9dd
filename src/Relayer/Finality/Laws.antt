-- ===== src/Relayer/Finality/Laws.antt =====
-- When `CheckFinality` of relayer/relay.go gives up the record of a transaction, and what becomes of
-- the message then.
use centralized_relay.Common.{
  ℕ, ◌+◌, ◌%◌, ◌^◌, ◌≤◌, ◌<◌, ◌≡◌, ◌≢◌, refl, sym, ◌∙◌, ap, subst, true, false, List, [], ◌∷◌, some,
  map, In, inl, inr, Bool-cases, Result-cases, ltb, ◌==◌, Error, Result, Text, ok, err, arith,
  >>=-gives,
}
use centralized_relay.Types.Message.{
  Message, MessageKey, TransactionObject, Receipt, message_key, new_route_message,
}
use centralized_relay.Types.Contracts.{lookup}
use centralized_relay.Store.Interface.{StoreLaws, done}
use centralized_relay.Store.Keys.{entry_key}
use centralized_relay.Store.Finality.{get_tx_object, delete_tx_object}
use centralized_relay.Provider.{Provider}
use centralized_relay.Runtime.{ChainRuntime}
use centralized_relay.Relayer.State.{Env, State, add_messages, prefix_finality_store}
use centralized_relay.Relayer.State.Cached.{IsCached, add_messages-IsCached}
use centralized_relay.Relayer.Finality.{
  merge_generated, regenerate_after, regenerate, judge_receipt, check_tx_object, delete_object,
}

pub In-map :
    (m : Message) (ms : List Message)
    → In m ms
    → In (new_route_message m) (map new_route_message ms)
In-map m [] i = absurd i
In-map m (x ∷ ms) (inl e) = inl (ap new_route_message e)
In-map m (x ∷ ms) (inr i) = inr (In-map m ms i)

module _ {D : Type 0} (env : Env D) (now : ℕ) (provider : Provider) (finality latest : ℕ)
    (t : TransactionObject) (s : State D) where
  abbrev pub checked : State D
  checked = check_tx_object env now provider finality latest t s

  abbrev pub IsDeep : Type 0
  IsDeep = (0 < t.tx_height) × ((t.tx_height + finality) % 2 ^ 64 ≤ latest)

  -- The record of a transaction is touched only when the transaction has a height, is as deep as
  -- the chain's finality asks, and the node has answered for its receipt.
  pub check_tx_object_waits :
      checked.disk ≢ s.disk
      → IsDeep × ((r : Receipt) × (provider.query_transaction_receipt now t.tx_hash ≡ ok r))
  unfolding check_tx_object
  check_tx_object_waits h = elim (Bool-cases (t.tx_height == 0)) [
    | inl e ↦ absurd ((rw e at h) refl)
    | inr e ↦ elim (Bool-cases (ltb latest ((t.tx_height + finality) % 2 ^ 64))) [
      | inl f ↦ absurd ((rw (e, f) at h) refl)
      | inr f ↦ elim (Result-cases (provider.query_transaction_receipt now t.tx_hash)) [
        | inl (r, q) ↦ ((ground arith, ground arith), (r, q))
        | inr (x, q) ↦ absurd ((rw (e, f, q) at h) refl)
      ]
    ]
  ]

  judged :
      IsDeep
      → (r : Receipt) → provider.query_transaction_receipt now t.tx_hash ≡ ok r
      → checked ≡ judge_receipt env now t (ok r) s
  unfolding check_tx_object
  judged (placed, deep) r q =
      let e : (t.tx_height == 0) ≡ false = ground arith in
      let f : ltb latest ((t.tx_height + finality) % 2 ^ 64) ≡ false = ground arith in rw (e, f, q)

  final_state :
      IsDeep
      → (r : Receipt) → provider.query_transaction_receipt now t.tx_hash ≡ ok r
      → r.status ≡ true
      → checked ≡ record s { disk = (delete_object env now t s).0 }
  final_state deep r q status = judged deep r q ∙ unfold judge_receipt in rw status

  abbrev pub record_key : Text
  record_key = entry_key prefix_finality_store t.message_key.key.dst t.message_key.key.sn.value

  abbrev reads_record : D → MessageKey → ℕ → Result TransactionObject
  reads_record d k addr = get_tx_object env.store env.tx_objects prefix_finality_store d addr k

  -- Without a value under its key no object is read.
  unread :
      (d : D) (k : MessageKey) (addr : ℕ) (o : TransactionObject)
      → ((v : Text)
          → env.store.get_by_key d (entry_key prefix_finality_store k.dst k.sn.value) ≢ ok v)
      → reads_record d k addr ≢ ok o
  unfolding get_tx_object
  unread d k addr o none_there h =
      >>=-gives (env.store.get_by_key d (entry_key prefix_finality_store k.dst k.sn.value)) _ o h
        (λ v p q. none_there v p)

  -- When a transaction is deep enough, the node answers with a receipt that it succeeded, and the
  -- database deletes the key of its destination and number without an error, then no record is read by
  -- a key with this destination and number, every other key of the database reads as before, and
  -- nothing but the database has changed.
  pub check_tx_object_final :
      StoreLaws env.store
      → IsDeep
      → (r : Receipt) → provider.query_transaction_receipt now t.tx_hash ≡ ok r
      → r.status ≡ true
      → (env.store.delete_by_key s.disk record_key).1 ≡ done
      → (k : MessageKey) (addr : ℕ) (o : TransactionObject) (j : Text)
      → k.dst ≡ t.message_key.key.dst
      → k.sn.value ≡ t.message_key.key.sn.value
      → record_key ≢ j
      → (reads_record checked.disk k addr ≢ ok o)
        × (env.store.get_by_key checked.disk j ≡ env.store.get_by_key s.disk j)
        × (checked ≡ record s { disk = checked.disk })
  unfolding delete_tx_object
  check_tx_object_final laws deep r q status deletes k addr o j same_dst same_sn other =
      let end = final_state deep r q status in
      let disk = ap (λ u. u.disk) end in
      (
        unread checked.disk k addr o (λ v h. laws.get-delete_self s.disk record_key v deletes (
            ap (λ d. env.store.get_by_key d record_key) (sym disk)
            ∙ ap (λ x. env.store.get_by_key checked.disk x)
                (ap (λ x. entry_key prefix_finality_store x t.message_key.key.sn.value)
                    (sym same_dst)
                  ∙ ap (λ n. entry_key prefix_finality_store k.dst n) (sym same_sn))
            ∙ h)),
        ap (λ d. env.store.get_by_key d j) disk ∙ laws.get-delete_ne s.disk record_key j other,
        end ∙ ap (λ d. record s { disk = d }) (sym disk),
      )

  -- A transaction that has disappeared by the time it is deep enough, with a source that is known
  -- and a record that can be deleted.
  pub record IsReverted (source : ChainRuntime) : Type 0 where
    pub deep : IsDeep
    pub receipt : Receipt
    pub answered : provider.query_transaction_receipt now t.tx_hash ≡ ok receipt
    pub status : receipt.status ≡ false
    pub known : lookup t.message_key.key.src s.chains ≡ some source
    pub deletes : (delete_object env now t s).1 ≡ done

  reverted_state :
      (source : ChainRuntime)
      → IsReverted source
      → checked
        ≡ merge_generated env now t.message_key.key.src
            (source.provider.generate_messages now t.message_key)
            (record s { disk = (delete_object env now t s).0 })
  unfolding judge_receipt regenerate regenerate_after
  reverted_state source h =
      judged h.deep h.receipt h.answered
      ∙ rw (h.status, h.known, regenerate) (ap (λ w. regenerate_after env now source t w s) pair)
    where
      pair : delete_object env now t s ≡ ((delete_object env now t s).0, done)
      pair = ap (λ r. ((delete_object env now t s).0, r)) h.deletes

  -- When a transaction is deep enough, the node answers with a receipt that it failed, its source
  -- is known and its record is deleted without an error, then every message that the source
  -- generates anew for it is in the cache of the source.
  pub check_tx_object_regenerates :
      (source : ChainRuntime) (ms : List Message) (m : Message)
      → IsReverted source
      → source.provider.generate_messages now t.message_key ≡ ok ms
      → In m ms
      → IsCached t.message_key.key.src (message_key m) checked
  check_tx_object_regenerates source ms m h g i =
      subst (λ (u : State D). IsCached t.message_key.key.src (message_key m) u) (sym whole) cached
    where
      left : State D
      left = record s { disk = (delete_object env now t s).0 }

      whole : checked ≡ add_messages t.message_key.key.src (map new_route_message ms) left
      whole = reverted_state source h ∙ unfold merge_generated in rw g

      cached :
          IsCached t.message_key.key.src
            (message_key m)
            (add_messages t.message_key.key.src (map new_route_message ms) left)
      cached =
          unfold new_route_message in
          add_messages-IsCached t.message_key.key.src (map new_route_message ms)
            (new_route_message m) left (source, h.known) (In-map m ms i)

  -- When a transaction is deep enough, the node answers with a receipt that it failed, its source
  -- is known, its record is deleted without an error, and the source cannot generate the message
  -- anew, then nothing else changes: no cache has the message again.
  check_tx_object_loses :
      (source : ChainRuntime) (e : Error)
      → IsReverted source
      → source.provider.generate_messages now t.message_key ≡ err e
      → checked ≡ record s { disk = (delete_object env now t s).0 }
  unfolding merge_generated
  check_tx_object_loses source e h g = reverted_state source h ∙ rw g
