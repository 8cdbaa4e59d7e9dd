-- ===== src/Relayer/Flight/Checks.antt =====
-- The callbacks of a routing goroutine and the finality checks of relayer/relay.go, for the invariant.
use centralized_relay.Common.{
  ℕ, ◌+◌, List, [], ◌∷◌, some, Text, length, map, Result, ok, err, Result-cases, Option-cases,
  Bool-cases, inl, inr, ltb, ◌==◌, ◌%◌, ◌^◌,
}
use centralized_relay.Types.Message.{
  MessageKey, RouteMessage, TxResponse, TransactionObject, Receipt, new_route_message, ResponseCode,
  success, failed,
}
use centralized_relay.Types.Contracts.{TextMap, lookup}
use centralized_relay.Store.Finality.{get_tx_objects, delete_tx_object, store_tx_object}
use centralized_relay.Store.Pagination.{new_pagination, with_limit}
use centralized_relay.Provider.{Provider}
use centralized_relay.Runtime.{ChainRuntime}
use centralized_relay.Relayer.State.{Env, State, cached_in, prefix_finality_store}
use centralized_relay.Relayer.Route.{
  clear_delivered, delivered, on_response, callback, callbacks, drop_failed, tx_object_of,
}
use centralized_relay.Relayer.Finality.{
  regenerate_after, regenerate, judge_receipt, check_tx_object, check_tx_objects, check_read,
  check_chain, check_from, check_finality, max_finality_objects,
}
use centralized_relay.Relayer.Flight.Grows.{
  Grows, Grows-refl, Grows-trans, remove-PointsBelow, disk-Grows, next-Grows, modify_chain-Grows,
  add_messages-Grows,
}
use centralized_relay.Relayer.Flight.Quiet.{clear_messages-Grows}

module _ {D : Type 0} (env : Env D) where
  regenerate_after-Grows :
      (now : ℕ) (c : ChainRuntime) (t : TransactionObject) (w : D × Result (Unit {0})) (s : State D)
      → Grows s (regenerate_after env now c t w s)
  unfolding regenerate_after
  regenerate_after-Grows now c t (d, err e) s = disk-Grows s d
  regenerate_after-Grows now c t (d, ok u) s =
      elim (Result-cases (c.provider.generate_messages now t.message_key)) [
        | inl (ms, e) ↦ rw e (
            Grows-trans (disk-Grows s d)
              (add_messages-Grows t.message_key.key.src (map new_route_message ms) _))
        | inr (x, e) ↦ rw e (disk-Grows s d)
      ]

  regenerate-Grows :
      (now : ℕ) (t : TransactionObject) (s : State D) → Grows s (regenerate env now t s)
  unfolding regenerate
  regenerate-Grows now t s = elim (Option-cases (lookup t.message_key.key.src s.chains)) [
    | inl e ↦ rw (e, regenerate) (Grows-refl s)
    | inr (c, e) ↦
        rw (e, regenerate)
          (regenerate_after-Grows now c t
            (delete_tx_object env.store env.tx_objects prefix_finality_store s.disk
              t.message_key.key)
            s)
  ]

  judge_receipt-Grows :
      (now : ℕ) (t : TransactionObject) (r : Result Receipt) (s : State D)
      → Grows s (judge_receipt env now t r s)
  unfolding judge_receipt
  judge_receipt-Grows now t (err e) s = Grows-refl s
  judge_receipt-Grows now t (ok r) s = elim (Bool-cases r.status) [
    | inl e ↦ rw e (disk-Grows s _)
    | inr e ↦ rw e (regenerate-Grows now t s)
  ]

  check_tx_object-Grows :
      (now : ℕ) (p : Provider) (f l : ℕ) (t : TransactionObject) (s : State D)
      → Grows s (check_tx_object env now p f l t s)
  unfolding check_tx_object
  check_tx_object-Grows now p f l t s = elim (Bool-cases (t.tx_height == 0)) [
    | inl e ↦ rw e (Grows-refl s)
    | inr e ↦ rw e (elim (Bool-cases (ltb l ((t.tx_height + f) % 2 ^ 64))) [
      | inl g ↦ rw g (Grows-refl s)
      | inr g ↦ rw g (judge_receipt-Grows now t _ s)
    ])
  ]

  check_tx_objects-Grows :
      (now : ℕ) (p : Provider) (f l : ℕ) (ts : List TransactionObject) (s : State D)
      → Grows s (check_tx_objects env now p f l ts s)
  unfolding check_tx_objects
  check_tx_objects-Grows now p f l [] s = Grows-refl s
  check_tx_objects-Grows now p f l (t ∷ ts) s =
      Grows-trans (check_tx_object-Grows now p f l t s) (check_tx_objects-Grows now p f l ts _)

  check_read-Grows :
      (now : ℕ) (c : ChainRuntime) (r : Result (List TransactionObject)) (s : State D)
      → Grows s (check_read env now c r s)
  unfolding check_read
  check_read-Grows now c (err e) s = Grows-refl s
  check_read-Grows now c (ok ts) s =
      Grows-trans (next-Grows s (length ts)) (check_tx_objects-Grows now c.provider _ _ ts _)

  check_chain-Grows :
      (now : ℕ) (nid : Text) (c : ChainRuntime) (s : State D)
      → Grows s (check_chain env now nid c s)
  unfolding check_chain
  check_chain-Grows now nid c s = elim (Bool-cases (ltb 0 (c.provider.finality_block now))) [
    | inl e ↦ rw e (
        check_read-Grows now c
          (get_tx_objects env.store env.tx_objects prefix_finality_store s.disk s.next nid
            (with_limit max_finality_objects new_pagination))
          s)
    | inr e ↦ rw e (Grows-refl s)
  ]

  check_from-Grows :
      (now : ℕ) (cs : TextMap ChainRuntime) (s : State D) → Grows s (check_from env now cs s)
  unfolding check_from
  check_from-Grows now [] s = Grows-refl s
  check_from-Grows now ((nid, c) ∷ cs) s =
      Grows-trans (check_chain-Grows now nid c s) (check_from-Grows now cs _)

  pub check_finality-Grows : (now : ℕ) (s : State D) → Grows s (check_finality env now s)
  unfolding check_finality
  check_finality-Grows now s = check_from-Grows now s.chains s

  clear_delivered-Grows :
      (now : ℕ) (src : Text) (key : MessageKey) (w : D × Result (Unit {0})) (s : State D)
      → Grows s (clear_delivered env now src key w s)
  unfolding clear_delivered
  clear_delivered-Grows now src key (d, ok u) s =
      Grows-trans (disk-Grows s d) (clear_messages-Grows env (key ∷ []) src _)
  clear_delivered-Grows now src key (d, err e) s = disk-Grows s d

  delivered-Grows :
      (now : ℕ) (src : Text) (c : ChainRuntime) (key : MessageKey) (m : RouteMessage)
      (r : TxResponse) (s : State D)
      → Grows s (delivered env now src c key m r s)
  unfolding delivered
  delivered-Grows now src c key m r s = elim (Bool-cases (ltb 0 (c.provider.finality_block now))) [
    | inl e ↦ rw e (
        clear_delivered-Grows now src key
          (store_tx_object env.store env.tx_objects prefix_finality_store s.disk
            (some (tx_object_of key m r)))
          s)
    | inr e ↦ rw e (clear_messages-Grows env (key ∷ []) src s)
  ]

  on_response-Grows :
      (now : ℕ) (code : ResponseCode) (src : Text) (c : ChainRuntime) (key : MessageKey)
      (m : RouteMessage) (r : TxResponse) (s : State D)
      → Grows s (on_response env now code src c key m r s)
  unfolding on_response
  on_response-Grows now success src c key m r s = delivered-Grows now src c key m r s
  on_response-Grows now failed src c key m r s = Grows-refl s

  callback-Grows :
      (now : ℕ) (src : Text) (c : ChainRuntime) (key : MessageKey) (r : TxResponse) (s : State D)
      → Grows s (callback env now src c key r s)
  unfolding callback
  callback-Grows now src c key r s = elim (Option-cases (cached_in src key s.chains)) [
    | inl e ↦ rw (e, callback) (Grows-refl s)
    | inr (p, e) ↦ rw (e, callback) (on_response-Grows now r.code src c key (s.heap p) r s)
  ]

  pub callbacks-Grows :
      (now : ℕ) (src : Text) (c : ChainRuntime) (calls : List (MessageKey × TxResponse))
      (s : State D)
      → Grows s (callbacks env now src c calls s)
  unfolding callbacks
  callbacks-Grows now src c [] s = Grows-refl s
  callbacks-Grows now src c ((key, r) ∷ rest) s =
      Grows-trans (callback-Grows now src c key r s) (callbacks-Grows now src c rest _)

  pub drop_failed-Grows :
      (now : ℕ) (src : Text) (m : RouteMessage) (w : D × Result (Unit {0})) (s : State D)
      → Grows s (drop_failed env now src m w s)
  unfolding drop_failed
  drop_failed-Grows now src m (d, err e) s = disk-Grows s d
  drop_failed-Grows now src m (d, ok u) s =
      Grows-trans (disk-Grows s d)
        (modify_chain-Grows src _ _ (λ n c h. remove-PointsBelow n _ c.message_cache h))
