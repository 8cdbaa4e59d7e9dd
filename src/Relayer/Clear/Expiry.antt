-- ===== src/Relayer/Clear/Expiry.antt =====
-- What `cleanExpiredMessages` of relayer/relay.go deletes, and what it leaves.
use centralized_relay.Common.{
  ℕ, ◌<◌, ◌≡◌, ◌≢◌, refl, sym, ◌∙◌, ap, subst, true, List, [], ◌∷◌, Text, text_eq, text_eq_iff, ok,
  Result-cases, Bool-cases, inl, inr, arith, In, All,
}
use centralized_relay.Types.Message.{RouteMessage, message_key, new_message_key}
use centralized_relay.Types.Retry.{is_elapsed}
use centralized_relay.Store.Interface.{StoreLaws, done}
use centralized_relay.Store.Keys.{entry_key}
use centralized_relay.Store.Messages.{delete_message, get_messages}
use centralized_relay.Store.Pagination.{new_pagination, with_limit}
use centralized_relay.Relayer.State.{
  Env, State, prefix_message_store, max_flush_message, message_expiration,
}
use centralized_relay.Relayer.Clear.{clear_messages, clear_elapsed, clean_chain}
use centralized_relay.Relayer.Clear.Laws.{clear_messages_disk}

-- The key of a message in the message store.
abbrev pub stored_under : RouteMessage → Text
stored_under m = entry_key prefix_message_store m.message.src m.message.sn.value

module _ {D : Type 0} (env : Env D) (laws : StoreLaws env.store) (now : ℕ) (nid : Text) where
  -- Nothing is read under the key.
  abbrev pub IsGone : Text → D → Type 0
  IsGone k d = (v : Text) → env.store.get_by_key d k ≢ ok v

  delete-IsGone : (k j : Text) (d : D) → IsGone k d → IsGone k (env.store.delete_by_key d j).0
  delete-IsGone k j d gone v e = elim (Bool-cases (text_eq j k)) [
    | inl t ↦ elim (Result-cases (env.store.delete_by_key d j).1) [
      | inl (u, f) ↦
          let same : j ≡ k = (text_eq_iff j k).0 t in
          laws.get-delete_self d j v f (
            subst (λ i. env.store.get_by_key (env.store.delete_by_key d j).0 i ≡ ok v) (sym same) e)
      | inr (x, f) ↦
          gone v (subst (λ c. env.store.get_by_key c k ≡ ok v) (laws.delete_failed d j (λ g. cc)) e)
    ]
    | inr t ↦ gone v (sym (laws.get-delete_ne d j k (λ g. ground (arith, text_eq_iff j k))) ∙ e)
  ]

  cleared_disk :
      (m : RouteMessage) (s : State D)
      → (clear_messages env (message_key m.message ∷ []) nid s).0.disk
        ≡ (env.store.delete_by_key s.disk (stored_under m)).0
  cleared_disk m s =
      clear_messages_disk env (message_key m.message) nid s
      ∙ unfold delete_message message_key new_message_key in refl

  clear_elapsed-IsGone :
      (ms : List RouteMessage) (k : Text) (s : State D)
      → IsGone k s.disk
      → IsGone k (clear_elapsed env now nid ms s).disk
  unfolding clear_elapsed
  clear_elapsed-IsGone [] k s gone = gone
  clear_elapsed-IsGone (m ∷ ms) k s gone = elim (Bool-cases (is_elapsed now message_expiration m)) [
    | inl e ↦
        rw (e, clear_elapsed)
          (clear_elapsed-IsGone ms k _ (
            subst (IsGone k) (sym (cleared_disk m s))
              (delete-IsGone k (stored_under m) s.disk gone)))
    | inr e ↦ rw (e, clear_elapsed) (clear_elapsed-IsGone ms k s gone)
  ]

  -- While the database deletes without errors, every message of the page whose last attempt is
  -- more than a day ago is deleted.
  clear_elapsed_drops :
      ((d : D) (k : Text) → (env.store.delete_by_key d k).1 ≡ done)
      → (ms : List RouteMessage) (m : RouteMessage) (s : State D) → In m ms
      → is_elapsed now message_expiration m ≡ true
      → IsGone (stored_under m) (clear_elapsed env now nid ms s).disk
  unfolding clear_elapsed
  clear_elapsed_drops deletes [] m s i old = absurd i
  clear_elapsed_drops deletes (x ∷ ms) m s (inl same) old =
      subst (λ y. IsGone (stored_under m) (clear_elapsed env now nid (y ∷ ms) s).disk) (sym same)
        (rw (old, clear_elapsed)
          (clear_elapsed-IsGone ms (stored_under m) _ (
            subst (IsGone (stored_under m)) (sym (cleared_disk m s)) (λ v.
              laws.get-delete_self s.disk (stored_under m) v (deletes s.disk (stored_under m))))))
  clear_elapsed_drops deletes (x ∷ ms) m s (inr i) old = clear_elapsed_drops deletes ms m _ i old

  -- If deletions succeed and the clock is past the expiration time, a round of the cleaning deletes
  -- every message of the page that was never tried, whose last attempt is the zero time.
  clean_chain_drops_untried :
      ((d : D) (k : Text) → (env.store.delete_by_key d k).1 ≡ done)
      → (s : State D) (ms : List RouteMessage) (m : RouteMessage)
      → get_messages env.store env.messages prefix_message_store s.disk s.next nid
          (with_limit max_flush_message new_pagination)
        ≡ ok ms
      → In m ms
      → m.last_try ≡ 0
      → message_expiration < now
      → IsGone (stored_under m) (clean_chain env now nid s).disk
  unfolding clean_chain is_elapsed
  clean_chain_drops_untried deletes s ms m read i untried late =
      rw (read, clean_chain)
        (clear_elapsed_drops deletes ms m _ i (unfold is_elapsed in ground arith))

  -- What is stored under a key of which no message of the page is older than a day stays as it was.
  pub clear_elapsed_keeps :
      (ms : List RouteMessage) (k : Text) (s : State D)
      → All (λ m. (is_elapsed now message_expiration m ≡ true) → stored_under m ≢ k) ms
      → env.store.get_by_key (clear_elapsed env now nid ms s).disk k ≡ env.store.get_by_key s.disk k
  unfolding clear_elapsed
  clear_elapsed_keeps [] k s h = refl
  clear_elapsed_keeps (m ∷ ms) k s h = elim (Bool-cases (is_elapsed now message_expiration m)) [
    | inl e ↦
        rw (e, clear_elapsed)
          (clear_elapsed_keeps ms k _ h.1
            ∙ ap (λ d. env.store.get_by_key d k) (cleared_disk m s)
            ∙ laws.get-delete_ne s.disk (stored_under m) k (h.0 e))
    | inr e ↦ rw (e, clear_elapsed) (clear_elapsed_keeps ms k s h.1)
  ]
