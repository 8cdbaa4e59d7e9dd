-- ===== src/Relayer/Clear/Laws.antt =====
-- What `ClearMessages` of relayer/relay.go does to the cache and to the database.
use centralized_relay.Common.{
  ℕ, ◌≡◌, ◌≢◌, refl, sym, ◌∙◌, [], ◌∷◌, none, Text, text_eq, text_eq_refl, if◌then◌else◌, Result,
  ok, Result-cases, inl, inr,
}
use centralized_relay.Types.Message.{MessageKey, RouteMessage, key_eq}
use centralized_relay.Types.Cache.Laws.{key_eq_refl}
use centralized_relay.Store.Interface.{StoreLaws, done}
use centralized_relay.Store.Messages.{delete_message, get_message}
use centralized_relay.Store.Messages.Laws.{get_message-delete_message}
use centralized_relay.Runtime.{clear_message_from_cache}
use centralized_relay.Relayer.State.{Env, State, modify_chain, cached_in, prefix_message_store}
use centralized_relay.Relayer.State.Laws.{cached_in-removed}
use centralized_relay.Relayer.Clear.{delete_messages, clear_messages}

module _ {D : Type 0} (env : Env D) where
  abbrev pub deletion : MessageKey → State D → D × Result (Unit {0})
  deletion k s = delete_message env.store env.messages prefix_message_store s.disk k

  delete_one :
      (k : MessageKey) (s : State D)
      → delete_messages env (k ∷ []) s ≡ (record s { disk = (deletion k s).0 }, (deletion k s).1)
  unfolding delete_messages
  delete_one k s = elim (Result-cases (deletion k s).1) [
    | inl (u, e) ↦ rw (e, delete_messages)
    | inr (x, e) ↦ rw (e, delete_messages)
  ]

  pub clear_messages_disk :
      (k : MessageKey) (src : Text) (s : State D)
      → (clear_messages env (k ∷ []) src s).0.disk ≡ (deletion k s).0
  unfolding clear_messages
  clear_messages_disk k src s =
      rw (delete_one k (modify_chain src (clear_message_from_cache (k ∷ [])) s)) refl

  pub clear_messages_result :
      (k : MessageKey) (src : Text) (s : State D)
      → (clear_messages env (k ∷ []) src s).1 ≡ (deletion k s).1
  unfolding clear_messages
  clear_messages_result k src s =
      rw (delete_one k (modify_chain src (clear_message_from_cache (k ∷ [])) s)) refl

  pub clear_messages_cached :
      (k : MessageKey) (src j : Text) (key : MessageKey) (s : State D)
      → cached_in j key (clear_messages env (k ∷ []) src s).0.chains ≡ (
          if text_eq src j
          then (if key_eq k key then none else cached_in j key s.chains)
          else cached_in j key s.chains)
  unfolding clear_messages clear_message_from_cache
  clear_messages_cached k src j key s =
      rw (delete_one k (modify_chain src (clear_message_from_cache (k ∷ [])) s))
        (cached_in-removed src j k key s.chains)

  -- A message that is cleared with no error is gone from the cache of its chain and from the
  -- database, from where no key with its chain and number reads it any more.
  pub clear_messages_gone :
      (laws : StoreLaws env.store) (k : MessageKey) (src : Text) (s : State D) (addr : ℕ)
      (r : RouteMessage)
      → (clear_messages env (k ∷ []) src s).1 ≡ done
      → (cached_in src k (clear_messages env (k ∷ []) src s).0.chains ≡ none)
        × (get_message env.store env.messages prefix_message_store
              (clear_messages env (k ∷ []) src s).0.disk
              addr
              k
            ≢ ok r)
  clear_messages_gone laws k src s addr r h = (
    clear_messages_cached k src src k s ∙ rw (text_eq_refl src, key_eq_refl k),
    λ e.
        get_message-delete_message env.store env.messages prefix_message_store laws s.disk addr k k
          r (sym (clear_messages_result k src s) ∙ h) refl refl
          (rw (clear_messages_disk k src s) at e),
  )
