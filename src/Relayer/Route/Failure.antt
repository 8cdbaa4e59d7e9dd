-- ===== src/Relayer/Route/Failure.antt =====
-- What HandleMessageFailed of relayer/relay.go does to a message whose delivery failed.
use centralized_relay.Common.{
  ℕ, ◌≤◌, ◌<◌, ◌≡◌, ◌≢◌, refl, sym, ◌∙◌, ap, subst, true, false, none, some, Text, text_eq_refl,
  if◌then◌else◌, Result, ok, err, Bool-cases, inl, inr, leb, le→leb, lt→not_leb, not, ◌⊎◌,
}
use centralized_relay.Types.Message.{MessageKey, RouteMessage, message_key, key_eq, new_message_key}
use centralized_relay.Types.Retry.{toggle_processing, max_tx_retry}
use centralized_relay.Store.Interface.{StoreLaws, done}
use centralized_relay.Store.Codec.{CodecLaws, message_at}
use centralized_relay.Store.Messages.{store_message, get_message}
use centralized_relay.Store.Messages.Laws.{get_message-store_message, store_message_failed}
use centralized_relay.Relayer.State.{Env, State, modify_object, cached_in, prefix_message_store}
use centralized_relay.Relayer.State.Laws.{cached_in-removed, heap-modify_object}
use centralized_relay.Relayer.Route.{handle_message_failed, drop_failed}

module _ {D : Type 0} (env : Env D) (laws : StoreLaws env.store) (now : ℕ) where
  -- The message after the failure: as it was, but no longer marked.
  abbrev pub released : ℕ → State D → RouteMessage
  released p s = toggle_processing (s.heap p)

  abbrev pub failure_write : ℕ → State D → D × Result (Unit {0})
  failure_write p s =
      store_message env.store env.messages prefix_message_store s.disk (some (released p s))

  exhausted_state :
      (p : ℕ) (src : Text) (s : State D)
      → max_tx_retry ≤ (s.heap p).retry
      → (failure_write p s).1 ≡ done
      → handle_message_failed env now p src s
        ≡ drop_failed env now src
            (released p s)
            ((failure_write p s).0, done)
            (modify_object p toggle_processing s)
  unfolding handle_message_failed
  exhausted_state p src s used h =
      rw
        (
          heap-modify_object p toggle_processing s,
          le→leb max_tx_retry (released p s).retry (unfold toggle_processing in used),
        )
        (ap (λ w. drop_failed env now src (released p s) w (modify_object p toggle_processing s))
          (unfold modify_object in ap (λ r. ((failure_write p s).0, r)) h))

  -- A message whose attempts are used up, and that is written to the database without an error, is
  -- read from there with its count of attempts, no longer marked, and leaves the cache of its
  -- source; every entry of that cache under another key stays.
  pub handle_message_failed_exhausted :
      (codec_laws : CodecLaws env.messages message_at) (p : ℕ) (src : Text) (s : State D) (addr : ℕ)
      → max_tx_retry ≤ (s.heap p).retry
      → (failure_write p s).1 ≡ done
      → let t = handle_message_failed env now p src s in
        (get_message env.store env.messages prefix_message_store t.disk addr
            (message_key (s.heap p).message)
          ≡ ok (message_at addr (released p s)))
        × ((key : MessageKey)
            → cached_in src key t.chains ≡ (
                if key_eq (message_key (s.heap p).message) key
                then none
                else cached_in src key s.chains))
  handle_message_failed_exhausted codec_laws p src s addr used h =
      rw (exhausted_state p src s used h) (
        unfold drop_failed modify_object toggle_processing message_key new_message_key in
            get_message-store_message env.store env.messages prefix_message_store laws codec_laws
              s.disk (released p s) addr (message_key (s.heap p).message) h refl refl,
        λ key.
            unfold drop_failed modify_object toggle_processing in
            cached_in-removed src src (message_key (s.heap p).message) key s.chains
            ∙ rw (text_eq_refl src),
      )

  abbrev Released : ℕ → State D → State D → Type 0
  Released p s t = (t.chains ≡ s.chains) × (t.disk ≡ s.disk) × ((t.heap p).processing ≡ false)

  toggled_Released :
      (p : ℕ) (s : State D)
      → (s.heap p).processing ≡ true
      → Released p s (modify_object p toggle_processing s)
  toggled_Released p s marked = (
    unfold modify_object in refl,
    unfold modify_object in refl,
    rw (heap-modify_object p toggle_processing s) (unfold toggle_processing in ap not marked),
  )

  unwritten_Released :
      (p : ℕ) (src : Text) (m : RouteMessage) (w : D × Result (Unit {0})) (s t : State D)
      → w.1 ≢ done
      → w.0 ≡ s.disk
      → Released p s t
      → Released p s (drop_failed env now src m w t)
  unfolding drop_failed
  unwritten_Released p src m (d, ok u) s t h same r = absurd (h refl)
  unwritten_Released p src m (d, err x) s t h same r = (r.0, same, r.2)

  -- A message with attempts left, or one that could not be written, stays where it is in every
  -- cache and in the database, and its object is no longer marked: the next round can send it.
  pub handle_message_failed_stays :
      (p : ℕ) (src : Text) (s : State D)
      → ((s.heap p).retry < max_tx_retry) ⊎ ((failure_write p s).1 ≢ done)
      → (s.heap p).processing ≡ true
      → let t = handle_message_failed env now p src s in
        (t.chains ≡ s.chains) × (t.disk ≡ s.disk) × ((t.heap p).processing ≡ false)
  unfolding handle_message_failed
  handle_message_failed_stays p src s (inl left) marked =
      rw
        (
          heap-modify_object p toggle_processing s,
          lt→not_leb max_tx_retry (released p s).retry (unfold toggle_processing in left),
        )
        (toggled_Released p s marked)
  handle_message_failed_stays p src s (inr failed) marked =
      elim (Bool-cases (leb max_tx_retry (released p s).retry)) [
        | inl e ↦
            subst
              (λ m. Released p s (
                if leb max_tx_retry m.retry
                then drop_failed env now src m
                    (store_message env.store env.messages prefix_message_store
                      (modify_object p toggle_processing s).disk (some m))
                    (modify_object p toggle_processing s)
                else modify_object p toggle_processing s))
              (sym (heap-modify_object p toggle_processing s))
              (rw e (
                unfold modify_object in
                unwritten_Released p src (released p s) (failure_write p s) s _ failed
                  (store_message_failed env.store env.messages prefix_message_store laws s.disk
                    (released p s) failed)
                  (toggled_Released p s marked)))
        | inr e ↦ rw (heap-modify_object p toggle_processing s, e) (toggled_Released p s marked)
      ]
