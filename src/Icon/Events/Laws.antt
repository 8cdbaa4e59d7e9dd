-- ===== src/Icon/Events/Laws.antt =====
-- What the messages of an ICON notification look like (relayer/chains/icon/event_parse.go).
use centralized_relay.Common.{
  ℕ, suc, ◌≡◌, ◌≢◌, sym, subst, List, [], ◌∷◌, none, some, Text, text_eq, text_eq_sound, ℤ, ok, ◌⊎◌,
  inl, inr, Bool-cases, Run, returns, ◌>>!◌, lift, at, >>!-gives, lift-returns, returns_injective,
  text_ne, Option,
}
use centralized_relay.Types.Message.{Message}
use centralized_relay.Types.Contracts.{TextMap, EventMap}
use centralized_relay.Icon.Types.{big_int}
use centralized_relay.Icon.Events.{
  EventLog, EventNotification, emit_message_sig, call_message_sig, rollback_message_sig, uint64,
  parse_emit_message_event, parse_call_message_event, parse_rollback_message_event, parse_event,
  parse_events, cons_message, parse_message_event,
}
use centralized_relay.Icon.Events.Shapes.{
  IsEmit, IsCall, IsRollback, parse_emit_message_event-IsEmit, parse_call_message_event-IsCall,
  parse_rollback_message_event-IsRollback,
}

module _ (nid : Text) (contracts : TextMap EventMap) (height : ℕ) where
  -- The message that a log with the signature is read as: none if the signature is not known.
  abbrev pub IsReadAs : Text → EventLog → Option Message → Type 0
  IsReadAs sig e none =
      (sig ≢ emit_message_sig) × ((sig ≢ call_message_sig) × (sig ≢ rollback_message_sig))
  IsReadAs sig e (some m) =
      ((sig ≡ emit_message_sig) × IsEmit nid contracts height e m)
      ⊎ (((sig ≡ call_message_sig) × IsCall nid contracts height e m)
          ⊎ ((sig ≡ rollback_message_sig) × IsRollback nid contracts height e m))

  some_message :
      (sig : Text) (e : EventLog) (r : Run Message) (o : Option Message)
      → (r >>! λ m. returns (some m)) ≡ returns o
      → ((m : Message) → r ≡ returns m → IsReadAs sig e (some m))
      → IsReadAs sig e o
  some_message sig e r o h k =
      >>!-gives r _ o h (λ m p same. let eq : some m ≡ o = cc in subst (IsReadAs sig e) eq (k m p))

  parse_event-IsReadAs :
      (new : ℕ) (sig : Text) (e : EventLog) (o : Option Message)
      → parse_event nid contracts new height sig e ≡ returns o
      → IsReadAs sig e o
  unfolding parse_event
  parse_event-IsReadAs new sig e o h = elim (Bool-cases (text_eq sig emit_message_sig)) [
    | inl p ↦
        some_message sig e (parse_emit_message_event nid contracts new height e) o
          (rw (p, parse_event) at h)
          (λ m q. inl (
            text_eq_sound sig emit_message_sig p,
            parse_emit_message_event-IsEmit nid contracts height new e m q,
          ))
    | inr p ↦ elim (Bool-cases (text_eq sig call_message_sig)) [
      | inl q ↦
          some_message sig e (parse_call_message_event nid contracts new height e) o
            (rw (p, q, parse_event) at h)
            (λ m r. inr (
              inl (
                text_eq_sound sig call_message_sig q,
                parse_call_message_event-IsCall nid contracts height new e m r,
              )))
      | inr q ↦ elim (Bool-cases (text_eq sig rollback_message_sig)) [
        | inl r ↦
            some_message sig e (parse_rollback_message_event nid contracts new height e) o
              (rw (p, q, r, parse_event) at h)
              (λ m t. inr (
                inr (
                  text_eq_sound sig rollback_message_sig r,
                  parse_rollback_message_event-IsRollback nid contracts height new e m t,
                )))
        | inr r ↦
            no_message sig e o (rw (p, q, r, parse_event) at h) (text_ne sig emit_message_sig p)
              (text_ne sig call_message_sig q) (text_ne sig rollback_message_sig r)
      ]
    ]
  ]
    where
      no_message :
          (sig : Text) (e : EventLog) (o : Option Message)
          → returns none ≡ returns o
          → sig ≢ emit_message_sig
          → sig ≢ call_message_sig
          → sig ≢ rollback_message_sig
          → IsReadAs sig e o
      no_message sig e none g a b c = (a, (b, c))
      no_message sig e (some m) g a b c = absurd (cc)

  -- Every log gives what it is read as, in the order of the logs.
  abbrev pub Reads : List EventLog → List Message → Type 0
  Reads [] ms = ms ≡ []
  Reads (e ∷ es) ms =
      (sig : Text) × (at e.indexed 0 ≡ returns sig)
      × ((o : Option Message) × IsReadAs sig e o
          × ((rest : List Message) × (ms ≡ cons_message nid contracts o rest) × Reads es rest))

  parse_events-Reads :
      (new : ℕ) (es : List EventLog) (ms : List Message)
      → parse_events nid contracts new height es ≡ returns ms
      → Reads es ms
  unfolding parse_events
  parse_events-Reads new [] ms h = cc
  parse_events-Reads new (e ∷ es) ms h = >>!-gives (at e.indexed 0) _ ms h (λ sig p1 h1.
      >>!-gives (parse_event nid contracts new height sig e) _ ms h1 (λ o p2 h2.
        >>!-gives (parse_events nid contracts (suc new) height es) _ ms h2 (λ rest p3 h3. (
          sig,
          p1,
          (
            o,
            parse_event-IsReadAs new sig e o p2,
            (rest, sym (returns_injective h3), parse_events-Reads (suc new) es rest p3),
          ),
        ))))

-- When a notification is parsed without an error, its messages are those of its logs in order, all at
-- the height of the notification: one for each log with a known signature, with the chain, the other
-- chain, the number, the request and the bytes where the event of that signature has them.
pub parse_message_event-Reads :
    (nid : Text) (contracts : TextMap EventMap) (new : ℕ) (n : EventNotification)
    (ms : List Message)
    → parse_message_event nid contracts new n ≡ returns ms
    → (height : ℤ) × (big_int n.height ≡ ok height) × Reads nid contracts (uint64 height) n.logs ms
unfolding parse_message_event
parse_message_event-Reads nid contracts new n ms h =
    >>!-gives (lift (big_int n.height)) _ ms h (λ height p g. (
      height,
      lift-returns (big_int n.height) height p,
      parse_events-Reads nid contracts (uint64 height) new n.logs ms g,
    ))
