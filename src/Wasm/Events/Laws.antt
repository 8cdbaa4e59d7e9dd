-- ===== src/Wasm/Events/Laws.antt =====
-- What the messages of the events of a transaction look like (relayer/chains/wasm/events.go).
use centralized_relay.Common.{
  ℕ, suc, ◌≡◌, ◌≢◌, refl, sym, subst, List, [], ◌∷◌, Option, none, some, Text, text_eq,
  text_eq_sound, text_ne, Result, ok, ◌>>=◌, >>=-gives, inl, inr, ◌⊎◌, Bool-cases,
}
use centralized_relay.Events
use centralized_relay.Wasm.Events.{
  event_type_message, event_type_call_message, event_type_rollback_message, Event, Draft, new_draft,
  set_emit, set_call, set_rollback, set_all, parse_event, cons_draft, parse_message_from_events,
}
use centralized_relay.Wasm.Events.Attributes.{
  set_all-keeps, IsEmit, IsCall, IsRollback, set_emit-keeps, set_call-keeps, set_rollback-keeps,
}

module _ (nid : Text) where
  -- What an event is read as: nothing if its kind is not known.
  abbrev pub IsReadAs : Event → Option Draft → Type 0
  IsReadAs e none =
      (e.kind ≢ event_type_message)
      × ((e.kind ≢ event_type_call_message) × (e.kind ≢ event_type_rollback_message))
  IsReadAs e (some d) =
      ((e.kind ≡ event_type_message) × IsEmit nid e.attributes d)
      ⊎ (((e.kind ≡ event_type_call_message) × IsCall nid e.attributes d)
          ⊎ ((e.kind ≡ event_type_rollback_message) × IsRollback nid e.attributes d))

  drafted :
      (e : Event) (r : Result Draft) (o : Option Draft)
      → (r >>= λ d. ok (some d)) ≡ ok o
      → ((d : Draft) → r ≡ ok d → IsReadAs e (some d))
      → IsReadAs e o
  drafted e r o h k =
      >>=-gives r _ o h (λ d p g. let same : some d ≡ o = cc in subst (IsReadAs e) same (k d p))

  parse_event-IsReadAs :
      (new : ℕ) (e : Event) (o : Option Draft) → parse_event nid new e ≡ ok o → IsReadAs e o
  unfolding parse_event
  parse_event-IsReadAs new e o h = elim (Bool-cases (text_eq e.kind event_type_message)) [
    | inl p ↦
        drafted e (set_all (set_emit new) e.attributes (new_draft Events.emit_message nid [])) o
          (rw (p, parse_event) at h)
          (λ d q. inl (
            text_eq_sound e.kind event_type_message p,
            set_all-keeps (IsEmit nid e.attributes) (set_emit new) e.attributes _ d
                (set_emit-keeps nid new e.attributes) q (refl, refl, inl refl),
          ))
    | inr p ↦ elim (Bool-cases (text_eq e.kind event_type_call_message)) [
      | inl q ↦
          drafted e (set_all (set_call new) e.attributes (new_draft Events.call_message [] nid)) o
            (rw (p, q, parse_event) at h)
            (λ d r. inr (
              inl (
                text_eq_sound e.kind event_type_call_message q,
                set_all-keeps (IsCall nid e.attributes) (set_call new) e.attributes _ d
                    (set_call-keeps nid new e.attributes) r (refl, refl, inl refl),
              )))
      | inr q ↦ elim (Bool-cases (text_eq e.kind event_type_rollback_message)) [
        | inl r ↦
            drafted e
              (set_all (set_rollback new) e.attributes (new_draft Events.rollback_message nid nid))
              o (rw (p, q, r, parse_event) at h)
              (λ d t. inr (
                inr (
                  text_eq_sound e.kind event_type_rollback_message r,
                  set_all-keeps (IsRollback nid e.attributes) (set_rollback new) e.attributes _ d
                      (set_rollback-keeps nid new e.attributes) t
                      (refl, refl, refl, refl, inl refl),
                )))
        | inr r ↦
            no_draft o (rw (p, q, r, parse_event) at h) (text_ne e.kind event_type_message p)
              (text_ne e.kind event_type_call_message q)
              (text_ne e.kind event_type_rollback_message r)
      ]
    ]
  ]
    where
      no_draft :
          (o : Option Draft)
          → ok none ≡ ok o
          → e.kind ≢ event_type_message
          → e.kind ≢ event_type_call_message
          → e.kind ≢ event_type_rollback_message
          → IsReadAs e o
      no_draft none g a b c = (a, (b, c))
      no_draft (some d) g a b c = absurd (cc)

  -- Every event gives what it is read as, in the order of the events.
  abbrev pub Reads : List Event → List Draft → Type 0
  Reads [] ds = ds ≡ []
  Reads (e ∷ es) ds =
      (o : Option Draft) × IsReadAs e o
      × ((rest : List Draft) × (ds ≡ cons_draft nid o rest) × Reads es rest)

  -- When the events of a transaction are parsed without an error, each event of a known kind gives one
  -- message, in order, with the event type of its kind and the chain as its destination, as both ends
  -- or as neither, as the kind asks; its number is missing or is that of an attribute of the event.
  pub parse_message_from_events-Reads :
      (new : ℕ) (es : List Event) (ds : List Draft)
      → parse_message_from_events nid new es ≡ ok ds
      → Reads es ds
  unfolding parse_message_from_events
  parse_message_from_events-Reads new [] ds h = cc
  parse_message_from_events-Reads new (e ∷ es) ds h =
      >>=-gives (parse_event nid new e) _ ds h (λ o p g.
        >>=-gives (parse_message_from_events nid (suc new) es) _ ds g (λ rest q k.
          let same : cons_draft nid o rest ≡ ds = cc in
          (
            o,
            parse_event-IsReadAs new e o p,
            (rest, sym same, parse_message_from_events-Reads (suc new) es rest q),
          )))
