-- ===== src/Icon/Query/Laws.antt =====
-- Where the messages that ICON generates for a height come from (relayer/chains/icon/query.go).
use centralized_relay.Common.{
  ℕ, suc, ◌≡◌, ◌≢◌, refl, sym, ap, ◌∙◌, subst, List, [], ◌∷◌, ◌++◌, Option, none, some, Text, Bool,
  true, false, text_eq, text_eq_sound, ℤ, ok, ◌⊎◌, inl, inr, Bool-cases, Run, returns, fails, ◌>>!◌,
  lift, at, >>!-gives, lift-returns, returns_injective, fails-ne, In, In-append, no_messages_found,
  external, int64_of, if◌then◌else◌, Result, err,
}
use centralized_relay.Types.Message.{Message, MessageKeyWithMessageHeight}
use centralized_relay.Types.Contracts.{TextMap, EventMap}
use centralized_relay.Icon.Types.{big_int, new_hex_int}
use centralized_relay.Icon.Events.{
  EventLog, emit_message_sig, call_message_sig, rollback_message_sig, uint64,
}
use centralized_relay.Icon.Client.{
  TransactionResult, Answer, Node, result_of, answered, waiting, refused,
}
use centralized_relay.Icon.Query.{
  generate_emit, generate_call, generate_rollback, generate_event, appended, generate_events,
  generate_transactions, nonempty, generate_messages,
}
use centralized_relay.Icon.Query.Sources.{
  none-ne, IsEventOf, generate_emit-IsEmit, generate_call-IsCall, generate_rollback-IsRollback,
}

module _ (nid : Text) (addresses : TextMap Text) (contracts : TextMap EventMap) where
  -- The same, at the height that the text of a block height stands for.
  abbrev pub IsLogged : Text → Text → EventLog → Message → Type 0
  IsLogged src block_height e m =
      (height : ℤ) × (big_int block_height ≡ ok height)
      × IsEventOf nid addresses contracts src (uint64 height) e m

  generate_event-IsLogged :
      (new : ℕ) (src block_height : Text) (e : EventLog) (m : Message)
      → generate_event nid addresses contracts new src block_height e ≡ returns (some m)
      → IsLogged src block_height e m
  unfolding generate_event
  generate_event-IsLogged new src block_height e m h =
      >>!-gives (at e.indexed 0) _ (some m) h (λ sig p g.
        >>!-gives (lift (big_int block_height)) _ (some m) g (λ height q k. (
          height,
          lift-returns (big_int block_height) height q,
          by_signature new src (uint64 height) sig e m p k,
        )))
    where
      by_signature :
          (new : ℕ) (src : Text) (height : ℕ) (sig : Text) (e : EventLog) (m : Message)
          → at e.indexed 0 ≡ returns sig
          → (if text_eq sig emit_message_sig
              then generate_emit nid addresses contracts new src height sig e
              else if text_eq sig call_message_sig
              then generate_call nid addresses contracts new height sig e
              else if text_eq sig rollback_message_sig
              then generate_rollback nid addresses contracts new height sig e
              else returns none)
            ≡ returns (some m)
          → IsEventOf nid addresses contracts src height e m
      by_signature new src height sig e m p h = elim (Bool-cases (text_eq sig emit_message_sig)) [
        | inl a ↦ inl (
          subst (λ s. at e.indexed 0 ≡ returns s) (text_eq_sound sig emit_message_sig a) p,
          generate_emit-IsEmit nid addresses contracts new src height sig e m (rw a at h),
        )
        | inr a ↦ elim (Bool-cases (text_eq sig call_message_sig)) [
          | inl b ↦ inr (
              inl (
                subst (λ s. at e.indexed 0 ≡ returns s) (text_eq_sound sig call_message_sig b) p,
                generate_call-IsCall nid addresses contracts new height sig e m (rw (a, b) at h),
              ))
          | inr b ↦ elim (Bool-cases (text_eq sig rollback_message_sig)) [
            | inl c ↦ inr (
                inr (
                  subst (λ s. at e.indexed 0 ≡ returns s) (text_eq_sound sig rollback_message_sig c)
                      p,
                  generate_rollback-IsRollback nid addresses contracts new height sig e m
                      (rw (a, b, c) at h),
                ))
            | inr c ↦ absurd (none-ne (rw (a, b, c) at h))
          ]
        ]
      ]

  -- The message was there before, or comes from one of the logs.
  abbrev Stems : Text → Text → List EventLog → List Message → Message → Type 0
  Stems src block_height es ms m =
      In m ms ⊎ ((e : EventLog) × In e es × IsLogged src block_height e m)

  appended-Stems :
      (src block_height : Text) (e : EventLog) (es : List EventLog) (ms : List Message)
      (o : Option Message) (m : Message)
      → ((n : Message) → o ≡ some n → IsLogged src block_height e n)
      → Stems src block_height es (appended nid addresses contracts ms o) m
      → Stems src block_height (e ∷ es) ms m
  appended-Stems src block_height e es ms o m h (inr (x, i, l)) = inr (x, inr i, l)
  appended-Stems src block_height e es ms none m h (inl i) = inl i
  appended-Stems src block_height e es ms (some n) m h (inl i) = elim (In-append m ms (n ∷ []) i) [
    | inl j ↦ inl j
    | inr (inl same) ↦ inr (e, inl refl, subst (IsLogged src block_height e) same (h n refl))
    | inr (inr j) ↦ absurd j
  ]

  generate_events-Stems :
      (src block_height : Text) (new after : ℕ) (es : List EventLog) (ms all : List Message)
      → generate_events nid addresses contracts src block_height new es ms ≡ returns (after, all)
      → (m : Message) → In m all
      → Stems src block_height es ms m
  unfolding generate_events
  generate_events-Stems src block_height new after [] ms all h m i =
      let same : all ≡ ms = cc in inl (subst (In m) same i)
  generate_events-Stems src block_height new after (e ∷ es) ms all h m i =
      >>!-gives (generate_event nid addresses contracts new src block_height e) _ (after, all) h
        (λ o p g.
          appended-Stems src block_height e es ms o m
            (λ n same. generate_event-IsLogged new src block_height e n (p ∙ ap returns same))
            (generate_events-Stems src block_height (suc new) after es
              (appended nid addresses contracts ms o) all g m i))

  -- The message comes from a log of the configured contract, in a transaction of the given ones.
  abbrev pub IsGenerated : Node → Text → List Text → Message → Type 0
  IsGenerated node src hashes m =
      (hash : Text) × In hash hashes
      × ((r : TransactionResult) × (node.transaction_result hash 0 ≡ answered r)
          × ((e : EventLog) × In e r.event_logs × IsLogged src r.block_height e m))

  result_of-ok :
      (a : Answer) (x : centralized_relay.Common.Error) (r : TransactionResult)
      → result_of a x ≡ ok r
      → a ≡ answered r
  result_of-ok (answered s) x r h = cc
  result_of-ok waiting x r h = absurd (cc)
  result_of-ok (refused e) x r h = absurd (cc)

  generate_transactions-IsGenerated :
      (node : Node) (src : Text) (new : ℕ) (hashes : List Text) (ms all : List Message)
      → generate_transactions nid addresses contracts node src new hashes ms ≡ returns all
      → (m : Message) → In m all
      → In m ms ⊎ IsGenerated node src hashes m
  unfolding generate_transactions
  generate_transactions-IsGenerated node src new [] ms all h m i =
      let same : all ≡ ms = cc in inl (subst (In m) same i)
  generate_transactions-IsGenerated node src new (hash ∷ hashes) ms all h m i =
      >>!-gives (lift (result_of (node.transaction_result hash 0) (external 0))) _ all h (λ r p g.
        >>!-gives (generate_events nid addresses contracts src r.block_height new r.event_logs ms) _
          all g
          (λ (after, some_ms) q k.
            elim (generate_transactions-IsGenerated node src after hashes some_ms all k m i) [
              | inr (hs, j, rest) ↦ inr (hs, inr j, rest)
              | inl j ↦
                  elim (generate_events-Stems src r.block_height new after r.event_logs ms some_ms q
                    m j) [
                      | inl l ↦ inl l
                      | inr found ↦ inr (
                        hash,
                        inl refl,
                        (
                          r,
                          result_of-ok (node.transaction_result hash 0) (external 0) r
                              (lift-returns _ r p),
                          found,
                        ),
                      )
                    ]
            ]))

  -- When ICON generates messages for a height there is one at least, and each comes from a log that the
  -- configured contract for its signature wrote in a transaction of the block at that height.
  pub generate_messages-IsGenerated :
      (node : Node) (new : ℕ) (key : MessageKeyWithMessageHeight) (ms : List Message)
      → generate_messages nid addresses contracts node new key ≡ returns ms
      → (ms ≢ [])
        × ((hashes : List Text) × (node.block_by_height (new_hex_int (int64_of key.height))
              ≡ ok hashes)
            × ((m : Message) → In m ms → IsGenerated node key.key.src hashes m))
  unfolding generate_messages
  generate_messages-IsGenerated node new key ms h =
      >>!-gives (lift (node.block_by_height (new_hex_int (int64_of key.height)))) _ ms h
        (λ hashes p g.
          >>!-gives (generate_transactions nid addresses contracts node key.key.src new hashes []) _
            ms g
            (λ all q k.
              let (some_message, same) = checked all ms k in
              (
                some_message,
                (
                  hashes,
                  lift-returns _ hashes p,
                  λ m i.
                      elim (generate_transactions-IsGenerated node key.key.src new hashes [] all q m
                        (subst (In m) (sym same) i)) [ inl j ↦ absurd j | inr found ↦ found ],
                ),
              )))
    where
      checked :
          (all ms : List Message)
          → nonempty nid addresses contracts all ≡ returns ms
          → (ms ≢ []) × (all ≡ ms)
      checked [] ms e = absurd (fails-ne no_messages_found ms e)
      checked (m ∷ all) ms e =
          let same : m ∷ all ≡ ms = cc in (λ empty. differ (same ∙ empty), same)
        where
          differ : m ∷ all ≡ [] → ⊥
          differ g = cc
