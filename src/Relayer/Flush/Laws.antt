-- ===== src/Relayer/Flush/Laws.antt =====
-- What `flushMessages` of relayer/relay.go puts into a cache.
use centralized_relay.Common.{
  ℕ, ◌+◌, ◌≤◌, ◌<◌, ◌≡◌, sym, ◌∙◌, ap, true, false, List, [], ◌∷◌, Text, In, inl, inr, Bool-cases,
  select, ok, arith,
}
use centralized_relay.Types.Message.{RouteMessage, MessageKey, message_key, key_eq, new_message_key}
use centralized_relay.Types.Retry.{is_stale, stale_mark_count}
use centralized_relay.Store.Codec.{Codec, CodecLaws, message_at}
use centralized_relay.Store.Messages.Scan.{Decodes, get_messages-Decodes}
use centralized_relay.Store.Pagination.{new_pagination, with_limit}
use centralized_relay.Relayer.State.{Env, State, prefix_message_store, max_flush_message}
use centralized_relay.Relayer.State.Cached.{
  IsCached, IsKnown, add_messages-IsCached, add_messages-IsCached_old,
}
use centralized_relay.Relayer.Flush.{read_active, get_active_messages, flush_chain, is_active}

In-select :
    (m : RouteMessage) (ms : List RouteMessage)
    → In m ms
    → is_active m ≡ true
    → In m (select is_active ms)
In-select m [] i h = absurd i
In-select m (x ∷ ms) (inl e) h = elim (Bool-cases (is_active x)) [
  | inl a ↦ rw a (inl e)
  | inr a ↦ absurd (ground (arith, ap is_active e))
]
In-select m (x ∷ ms) (inr i) h = elim (Bool-cases (is_active x)) [
  | inl a ↦ rw a (inr (In-select m ms i h))
  | inr a ↦ rw a (In-select m ms i h)
]

Active-select :
    (m : RouteMessage) (ms : List RouteMessage) → In m (select is_active ms) → is_active m ≡ true
Active-select m [] i = absurd i
Active-select m (x ∷ ms) i = elim (Bool-cases (is_active x)) [
  | inl a ↦ elim (rw a at i) [ inl e ↦ ap is_active (sym e) ∙ a | inr j ↦ Active-select m ms j ]
  | inr a ↦ Active-select m ms (rw a at i)
]

-- Every message that is read has its big integer at an address from `addr` on.
Decodes-above :
    (c : Codec RouteMessage) (laws : CodecLaws c message_at) (addr : ℕ) (ps : List (Text × Text))
    (ms : List RouteMessage) (m : RouteMessage)
    → Decodes c addr ps ms
    → In m ms
    → addr ≤ m.message.sn.addr
Decodes-above c laws addr [] [] m h i = absurd i
Decodes-above c laws addr [] (x ∷ ms) m h i = absurd h
Decodes-above c laws addr ((k, v) ∷ ps) [] m h i = absurd h
Decodes-above c laws addr ((k, v) ∷ ps) (x ∷ ms) m h (inl e) = omega (
  arith,
  ap (λ (r : RouteMessage). r.message.sn.addr) (laws.decode_placed x v addr h.0),
  ap (λ (r : RouteMessage). r.message.sn.addr) e,
)
Decodes-above c laws addr ((k, v) ∷ ps) (x ∷ ms) m h (inr i) =
    omega (arith, Decodes-above c laws (addr + 1) ps ms m h.1 i)

module _ {D : Type 0} (env : Env D) where
  -- Of the messages that are read, exactly those with fewer attempts than the stale mark are given
  -- on.
  pub get_active_messages_fresh :
      (s : State D) (nid : Text) (limit : ℕ) (read active : List RouteMessage) (m : RouteMessage)
      → read_active env s nid limit ≡ ok read
      → get_active_messages env s nid limit ≡ ok active
      → (In m active → m.retry < stale_mark_count)
        × (In m read → m.retry < stale_mark_count → In m active)
  unfolding get_active_messages is_stale
  get_active_messages_fresh s nid limit read active m e f = (
    λ i. young_of (Active-select m read (rw (← same) at i)),
    λ i young. rw (← same) (In-select m read i (unfold is_stale in ground arith)),
  )
    where
      same : select is_active read ≡ active
      same = ground arith

      young_of : is_active m ≡ true → m.retry < stale_mark_count
      young_of h = ground arith

  -- A flush caches every message of the page that is not stale.
  pub flush_chain_caches :
      (key nid : Text) (s : State D) (ms : List RouteMessage) (m : RouteMessage)
      → read_active env s nid max_flush_message ≡ ok ms
      → In m ms
      → m.retry < stale_mark_count
      → IsKnown key s
      → IsCached key (message_key m.message) (flush_chain env key nid s)
  unfolding flush_chain
  flush_chain_caches key nid s ms m e i young known =
      rw (e, flush_chain)
        (add_messages-IsCached key (select is_active ms) m _ known
          (In-select m ms i (unfold is_stale in ground arith)))

  -- What is cached under a key whose big integer is an older object stays cached when a message is
  -- read from the database, and the message is cached too, under a key that Go tells apart: also
  -- if both are the same message, which the cache then has twice.
  flush_chain_duplicates :
      (codec_laws : CodecLaws env.messages message_at) (src nid : Text) (s : State D)
      (ms : List RouteMessage) (m : RouteMessage) (old : MessageKey)
      → read_active env s nid max_flush_message ≡ ok ms
      → In m ms
      → m.retry < stale_mark_count
      → IsKnown src s
      → IsCached src old s
      → old.sn.addr < s.next
      → IsCached src old (flush_chain env src nid s)
        × IsCached src (message_key m.message) (flush_chain env src nid s)
        × (key_eq old (message_key m.message) ≡ false)
  unfolding flush_chain
  flush_chain_duplicates codec_laws src nid s ms m old e i young known cached older = (
    rw (e, flush_chain)
        (add_messages-IsCached_old src (select is_active ms) old _ known (record {
          object = cached.object;
          found = cached.found;
          used = omega (arith, cached.used);
          same_key = cached.same_key;
        })),
    flush_chain_caches src nid s ms m e i young known,
    apart,
  )
    where
      newer : s.next ≤ m.message.sn.addr
      newer =
          Decodes-above env.messages codec_laws s.next _ ms m
            (get_messages-Decodes env.store env.messages prefix_message_store s.disk s.next nid
              (with_limit max_flush_message new_pagination) ms (unfold read_active in e))
            i

      apart : key_eq old (message_key m.message) ≡ false
      apart = unfold key_eq message_key new_message_key in ground (arith, newer)
