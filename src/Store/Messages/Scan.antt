-- ===== src/Store/Messages/Scan.antt =====
-- What `GetMessages` of relayer/store/messageStore.go scans and returns.
use centralized_relay.Common.{
  ℕ, zero, suc, subst, ◌-◌, ◌+◌, ◌≡◌, ◌≢◌, refl, sym, true, List, [], ◌∷◌, ◌++◌, Text, has_prefix,
  take, In, Result, ok, err, ◌>>=◌, ◌==◌, if◌then◌else◌, arith, Result-cases, Bool-cases, inl, inr,
  ◌↔◌, ℤ, int_string,
}
use centralized_relay.Types.Message.{RouteMessage}
use centralized_relay.Store.Interface.{Store, StoreLaws, Holds, done}
use centralized_relay.Store.Keys.{entry_key, chain_key, get_key}
use centralized_relay.Store.Pagination.{Pagination}
use centralized_relay.Store.Codec.{Codec}
use centralized_relay.Store.Messages.{read_messages, get_messages}

-- The messages are the pairs decoded in order, each at the address after the one before.
abbrev pub Decodes : Codec RouteMessage → ℕ → List (Text × Text) → List RouteMessage → Type 0
Decodes c addr [] [] = Unit
Decodes c addr [] (m ∷ ms) = ⊥
Decodes c addr ((k, v) ∷ ps) [] = ⊥
Decodes c addr ((k, v) ∷ ps) (m ∷ ms) = (c.decode addr v ≡ ok m) × Decodes c (addr + 1) ps ms

cons_ok :
    (r : Result (List RouteMessage)) (m : RouteMessage) (ms : List RouteMessage)
    → (r >>= λ rest. ok (m ∷ rest)) ≡ ok ms
    → (rest : List RouteMessage) × (r ≡ ok rest) × (ms ≡ m ∷ rest)
cons_ok (ok rest) m ms e = (rest, refl, cc)
cons_ok (err x) m ms e = cc

nil_ok :
    (c : Codec RouteMessage) (addr : ℕ) (f : Result (Unit {0})) (ms : List RouteMessage)
    → (f >>= λ _. ok []) ≡ ok ms
    → Decodes c addr [] ms
nil_ok c addr (ok u) [] e = tt
nil_ok c addr (ok u) (m ∷ ms) e = cc
nil_ok c addr (err x) ms e = cc

module _ (c : Codec RouteMessage) (limit : ℕ) (f : Result (Unit {0})) where
  read_messages_last :
      (n addr : ℕ) (k v : Text) (rest : List (Text × Text)) (ms : List RouteMessage)
      → n + 1 ≡ limit
      → read_messages c limit n addr ((k, v) ∷ rest) f ≡ ok ms
      → (m : RouteMessage) × (c.decode addr v ≡ ok m) × (ms ≡ m ∷ [])
  unfolding read_messages
  read_messages_last n addr k v rest ms h e = elim (Result-cases (c.decode addr v)) [
    | inl (m, d) ↦ (m, d, ground arith)
    | inr (x, d) ↦ absurd (ground arith)
  ]

  read_messages_more :
      (n addr : ℕ) (k v : Text) (rest : List (Text × Text)) (ms : List RouteMessage)
      → n + 1 ≢ limit
      → read_messages c limit n addr ((k, v) ∷ rest) f ≡ ok ms
      → (m : RouteMessage) × (tail : List RouteMessage) × (c.decode addr v ≡ ok m)
        × (read_messages c limit (n + 1) (addr + 1) rest f ≡ ok tail)
        × (ms ≡ m ∷ tail)
  unfolding read_messages
  read_messages_more n addr k v rest ms h e = elim (Result-cases (c.decode addr v)) [
    | inl (m, d) ↦
        let (tail, t, q) =
          cons_ok (read_messages c limit (n + 1) (addr + 1) rest f) m ms (ground arith) in
        (m, tail, d, t, q)
    | inr (x, d) ↦ absurd (ground arith)
  ]

  read_messages_limited :
      (left n addr : ℕ) (pairs : List (Text × Text)) (ms : List RouteMessage)
      → n + suc left ≡ limit
      → read_messages c limit n addr pairs f ≡ ok ms
      → Decodes c addr (take (suc left) pairs) ms
  read_messages_limited left n addr [] ms h e = nil_ok c addr f ms (unfold read_messages in e)
  read_messages_limited zero n addr ((k, v) ∷ rest) ms h e =
      let (m, d, q) = read_messages_last n addr k v rest ms h e in rw q (d, tt)
  read_messages_limited (suc left) n addr ((k, v) ∷ rest) ms h e =
      let (m, tail, d, t, q) = read_messages_more n addr k v rest ms (omega arith) e in
      rw q (d, read_messages_limited left (n + 1) (addr + 1) rest tail (omega arith) t)

  read_messages_all :
      (n addr : ℕ) (pairs : List (Text × Text)) (ms : List RouteMessage)
      → limit ≡ 0
      → read_messages c limit n addr pairs f ≡ ok ms
      → Decodes c addr pairs ms
  read_messages_all n addr [] ms h e = nil_ok c addr f ms (unfold read_messages in e)
  read_messages_all n addr ((k, v) ∷ rest) ms h e =
      let (m, tail, d, t, q) = read_messages_more n addr k v rest ms (omega arith) e in
      rw q (d, read_messages_all (n + 1) (addr + 1) rest tail h t)

module _ {D : Type 0} (db : Store D) (c : Codec RouteMessage) (prefix : Text) where
  abbrev pub scanned : D → Text → List (Text × Text)
  scanned d nid = (db.new_iterator d (chain_key prefix nid)).pairs

  -- Whenever `GetMessages` succeeds, it returns the pairs of the chain's key range decoded in the order
  -- of the iterator, all of them if the limit is 0 and else the first `limit` ones.
  pub get_messages-Decodes :
      (d : D) (addr : ℕ) (nid : Text) (p : Pagination) (ms : List RouteMessage)
      → get_messages db c prefix d addr nid p ≡ ok ms
      → Decodes c addr (if p.limit == 0 then scanned d nid else take p.limit (scanned d nid)) ms
  unfolding get_messages
  get_messages-Decodes d addr nid p ms e = elim (Bool-cases (p.limit == 0)) [
    | inl z ↦ rw z (read_messages_all c p.limit _ 0 addr (scanned d nid) ms (ground arith) e)
    | inr z ↦
        let l : p.limit ≡ suc (p.limit - 1) = ground arith in
        rw z (
          subst (λ n. Decodes c addr (take n (scanned d nid)) ms) (sym l)
            (read_messages_limited c p.limit _ (p.limit - 1) 0 addr (scanned d nid) ms (omega arith)
              e))
  ]

  has_prefix_cancel : (p s t : Text) → has_prefix (p ++ s) (p ++ t) ≡ has_prefix s t
  unfolding has_prefix
  has_prefix_cancel [] s t = refl
  has_prefix_cancel (x ∷ p) s t = ground (arith, has_prefix_cancel p s t)

  -- The key range of the chain `nid` holds the message with the number `sn` of the chain `src`
  -- exactly if that message is stored and the text `src-sn` begins with `nid`: so also for a chain
  -- whose name only begins with `nid`.
  pub scanned_iff :
      (laws : StoreLaws db) (d : D) (nid src : Text) (sn : ℤ) (v : Text)
      → (db.new_iterator d (chain_key prefix nid)).failure ≡ done
      → In (entry_key prefix src sn, v) (scanned d nid) ↔ (
          (has_prefix nid (src ++ (b'-' ∷ int_string sn)) ≡ true)
          × Holds db d (entry_key prefix src sn) v)
  unfolding get_key has_prefix
  scanned_iff laws d nid src sn v h =
      subst
        (λ b.
          In (entry_key prefix src sn, v) (scanned d nid)
          ↔ ((b ≡ true) × Holds db d (entry_key prefix src sn) v))
        same (laws.iterate d (chain_key prefix nid) (entry_key prefix src sn) v h)
    where
      same :
          has_prefix (chain_key prefix nid) (entry_key prefix src sn)
          ≡ has_prefix nid (src ++ (b'-' ∷ int_string sn))
      same = has_prefix_cancel prefix (b'-' ∷ nid) (b'-' ∷ (src ++ (b'-' ∷ int_string sn)))
