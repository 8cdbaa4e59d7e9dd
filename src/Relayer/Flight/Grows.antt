-- ===== src/Relayer/Flight/Grows.antt =====
-- Steps that allocate objects and change caches, but neither an object in use nor a goroutine.
use centralized_relay.Common.{
  ℕ, ◌+◌, ◌≤◌, ◌<◌, ◌≡◌, refl, ◌∙◌, ap, List, [], ◌∷◌, Text, text_eq, All, arith, Bool-cases, inl,
  inr,
}
use centralized_relay.Types.Message.{MessageKey, RouteMessage, message_key}
use centralized_relay.Types.Contracts.{TextMap}
use centralized_relay.Types.Cache
use centralized_relay.Types.Cache.{MessageCache}
use centralized_relay.Runtime.{ChainRuntime}
use centralized_relay.Relayer.State.{State, update_chain, modify_chain, add_message, add_messages}
use centralized_relay.Relayer.Flight.{CachedBelow, flying, IsSingleFlight}

abbrev pub PointsBelow : ℕ → MessageCache → Type 0
PointsBelow n m = All (λ (e : MessageKey × ℕ). e.1 < n) m

PointsBelow-mono : (a b : ℕ) (m : MessageCache) → a ≤ b → PointsBelow a m → PointsBelow b m
PointsBelow-mono a b [] h c = tt
PointsBelow-mono a b (e ∷ m) h c = (omega arith, PointsBelow-mono a b m h c.1)

pub CachedBelow-mono :
    (a b : ℕ) (cs : TextMap ChainRuntime) → a ≤ b → CachedBelow a cs → CachedBelow b cs
CachedBelow-mono a b [] h c = tt
CachedBelow-mono a b ((nid, x) ∷ cs) h c =
    (PointsBelow-mono a b x.message_cache h c.0, CachedBelow-mono a b cs h c.1)

add-PointsBelow :
    (n : ℕ) (k : MessageKey) (p : ℕ) (m : MessageCache)
    → p < n
    → PointsBelow n m
    → PointsBelow n (Cache.add k p m)
unfolding Cache.add
add-PointsBelow n k p [] h c = (h, tt)
add-PointsBelow n k p ((j, q) ∷ m) h c = ground (arith, add-PointsBelow n k p m h c.1)

pub remove-PointsBelow :
    (n : ℕ) (k : MessageKey) (m : MessageCache) → PointsBelow n m → PointsBelow n (Cache.remove k m)
unfolding Cache.remove
remove-PointsBelow n k [] c = tt
remove-PointsBelow n k ((j, q) ∷ m) c = ground (arith, remove-PointsBelow n k m c.1)

pub update_chain-CachedBelow :
    (n : ℕ) (nid : Text) (f : ChainRuntime → ChainRuntime) (cs : TextMap ChainRuntime)
    → ((c : ChainRuntime) → PointsBelow n c.message_cache → PointsBelow n (f c).message_cache)
    → CachedBelow n cs
    → CachedBelow n (update_chain nid f cs)
unfolding update_chain
update_chain-CachedBelow n nid f [] keep c = tt
update_chain-CachedBelow n nid f ((j, x) ∷ cs) keep c = elim (Bool-cases (text_eq j nid)) [
  | inl e ↦ rw e (keep x c.0, c.1)
  | inr e ↦ rw e (c.0, update_chain-CachedBelow n nid f cs keep c.1)
]

pub record Grows {D : Type 0} (s t : State D) : Type 0 where
  pub spawned : t.spawned ≡ s.spawned
  pub routing : t.routing ≡ s.routing
  pub next : s.next ≤ t.next
  pub heap : (p : ℕ) → p < s.next → t.heap p ≡ s.heap p
  pub cached : CachedBelow s.next s.chains → CachedBelow t.next t.chains

module _ {D : Type 0} where
  pub Grows-refl : (s : State D) → Grows s s
  Grows-refl s = record {
    spawned = refl;
    routing = refl;
    next = omega arith;
    heap = λ p h. refl;
    cached = λ c. c;
  }

  pub Grows-trans : {s t u : State D} → Grows s t → Grows t u → Grows s u
  Grows-trans {s} {t} {u} g h = record {
    spawned = h.spawned ∙ g.spawned;
    routing = h.routing ∙ g.routing;
    next = omega arith;
    heap = λ p b. h.heap p (omega arith) ∙ g.heap p b;
    cached = λ c. h.cached (g.cached c);
  }

  pub Grows-flying : {s t : State D} → Grows s t → (p : ℕ) → flying t p ≡ flying s p
  Grows-flying g p = rw (g.spawned, g.routing)

  -- What grows keeps the invariant.
  pub Grows-IsSingleFlight : {s t : State D} → Grows s t → IsSingleFlight s → IsSingleFlight t
  Grows-IsSingleFlight {s} {t} g i = record {
    single = λ p. omega (arith, i.single p, Grows-flying g p);
    marked = λ p h.
        let f : 0 < flying s p = omega (arith, Grows-flying g p) in
        ap (λ (r : RouteMessage). r.processing) (g.heap p (i.below p f)) ∙ i.marked p f;
    below = λ p h.
        let f : 0 < flying s p = omega (arith, Grows-flying g p) in
        omega (arith, i.below p f, g.next);
    cached = g.cached i.cached;
  }

  pub disk-Grows : (s : State D) (d : D) → Grows s (record s { disk = d })
  disk-Grows s d = record {
    spawned = refl;
    routing = refl;
    next = omega arith;
    heap = λ p h. refl;
    cached = λ c. c;
  }

  pub next-Grows : (s : State D) (n : ℕ) → Grows s (record s { next = s.next + n })
  next-Grows s n = record {
    spawned = refl;
    routing = refl;
    next = omega arith;
    heap = λ p h. refl;
    cached = CachedBelow-mono s.next (s.next + n) s.chains (omega arith);
  }

  pub modify_chain-Grows :
      (nid : Text) (f : ChainRuntime → ChainRuntime) (s : State D)
      → ((n : ℕ) (c : ChainRuntime)
          → PointsBelow n c.message_cache
          → PointsBelow n (f c).message_cache)
      → Grows s (modify_chain nid f s)
  unfolding modify_chain
  modify_chain-Grows nid f s keep = record {
    spawned = refl;
    routing = refl;
    next = omega arith;
    heap = λ p h. refl;
    cached = update_chain-CachedBelow s.next nid f s.chains (keep s.next);
  }

  pub add_message-Grows :
      (nid : Text) (r : RouteMessage) (s : State D) → Grows s (add_message nid r s)
  unfolding add_message
  add_message-Grows nid r s = record {
    spawned = refl;
    routing = refl;
    next = omega arith;
    heap = λ p h. ground arith;
    cached = λ c.
        update_chain-CachedBelow _ nid _ s.chains
          (λ x b. add-PointsBelow _ (message_key r.message) s.next x.message_cache (omega arith) b)
          (CachedBelow-mono s.next _ s.chains (omega arith) c);
  }

  pub add_messages-Grows :
      (nid : Text) (rs : List RouteMessage) (s : State D) → Grows s (add_messages nid rs s)
  unfolding add_messages
  add_messages-Grows nid [] s = Grows-refl s
  add_messages-Grows nid (r ∷ rs) s =
      Grows-trans (add_message-Grows nid r s) (add_messages-Grows nid rs (add_message nid r s))
