-- ===== src/Relayer/Flight/Process.antt =====
-- `processMessages` of relayer/relay.go, for the invariant.
use centralized_relay.Common.{
  ℕ, suc, ◌+◌, ◌≤◌, ◌<◌, ◌≡◌, sym, ◌∙◌, ap, subst, Bool, true, false, List, [], ◌∷◌, ◌++◌, Text,
  some, if◌then◌else◌, Result, ok, err, Result-cases, Bool-cases, inl, inr, ◌==◌, ==_iff, arith,
}
use mathlib.Core.Bool.{false≢true}
use centralized_relay.Types.Message.{MessageKey, RouteMessage}
use centralized_relay.Types.Retry.{toggle_processing, is_processing}
use centralized_relay.Types.Cache.{MessageCache}
use centralized_relay.Types.Contracts.{TextMap}
use centralized_relay.Provider.{Provider}
use centralized_relay.Runtime.{ChainRuntime, should_send_message}
use centralized_relay.Relayer.State.{Env, State, Task, modify_object, find_chain_runtime}
use centralized_relay.Relayer.Process.{
  check_received, process_to, process_message, process_cache, process_chains, process_messages,
}
use centralized_relay.Relayer.Flight.{count, flying, CachedBelow, IsSingleFlight}
use centralized_relay.Relayer.Flight.Grows.{Grows-IsSingleFlight, PointsBelow}
use centralized_relay.Relayer.Flight.Quiet.{clear_messages-Grows}

pub count-append : (p : ℕ) (ts us : List Task) → count p (ts ++ us) ≡ count p ts + count p us
unfolding count
count-append p [] us = omega arith
count-append p (t ∷ ts) us = ground (arith, count-append p ts us)

module _ {D : Type 0} where
  -- An object that no goroutine has may be changed.
  pub modify_object-IsSingleFlight :
      (p : ℕ) (f : RouteMessage → RouteMessage) (s : State D)
      → flying s p ≡ 0
      → IsSingleFlight s
      → IsSingleFlight (modify_object p f s)
  unfolding modify_object
  modify_object-IsSingleFlight p f s idle i = record {
    single = i.single;
    marked = λ q h. elim (Bool-cases (p == q)) [
      | inl e ↦ let same : p ≡ q = (==_iff p q).0 e in absurd (omega (arith, ap (flying s) same))
      | inr e ↦ rw e (i.marked q h)
    ];
    below = i.below;
    cached = i.cached;
  }

  flying_spawn :
      (t : Task) (s : State D) (p : ℕ)
      → flying (record s { spawned = s.spawned ++ t ∷ [] }) p
        ≡ (if t.object == p then suc (flying s p) else flying s p)
  unfolding count
  flying_spawn t s p = ground (arith, count-append p s.spawned (t ∷ []))

  -- A goroutine may be started for an object in use that no goroutine has, once it is marked.
  pub spawn-IsSingleFlight :
      (t : Task) (s : State D)
      → flying s t.object ≡ 0
      → (s.heap t.object).processing ≡ true
      → t.object < s.next
      → IsSingleFlight s
      → IsSingleFlight (record s { spawned = s.spawned ++ t ∷ [] })
  spawn-IsSingleFlight t s idle busy used i = record {
    single = λ p. elim (Bool-cases (t.object == p)) [
      | inl e ↦ omega (arith, rw e at (flying_spawn t s p), ap (flying s) ((==_iff t.object p).0 e))
      | inr e ↦ omega (arith, rw e at (flying_spawn t s p), i.single p)
    ];
    marked = λ p h. elim (Bool-cases (t.object == p)) [
      | inl e ↦ subst (λ q. (s.heap q).processing ≡ true) ((==_iff t.object p).0 e) busy
      | inr e ↦ i.marked p (omega (arith, rw e at (flying_spawn t s p)))
    ];
    below = λ p h. elim (Bool-cases (t.object == p)) [
      | inl e ↦ omega (arith, (==_iff t.object p).0 e)
      | inr e ↦ i.below p (omega (arith, rw e at (flying_spawn t s p)))
    ];
    cached = i.cached;
  }

pub should_send_idle :
    (now : ℕ) (dst src : Provider) (r : RouteMessage)
    → should_send_message now dst (some r) src ≡ true
    → r.processing ≡ false
unfolding should_send_message is_processing
should_send_idle now dst src r h = ground arith

module _ {D : Type 0} (env : Env D) (now : ℕ) where
  check_received-IsSingleFlight :
      (src dst : Text) (key : MessageKey) (p : ℕ) (r : Result Bool) (s : State D)
      → flying s p ≡ 0
      → (s.heap p).processing ≡ true
      → p < s.next
      → IsSingleFlight s
      → IsSingleFlight (check_received env now src dst key p r s)
  unfolding check_received
  check_received-IsSingleFlight src dst key p (err e) s idle busy used i =
      modify_object-IsSingleFlight p toggle_processing s idle i
  check_received-IsSingleFlight src dst key p (ok true) s idle busy used i =
      Grows-IsSingleFlight (clear_messages-Grows env (key ∷ []) src s) i
  check_received-IsSingleFlight src dst key p (ok false) s idle busy used i =
      spawn-IsSingleFlight (record { object = p; src = src; dst = dst }) s idle busy used i

  idle_of_unmarked :
      (s : State D) (p : ℕ) → IsSingleFlight s → (s.heap p).processing ≡ false → flying s p ≡ 0
  idle_of_unmarked s p i unmarked = elim (Bool-cases (flying s p == 0)) [
    | inl e ↦ (==_iff (flying s p) 0).0 e
    | inr e ↦ absurd (false≢true (sym unmarked ∙ i.marked p (ground arith)))
  ]

  toggled_busy :
      (s : State D) (p : ℕ)
      → (s.heap p).processing ≡ false
      → ((modify_object p toggle_processing s).heap p).processing ≡ true
  unfolding modify_object toggle_processing
  toggled_busy s p h = ground arith

  process_to-IsSingleFlight :
      (src : Text) (source : Provider) (key : MessageKey) (p : ℕ) (dst : ChainRuntime) (s : State D)
      → p < s.next
      → IsSingleFlight s
      → IsSingleFlight (process_to env now src source key p dst s)
  unfolding process_to
  process_to-IsSingleFlight src source key p dst s used i =
      elim (Bool-cases (should_send_message now dst.provider (some (s.heap p)) source)) [
        | inl e ↦
            let unmarked : (s.heap p).processing ≡ false =
              should_send_idle now dst.provider source (s.heap p) e in
            let idle : flying s p ≡ 0 = idle_of_unmarked s p i unmarked in
            rw e (
              check_received-IsSingleFlight src _ key p (dst.provider.message_received now key)
                (modify_object p toggle_processing s) idle (toggled_busy s p unmarked) used
                (modify_object-IsSingleFlight p toggle_processing s idle i))
        | inr e ↦ rw e i
      ]

  process_message-IsSingleFlight :
      (src : Text) (source : Provider) (key : MessageKey) (p : ℕ) (s : State D)
      → p < s.next
      → IsSingleFlight s
      → IsSingleFlight (process_message env now src source key p s)
  unfolding process_message
  process_message-IsSingleFlight src source key p s used i =
      elim (Result-cases (find_chain_runtime s (s.heap p).message.dst)) [
        | inl (dst, e) ↦
            rw (e, process_message) (process_to-IsSingleFlight src source key p dst s used i)
        | inr (x, e) ↦
            rw (e, process_message)
              (Grows-IsSingleFlight (clear_messages-Grows env (key ∷ []) src s) i)
      ]

  process_to_next :
      (src : Text) (source : Provider) (key : MessageKey) (p : ℕ) (dst : ChainRuntime) (s : State D)
      → s.next ≤ (process_to env now src source key p dst s).next
  unfolding process_to
  process_to_next src source key p dst s =
      elim (Bool-cases (should_send_message now dst.provider (some (s.heap p)) source)) [
        | inl e ↦ rw e (
            received_next _ (dst.provider.message_received now key)
              (modify_object p toggle_processing s))
        | inr e ↦ rw e (omega arith)
      ]
    where
      received_next :
          (to : Text) (r : Result Bool) (t : State D)
          → t.next ≤ (check_received env now src to key p r t).next
      received_next to (err e) t = omega arith
      received_next to (ok true) t = (clear_messages-Grows env (key ∷ []) src t).next
      received_next to (ok false) t = omega arith

  process_message_next :
      (src : Text) (source : Provider) (key : MessageKey) (p : ℕ) (s : State D)
      → s.next ≤ (process_message env now src source key p s).next
  unfolding process_message
  process_message_next src source key p s =
      elim (Result-cases (find_chain_runtime s (s.heap p).message.dst)) [
        | inl (dst, e) ↦ rw (e, process_message) (process_to_next src source key p dst s)
        | inr (x, e) ↦ rw (e, process_message) (clear_messages-Grows env (key ∷ []) src s).next
      ]

  -- The invariant and the room for the pointers that the loop has yet to visit.
  abbrev KeptFrom : ℕ → State D → Type 0
  KeptFrom n t = IsSingleFlight t × (n ≤ t.next)

  process_cache-Kept :
      (src : Text) (source : Provider) (m : MessageCache) (n : ℕ) (s : State D)
      → PointsBelow n m
      → KeptFrom n s
      → KeptFrom n (process_cache env now src source m s)
  unfolding process_cache
  process_cache-Kept src source [] n s b k = k
  process_cache-Kept src source ((key, p) ∷ rest) n s b k =
      process_cache-Kept src source rest n _ b.1 (
        process_message-IsSingleFlight src source key p s (omega (arith, b.0, k.1)) k.0,
        omega (arith, process_message_next src source key p s, k.1),
      )

  process_chains-Kept :
      (cs : TextMap ChainRuntime) (n : ℕ) (s : State D)
      → CachedBelow n cs
      → KeptFrom n s
      → KeptFrom n (process_chains env now cs s)
  unfolding process_chains
  process_chains-Kept [] n s b k = k
  process_chains-Kept ((nid, c) ∷ cs) n s b k =
      process_chains-Kept cs n _ b.1 (process_cache-Kept nid c.provider c.message_cache n s b.0 k)

  pub process_messages-IsSingleFlight :
      (s : State D) → IsSingleFlight s → IsSingleFlight (process_messages env now s)
  unfolding process_messages
  process_messages-IsSingleFlight s i =
      (process_chains-Kept s.chains s.next s i.cached (i, omega arith)).0
