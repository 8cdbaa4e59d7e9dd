-- ===== src/Relayer/Flight/Routing.antt =====
-- The beginning and the end of RouteMessage in relayer/relay.go, for the invariant.
use centralized_relay.Common.{
  ℕ, zero, suc, ◌≤◌, ◌≡◌, refl, ◌∙◌, ap, List, [], ◌∷◌, ◌++◌, Text, some, if◌then◌else◌, Result, ok,
  err, Option-cases, Bool-cases, inl, inr, ◌==◌, ==_iff, leb, arith,
}
use centralized_relay.Types.Retry.{toggle_processing, increment_retry, add_next_try, max_tx_retry}
use centralized_relay.Types.Contracts.{lookup}
use centralized_relay.Runtime.{ChainRuntime}
use centralized_relay.Store.Messages.{store_message}
use centralized_relay.Relayer.State.{Env, State, Task, modify_object, prefix_message_store}
use centralized_relay.Relayer.Route.{
  RouteOutcome, take_task, begin_route, end_route, finish_route, handle_message_failed, callbacks,
}
use centralized_relay.Relayer.Flight.{count, flying, IsSingleFlight}
use centralized_relay.Relayer.Flight.Grows.{Grows, Grows-IsSingleFlight, Grows-flying}
use centralized_relay.Relayer.Flight.Checks.{callbacks-Grows, drop_failed-Grows}
use centralized_relay.Relayer.Flight.Process.{count-append, modify_object-IsSingleFlight}

-- A state with no more goroutines for any object, and the same marks and caches.
fewer-IsSingleFlight :
    {D : Type 0} (s t : State D)
    → ((p : ℕ) → flying t p ≤ flying s p)
    → ((p : ℕ) → (t.heap p).processing ≡ (s.heap p).processing)
    → t.next ≡ s.next
    → t.chains ≡ s.chains
    → IsSingleFlight s
    → IsSingleFlight t
fewer-IsSingleFlight s t fewer marks next chains i = record {
  single = λ p. omega (arith, fewer p, i.single p);
  marked = λ p h. marks p ∙ i.marked p (omega (arith, fewer p));
  below = λ p h. omega (arith, i.below p (omega (arith, fewer p)), next);
  cached = rw (next, chains) i.cached;
}

module _ {D : Type 0} (env : Env D) (now : ℕ) where
  count-take_task :
      (n : ℕ) (ts us : List Task) (t : Task) (p : ℕ)
      → take_task env now n ts ≡ some (t, us)
      → count p ts ≡ (if t.object == p then suc (count p us) else count p us)
  unfolding take_task count
  count-take_task n [] us t p e = cc
  count-take_task zero (x ∷ ts) us t p e = ground arith
  count-take_task (suc n) (x ∷ ts) us t p e = elim (Option-cases (take_task env now n ts)) [
    | inl h ↦ absurd (ground arith)
    | inr ((u, vs), h) ↦ ground (arith, count-take_task n ts vs u p h)
  ]

  begun-IsSingleFlight :
      (s : State D) (t : Task) (ts : List Task)
      → ((p : ℕ) → count p s.spawned ≡ (if t.object == p then suc (count p ts) else count p ts))
      → IsSingleFlight s
      → IsSingleFlight (
          modify_object t.object
            (increment_retry now)
            (record s { spawned = ts; routing = s.routing ++ t ∷ [] }))
  unfolding modify_object increment_retry add_next_try count
  begun-IsSingleFlight s t ts counts i =
      fewer-IsSingleFlight s _ (λ p. ground (arith, counts p, count-append p s.routing (t ∷ [])))
        (λ p. ground (arith, ==_iff t.object p, ap s.heap {x = t.object} {y = p})) refl refl i

  pub begin_route-IsSingleFlight :
      (n : ℕ) (s : State D) → IsSingleFlight s → IsSingleFlight (begin_route env now n s)
  unfolding begin_route
  begin_route-IsSingleFlight n s i = elim (Option-cases (take_task env now n s.spawned)) [
    | inl e ↦ rw (e, begin_route) i
    | inr ((t, ts), e) ↦
        rw (e, begin_route)
          (begun-IsSingleFlight s t ts (λ p. count-take_task n s.spawned ts t p e) i)
  ]

  handle_message_failed-IsSingleFlight :
      (p : ℕ) (src : Text) (s : State D)
      → flying s p ≡ 0
      → IsSingleFlight s
      → IsSingleFlight (handle_message_failed env now p src s)
  unfolding handle_message_failed
  handle_message_failed-IsSingleFlight p src s idle i =
      let t : State D = modify_object p toggle_processing s in
      let j : IsSingleFlight t = modify_object-IsSingleFlight p toggle_processing s idle i in
      elim (Bool-cases (leb max_tx_retry (t.heap p).retry)) [
        | inl e ↦ rw e (
            Grows-IsSingleFlight
              (drop_failed-Grows env now src (t.heap p)
                (store_message env.store env.messages prefix_message_store t.disk (some (t.heap p)))
                t)
              j)
        | inr e ↦ rw e j
      ]

  finished-IsSingleFlight :
      (s : State D) (t : Task) (ts : List Task) (out : RouteOutcome) (dst : ChainRuntime)
      → ((p : ℕ) → count p s.routing ≡ (if t.object == p then suc (count p ts) else count p ts))
      → IsSingleFlight s
      → IsSingleFlight (
          end_route env now t out.returned
            (callbacks env now t.src dst out.calls (record s { routing = ts })))
  unfolding end_route
  finished-IsSingleFlight s t ts out dst counts i = ended out.returned
    where
      left : State D
      left = record s { routing = ts }

      kept : IsSingleFlight left
      kept = fewer-IsSingleFlight s left (λ p. ground (arith, counts p)) (λ p. refl) refl refl i

      idle : flying left t.object ≡ 0
      idle = ground (arith, counts t.object, i.single t.object)

      grows : Grows left (callbacks env now t.src dst out.calls left)
      grows = callbacks-Grows env now t.src dst out.calls left

      ended :
          (r : Result (Unit {0}))
          → IsSingleFlight (end_route env now t r (callbacks env now t.src dst out.calls left))
      ended (ok u) = Grows-IsSingleFlight grows kept
      ended (err e) =
          handle_message_failed-IsSingleFlight t.object t.src _ (Grows-flying grows t.object ∙ idle)
            (Grows-IsSingleFlight grows kept)

  pub finish_route-IsSingleFlight :
      (n : ℕ) (out : RouteOutcome) (s : State D)
      → IsSingleFlight s
      → IsSingleFlight (finish_route env now n out s)
  unfolding finish_route
  finish_route-IsSingleFlight n out s i = elim (Option-cases (take_task env now n s.routing)) [
    | inl e ↦ rw (e, finish_route) i
    | inr ((t, ts), e) ↦ elim (Option-cases (lookup t.dst s.chains)) [
      | inl f ↦ rw (e, f, finish_route) i
      | inr (dst, f) ↦
          rw (e, f, finish_route)
            (finished-IsSingleFlight s t ts out dst (λ p. count-take_task n s.routing ts t p e) i)
    ]
  ]
