-- ===== src/Relayer/Process/Dispatch.antt =====
-- When `processMessages` of relayer/relay.go hands a message to a routing goroutine, and what it
-- leaves behind when it does not.
use mathlib.Core.Path.{fun_ext}
use centralized_relay.Common.{
  ℕ, ◌<◌, ◌≡◌, ◌≢◌, ◌⊎◌, refl, ap, Bool, true, false, [], ◌∷◌, ◌++◌, Text, some, Result, Error, ok,
  err, Result-cases, Bool-cases, inl, inr, ==_iff, arith,
}
use centralized_relay.Types.Message.{MessageKey, RouteMessage}
use centralized_relay.Types.Retry.{toggle_processing, is_processing}
use centralized_relay.Provider.{Provider}
use centralized_relay.Runtime.{ChainRuntime, should_send_message, agrees}
use centralized_relay.Relayer.State.{Env, State, modify_object, find_chain_runtime, assign}
use centralized_relay.Relayer.Process.{check_received, process_to, process_message}
use centralized_relay.Relayer.Flight.Quiet.{clear_messages-Grows}

-- A message is sent if its destination is known, nobody is working on it, its backoff is over, the
-- destination takes it, the source may send it, and the destination does not have it yet.
pub record IsDispatchable {D : Type 0} (now : ℕ) (source : Provider) (key : MessageKey) (p : ℕ)
    (s : State D) : Type 0 where
  pub dst : ChainRuntime
  pub found : find_chain_runtime s (s.heap p).message.dst ≡ ok dst
  pub idle : (s.heap p).processing ≡ false
  pub due : ((s.heap p).last_try ≡ 0) ⊎ ((s.heap p).last_try < now)
  pub receives : dst.provider.should_receive_message now (s.heap p).message ≡ ok true
  pub sends : source.should_send_message now (s.heap p).message ≡ ok true
  pub missing : dst.provider.message_received now key ≡ ok false

agrees-true : (r : Result Bool) → agrees r ≡ true → r ≡ ok true
unfolding agrees
agrees-true (ok b) h = ap ok h
agrees-true (err e) h = cc

-- The tests of `shouldSendMessage`, read in both directions.
pub record Passes (now : ℕ) (dst source : Provider) (r : RouteMessage) : Type 0 where
  pub idle : r.processing ≡ false
  pub due : (r.last_try ≡ 0) ⊎ (r.last_try < now)
  pub receives : dst.should_receive_message now r.message ≡ ok true
  pub sends : source.should_send_message now r.message ≡ ok true

should_send_sound :
    (now : ℕ) (dst source : Provider) (r : RouteMessage)
    → should_send_message now dst (some r) source ≡ true
    → Passes now dst source r
unfolding should_send_message is_processing
should_send_sound now dst source r h = record {
  idle = ground arith;
  due = ground arith;
  receives = agrees-true _ (ground arith);
  sends = agrees-true _ (ground arith);
}

should_send_complete :
    (now : ℕ) (dst source : Provider) (r : RouteMessage)
    → Passes now dst source r
    → should_send_message now dst (some r) source ≡ true
unfolding should_send_message is_processing agrees
should_send_complete now dst source r h = ground arith

module _ {D : Type 0} (env : Env D) (now : ℕ) (src : Text) (source : Provider) (key : MessageKey)
    (p : ℕ) (s : State D) where
  -- A message that can be sent is marked and given to one new goroutine, and nothing else changes.
  pub process_message_sends :
      IsDispatchable now source key p s
      → process_message env now src source key p s ≡ record s {
        heap = assign s.heap p (toggle_processing (s.heap p));
        spawned = s.spawned ++ record { object = p; src = src; dst = (s.heap p).message.dst } ∷ [];
      }
  unfolding process_message process_to
  process_message_sends d =
      rw (d.found, process_message)
        (rw
          (
            should_send_complete now d.dst.provider source (s.heap p)
                (record { idle = d.idle; due = d.due; receives = d.receives; sends = d.sends }),
            process_to,
          )
          (rw (d.missing, check_received)))

  sent_to :
      (dst : ChainRuntime)
      → find_chain_runtime s (s.heap p).message.dst ≡ ok dst
      → (process_to env now src source key p dst s).spawned ≢ s.spawned
      → IsDispatchable now source key p s
  unfolding process_to
  sent_to dst found h =
      elim (Bool-cases (should_send_message now dst.provider (some (s.heap p)) source)) [
        | inl e ↦
            let t = should_send_sound now dst.provider source (s.heap p) e in
            record {
              dst = dst;
              found = found;
              idle = t.idle;
              due = t.due;
              receives = t.receives;
              sends = t.sends;
              missing = asked (dst.provider.message_received now key) (rw e at h);
            }
        | inr e ↦ absurd ((rw e at h) refl)
      ]
    where
      asked :
          (r : Result Bool)
          → (check_received env now src
              (s.heap p).message.dst
              key
              p
              r
              (modify_object p toggle_processing s)).spawned
            ≢ s.spawned
          → r ≡ ok false
      asked (err e) g = absurd (g refl)
      asked (ok true) g = absurd (g (clear_messages-Grows env (key ∷ []) src _).spawned)
      asked (ok false) g = refl

  -- A goroutine is started only for a message that can be sent.
  pub process_message_sent :
      (process_message env now src source key p s).spawned ≢ s.spawned
      → IsDispatchable now source key p s
  unfolding process_message
  process_message_sent h = elim (Result-cases (find_chain_runtime s (s.heap p).message.dst)) [
    | inl (dst, e) ↦ sent_to dst e (rw (e, process_message) at h)
    | inr (x, e) ↦
        absurd ((rw (e, process_message) at h) (clear_messages-Grows env (key ∷ []) src s).spawned)
  ]

  toggled_twice : modify_object p toggle_processing (modify_object p toggle_processing s) ≡ s
  unfolding modify_object toggle_processing
  toggled_twice =
      ap (λ (h : ℕ → RouteMessage). record s { heap = h })
        (fun_ext λ q. ground (arith, ==_iff p q, ap s.heap {x = p} {y = q}))

  -- When the destination cannot tell whether it has the message, everything is as it was before:
  -- the message is tried again at the next round.
  pub process_message_unknown :
      (dst : ChainRuntime) (e : Error)
      → find_chain_runtime s (s.heap p).message.dst ≡ ok dst
      → dst.provider.message_received now key ≡ err e
      → process_message env now src source key p s ≡ s
  unfolding process_message process_to
  process_message_unknown dst e found unknown =
      rw (found, process_message)
        (elim (Bool-cases (should_send_message now dst.provider (some (s.heap p)) source)) [
          | inl b ↦ rw (b, process_to) (rw (unknown, check_received) toggled_twice)
          | inr b ↦ rw (b, process_to)
        ])
