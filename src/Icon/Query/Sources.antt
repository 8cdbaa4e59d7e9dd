-- ===== src/Icon/Query/Sources.antt =====
-- Which logs of ICON a message is generated from, for each signature
-- (relayer/chains/icon/query.go).
use centralized_relay.Common.{
  ℕ, ◌≡◌, refl, subst, Option, none, some, Text, Bool, true, false, text_eq, text_eq_sound, ◌⊎◌,
  inl, inr, Bool-cases, Run, returns, fails, lift, at, >>!-returns, >>!-gives, not, ◌||◌, ◌==◌,
  length, panics,
}
use centralized_relay.Types.Message.{Message}
use centralized_relay.Types.Contracts.{TextMap, EventMap, xcall_contract, connection_contract}
use centralized_relay.Types.EventMaps.{value_at}
use centralized_relay.Icon.Types.{big_int, hex_bytes_value}
use centralized_relay.Icon.Events.{
  EventLog, emit_message_sig, call_message_sig, rollback_message_sig,
}
use centralized_relay.Icon.Events.Shapes.{IsEmit, IsCall, IsRollback}
use centralized_relay.Icon.Query.{
  is_other, or_skip, generate_emit, generate_call, generate_rollback,
}

or_skip-gives :
    {A : Type 0} {P : Type 0} (r : Run A) (f : A → Run (Option Message)) (m : Message)
    → or_skip r f ≡ returns (some m)
    → ((a : A) → r ≡ returns a → f a ≡ returns (some m) → P)
    → P
or_skip-gives (returns a) f m h k = k a refl h
or_skip-gives (fails e) f m h k = absurd (cc)
or_skip-gives panics f m h k = absurd (cc)

returned-some : {m n : Message} → returns (some m) ≡ returns (some n) → m ≡ n
returned-some h = cc

pub none-ne : {m : Message} → returns none ≡ returns (some m) → ⊥
none-ne h = cc

-- The test for another log fails: the address is the expected one.
first_of : (a b c : Bool) → ((not a || not b) || c) ≡ false → a ≡ true
first_of true b c h = refl
first_of false b c h = absurd (cc)

pair_first : (a b : Bool) → (not a || not b) ≡ false → a ≡ true
pair_first true b h = refl
pair_first false b h = absurd (cc)

module _ (nid : Text) (addresses : TextMap Text) (contracts : TextMap EventMap) where
  -- The message is read from a log of the contract that the configuration names for its signature.
  abbrev pub IsEventOf : Text → ℕ → EventLog → Message → Type 0
  IsEventOf src height e m =
      ((at e.indexed 0 ≡ returns emit_message_sig)
        × ((e.addr ≡ value_at connection_contract addresses) × IsEmit src contracts height e m))
      ⊎ (((at e.indexed 0 ≡ returns call_message_sig)
            × ((e.addr ≡ value_at xcall_contract addresses) × IsCall nid contracts height e m))
          ⊎ ((at e.indexed 0 ≡ returns rollback_message_sig)
              × ((e.addr ≡ value_at xcall_contract addresses)
                  × IsRollback nid contracts height e m)))

  pub generate_emit-IsEmit :
      (new : ℕ) (src : Text) (height : ℕ) (sig : Text) (e : EventLog) (m : Message)
      → generate_emit nid addresses contracts new src height sig e ≡ returns (some m)
      → (e.addr ≡ value_at connection_contract addresses) × IsEmit src contracts height e m
  unfolding generate_emit
  generate_emit-IsEmit new src height sig e m h =
      elim (Bool-cases
        (is_other (value_at connection_contract addresses) 3 e || not (length e.contents == 1))) [
          | inl t ↦ absurd (none-ne (rw (t, generate_emit) at h))
          | inr t ↦ (
            text_eq_sound e.addr (value_at connection_contract addresses) (
                first_of (text_eq e.addr (value_at connection_contract addresses))
                  (length e.indexed == 3) (not (length e.contents == 1)) t),
            >>!-gives (at e.indexed 1) _ (some m) (rw (t, generate_emit) at h) (λ dst p1 h1.
                >>!-gives (at e.indexed 2) _ (some m) h1 (λ raw_sn p2 h2.
                  or_skip-gives (lift (big_int raw_sn)) _ m h2 (λ sn p3 h3.
                    >>!-gives (at e.contents 0) _ (some m) h3 (λ raw p4 h4.
                      or_skip-gives (hex_bytes_value raw) _ m h4 (λ contents p5 h5.
                        subst (IsEmit src contracts height e) (returned-some h5) (record {
                          src = refl;
                          dst = p1;
                          number = >>!-returns _ _ _ _ p2 p3;
                          bytes = >>!-returns _ _ _ _ p4 p5;
                          at_height = refl;
                        })))))),
          )
        ]

  pub generate_call-IsCall :
      (new height : ℕ) (sig : Text) (e : EventLog) (m : Message)
      → generate_call nid addresses contracts new height sig e ≡ returns (some m)
      → (e.addr ≡ value_at xcall_contract addresses) × IsCall nid contracts height e m
  unfolding generate_call
  generate_call-IsCall new height sig e m h =
      elim (Bool-cases
        (is_other (value_at xcall_contract addresses) 4 e || not (length e.contents == 2))) [
          | inl t ↦ absurd (none-ne (rw (t, generate_call) at h))
          | inr t ↦ (
            text_eq_sound e.addr (value_at xcall_contract addresses) (
                first_of (text_eq e.addr (value_at xcall_contract addresses))
                  (length e.indexed == 4) (not (length e.contents == 2)) t),
            >>!-gives (at e.indexed 1) _ (some m) (rw (t, generate_call) at h) (λ from p1 h1.
                >>!-gives (at e.indexed 3) _ (some m) h1 (λ raw_sn p2 h2.
                  >>!-gives (lift (big_int raw_sn)) _ (some m) h2 (λ sn p3 h3.
                    >>!-gives (at e.contents 0) _ (some m) h3 (λ raw_req p4 h4.
                      >>!-gives (lift (big_int raw_req)) _ (some m) h4 (λ req_id p5 h5.
                        >>!-gives (at e.contents 1) _ (some m) h5 (λ raw p6 h6.
                          or_skip-gives (hex_bytes_value raw) _ m h6 (λ contents p7 h7.
                            subst (IsCall nid contracts height e) (returned-some h7) (record {
                              dst = refl;
                              src = (from, p1, refl);
                              number = >>!-returns _ _ _ _ p2 p3;
                              request = (req_id, >>!-returns _ _ _ _ p4 p5, refl);
                              bytes = >>!-returns _ _ _ _ p6 p7;
                              at_height = refl;
                            })))))))),
          )
        ]

  pub generate_rollback-IsRollback :
      (new height : ℕ) (sig : Text) (e : EventLog) (m : Message)
      → generate_rollback nid addresses contracts new height sig e ≡ returns (some m)
      → (e.addr ≡ value_at xcall_contract addresses) × IsRollback nid contracts height e m
  unfolding generate_rollback
  generate_rollback-IsRollback new height sig e m h =
      elim (Bool-cases (is_other (value_at xcall_contract addresses) 2 e)) [
        | inl t ↦ absurd (none-ne (rw (t, generate_rollback) at h))
        | inr t ↦ (
          text_eq_sound e.addr (value_at xcall_contract addresses) (
              pair_first (text_eq e.addr (value_at xcall_contract addresses))
                (length e.indexed == 2) t),
          >>!-gives (at e.indexed 1) _ (some m) (rw (t, generate_rollback) at h) (λ raw_sn p1 h1.
              >>!-gives (lift (big_int raw_sn)) _ (some m) h1 (λ sn p2 h2.
                subst (IsRollback nid contracts height e) (returned-some h2) (record {
                  src = refl;
                  dst = refl;
                  number = >>!-returns _ _ _ _ p1 p2;
                  bytes = refl;
                  at_height = refl;
                }))),
        )
      ]
