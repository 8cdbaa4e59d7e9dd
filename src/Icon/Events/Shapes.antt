-- ===== src/Icon/Events/Shapes.antt =====
-- What the message of one ICON log looks like, for each signature
-- (relayer/chains/icon/event_parse.go).
use centralized_relay.Common.{
  ℕ, ◌≡◌, refl, subst, List, [], none, some, Text, ℤ, inl, inr, Bool-cases, Run, returns, ◌>>!◌,
  lift, at, >>!-returns, >>!-gives, fails-ne, not, ◌==◌, length, unexpected_event_shape,
}
use centralized_relay.Types.Message.{Message}
use centralized_relay.Types.Contracts.{TextMap, EventMap}
use centralized_relay.Types.EventMaps.{get_event_name}
use centralized_relay.Icon.Types.{big_int, hex_bytes_value}
use centralized_relay.Icon.Events.{
  EventLog, before_slash, is_misshapen, parse_emit_message_event, parse_call_message_event,
  parse_rollback_message_event,
}

-- The integer at a place of a list of texts, and the bytes there.
abbrev pub number_at : List Text → ℕ → Run ℤ
number_at xs n = at xs n >>! λ raw. lift (big_int raw)

abbrev pub bytes_at : List Text → ℕ → Run Text
bytes_at xs n = at xs n >>! λ raw. hex_bytes_value raw

module _ (nid : Text) (contracts : TextMap EventMap) (height : ℕ) where
  pub record IsEmit (e : EventLog) (m : Message) : Type 0 where
    pub src : m.src ≡ nid
    pub dst : at e.indexed 1 ≡ returns m.dst
    pub number : number_at e.indexed 2 ≡ returns m.sn.value
    pub bytes : bytes_at e.contents 0 ≡ returns m.bytes
    pub at_height : m.message_height ≡ height

  pub record IsCall (e : EventLog) (m : Message) : Type 0 where
    pub dst : m.dst ≡ nid
    pub src : (from : Text) × (at e.indexed 1 ≡ returns from) × (m.src ≡ before_slash from)
    pub number : number_at e.indexed 3 ≡ returns m.sn.value
    pub request : (r : ℤ) × (number_at e.contents 0 ≡ returns r) × (m.req_id ≡ some r)
    pub bytes : bytes_at e.contents 1 ≡ returns m.bytes
    pub at_height : m.message_height ≡ height

  pub record IsRollback (e : EventLog) (m : Message) : Type 0 where
    pub src : m.src ≡ nid
    pub dst : m.dst ≡ nid
    pub number : number_at e.indexed 1 ≡ returns m.sn.value
    pub bytes : m.bytes ≡ []
    pub at_height : m.message_height ≡ height

  pub parse_emit_message_event-IsEmit :
      (new : ℕ) (e : EventLog) (m : Message)
      → parse_emit_message_event nid contracts new height e ≡ returns m
      → IsEmit e m
  unfolding parse_emit_message_event
  parse_emit_message_event-IsEmit new e m h = elim (Bool-cases (is_misshapen 3 1 e)) [
    | inl t ↦ absurd (fails-ne unexpected_event_shape m (rw (t, parse_emit_message_event) at h))
    | inr t ↦ >>!-gives (at e.indexed 1) _ m (rw (t, parse_emit_message_event) at h) (λ dst p1 h1.
        >>!-gives (at e.indexed 2) _ m h1 (λ raw_sn p2 h2.
          >>!-gives (lift (big_int raw_sn)) _ m h2 (λ sn p3 h3.
            >>!-gives (at e.contents 0) _ m h3 (λ raw p4 h4.
              >>!-gives (hex_bytes_value raw) _ m h4 (λ contents p5 h5.
                >>!-gives (at e.indexed 0) _ m h5 (λ sig p6 h6.
                  let made : Message = record {
                    dst = dst;
                    src = nid;
                    sn = record { addr = new; value = sn };
                    bytes = contents;
                    message_height = height;
                    event_type = get_event_name contracts sig;
                    req_id = none;
                  } in
                  let same : made ≡ m = cc in
                  subst (IsEmit e) same (record {
                    src = refl;
                    dst = p1;
                    number = >>!-returns _ _ _ _ p2 p3;
                    bytes = >>!-returns _ _ _ _ p4 p5;
                    at_height = refl;
                  })))))))
  ]

  pub parse_call_message_event-IsCall :
      (new : ℕ) (e : EventLog) (m : Message)
      → parse_call_message_event nid contracts new height e ≡ returns m
      → IsCall e m
  unfolding parse_call_message_event
  parse_call_message_event-IsCall new e m h = elim (Bool-cases (is_misshapen 4 2 e)) [
    | inl t ↦ absurd (fails-ne unexpected_event_shape m (rw (t, parse_call_message_event) at h))
    | inr t ↦ >>!-gives (at e.indexed 1) _ m (rw (t, parse_call_message_event) at h) (λ from p1 h1.
        >>!-gives (at e.indexed 3) _ m h1 (λ raw_sn p2 h2.
          >>!-gives (lift (big_int raw_sn)) _ m h2 (λ sn p3 h3.
            >>!-gives (at e.contents 0) _ m h3 (λ raw_req p4 h4.
              >>!-gives (lift (big_int raw_req)) _ m h4 (λ req_id p5 h5.
                >>!-gives (at e.contents 1) _ m h5 (λ raw p6 h6.
                  >>!-gives (hex_bytes_value raw) _ m h6 (λ contents p7 h7.
                    >>!-gives (at e.indexed 0) _ m h7 (λ sig p8 h8.
                      let made : Message = record {
                        dst = nid;
                        src = before_slash from;
                        sn = record { addr = new; value = sn };
                        bytes = contents;
                        message_height = height;
                        event_type = get_event_name contracts sig;
                        req_id = some req_id;
                      } in
                      let same : made ≡ m = cc in
                      subst (IsCall e) same (record {
                        dst = refl;
                        src = (from, p1, refl);
                        number = >>!-returns _ _ _ _ p2 p3;
                        request = (req_id, >>!-returns _ _ _ _ p4 p5, refl);
                        bytes = >>!-returns _ _ _ _ p6 p7;
                        at_height = refl;
                      })))))))))
  ]

  pub parse_rollback_message_event-IsRollback :
      (new : ℕ) (e : EventLog) (m : Message)
      → parse_rollback_message_event nid contracts new height e ≡ returns m
      → IsRollback e m
  unfolding parse_rollback_message_event
  parse_rollback_message_event-IsRollback new e m h =
      elim (Bool-cases (not (length e.indexed == 2))) [
        | inl t ↦
            absurd (fails-ne unexpected_event_shape m (rw (t, parse_rollback_message_event) at h))
        | inr t ↦
            >>!-gives (at e.indexed 1) _ m (rw (t, parse_rollback_message_event) at h)
              (λ raw_sn p1 h1. >>!-gives (lift (big_int raw_sn)) _ m h1 (λ sn p2 h2.
                >>!-gives (at e.indexed 0) _ m h2 (λ sig p3 h3.
                  let made : Message = record {
                    dst = nid;
                    src = nid;
                    sn = record { addr = new; value = sn };
                    bytes = [];
                    message_height = height;
                    event_type = get_event_name contracts sig;
                    req_id = none;
                  } in
                  let same : made ≡ m = cc in
                  subst (IsRollback e) same (record {
                    src = refl;
                    dst = refl;
                    number = >>!-returns _ _ _ _ p1 p2;
                    bytes = refl;
                    at_height = refl;
                  }))))
      ]
