-- ===== src/Evm/Logs/Laws.antt =====
-- What the messages of an EVM block look like (relayer/chains/evm/event_parse.go and query.go).
use centralized_relay.Common.{
  ◌≡◌, refl, ap, ◌∙◌, subst, List, [], ◌∷◌, Text, text_eq, text_eq_sound, unknown_topic,
  topic_length_mismatch, Result, ok, err, ◌>>=◌, Bool-cases, inl, inr, ◌⊎◌,
}
use centralized_relay.Types.Message.{Message, MessageKeyWithMessageHeight}
use centralized_relay.Types.Contracts.{TextMap, EventMap}
use centralized_relay.Evm.Logs.{
  EvmClient, Log, parse_topic, get_relay_message_from_log, find_messages, generate_messages,
  emit_message_sig, call_message_sig, rollback_message_sig,
}

-- What holds of the value of a chain of results that succeeds.
bound :
    {A : Type 0} (P : Message → Type 0) (r : Result A) (f : A → Message) (m : Message)
    → (r >>= λ a. ok (f a)) ≡ ok m
    → ((a : A) → P (f a))
    → P m
bound P (ok a) f m e h = subst P (cc) (h a)
bound P (err x) f m e h = cc

module _ (client : EvmClient) (nid : Text) (contracts : TextMap EventMap) where
  -- The message comes from the chain, at the height of the log; unless the log's topic is the one
  -- of the connection contract, it also goes there.
  pub record IsFrom (l : Log) (m : Message) : Type 0 where
    pub src : m.src ≡ nid
    pub height : m.message_height ≡ l.block_number
    pub dst :
        (m.dst ≡ nid) ⊎ ((rest : List Text) × (l.topics ≡ client.keccak emit_message_sig ∷ rest))

  parse_topic-IsFrom :
      (topic : Text) (rest : List Text) (l : Log) (m : Message)
      → l.topics ≡ topic ∷ rest
      → parse_topic client nid contracts topic l ≡ ok m
      → IsFrom l m
  unfolding parse_topic
  parse_topic-IsFrom topic rest l m t e =
      elim (Bool-cases (text_eq topic (client.keccak emit_message_sig))) [
        | inl h ↦
            bound (IsFrom l) (client.parse_connection_message l) _ m (rw (h, parse_topic) at e)
              (λ a. record {
                src = refl;
                height = refl;
                dst = inr (
                  rest,
                  t ∙ ap (λ x. x ∷ rest) (text_eq_sound topic (client.keccak emit_message_sig) h),
                );
              })
        | inr h ↦ elim (Bool-cases (text_eq topic (client.keccak call_message_sig))) [
          | inl i ↦
              bound (IsFrom l) (client.parse_call_message l) _ m (rw (h, i, parse_topic) at e)
                (λ a. record { src = refl; height = refl; dst = inl refl })
          | inr i ↦ elim (Bool-cases (text_eq topic (client.keccak rollback_message_sig))) [
            | inl j ↦
                bound (IsFrom l) (client.parse_rollback_message l) _ m
                  (rw (h, i, j, parse_topic) at e)
                  (λ a. record { src = refl; height = refl; dst = inl refl })
            | inr j ↦ unparsed (rw (h, i, j, parse_topic) at e)
          ]
        ]
      ]
    where
      failed : Result Message
      failed = err unknown_topic

      unparsed : failed ≡ ok m → IsFrom l m
      unparsed h = cc

  get_relay_message-IsFrom :
      (l : Log) (m : Message)
      → get_relay_message_from_log client nid contracts l ≡ ok m
      → IsFrom l m
  unfolding get_relay_message_from_log
  get_relay_message-IsFrom l m e = split l.topics refl
    where
      no_topic : Result Message
      no_topic = err topic_length_mismatch

      absent : no_topic ≡ ok m → IsFrom l m
      absent h = cc

      split : (ts : List Text) → l.topics ≡ ts → IsFrom l m
      split [] t = absent (rw (t, get_relay_message_from_log) at e)
      split (topic ∷ rest) t =
          parse_topic-IsFrom topic rest l m t (rw (t, get_relay_message_from_log) at e)

  -- There is one message for each log, in the order of the logs.
  abbrev pub Matches : List Log → List Message → Type 0
  Matches [] [] = Unit
  Matches [] (m ∷ ms) = ⊥
  Matches (l ∷ ls) [] = ⊥
  Matches (l ∷ ls) (m ∷ ms) = IsFrom l m × Matches ls ms

  cons_ok :
      (l : Log) (ls : List Log) (r : Result Message) (rest : Result (List Message))
      (ms : List Message)
      → (r >>= λ m. rest >>= λ tail. ok (m ∷ tail)) ≡ ok ms
      → ((m : Message) → r ≡ ok m → IsFrom l m)
      → ((tail : List Message) → rest ≡ ok tail → Matches ls tail)
      → Matches (l ∷ ls) ms
  cons_ok l ls (err x) rest ms e h k = absurd (cc)
  cons_ok l ls (ok m) (err x) ms e h k = absurd (cc)
  cons_ok l ls (ok m) (ok tail) ms e h k =
      let same : m ∷ tail ≡ ms = cc in subst (Matches (l ∷ ls)) same (h m refl, k tail refl)

  find_messages-Matches :
      (ls : List Log) (ms : List Message)
      → find_messages client nid contracts ls ≡ ok ms
      → Matches ls ms
  unfolding find_messages
  find_messages-Matches [] ms e = let same : [] ≡ ms = cc in subst (Matches []) same tt
  find_messages-Matches (l ∷ ls) ms e =
      cons_ok l ls _ _ ms e (get_relay_message-IsFrom l) (find_messages-Matches ls)

  generated_ok :
      (header : Result Text) (logs : Result (List Log)) (ms : List Message)
      → (header >>= λ x. logs >>= λ ls. find_messages client nid contracts ls) ≡ ok ms
      → (ls : List Log) × (logs ≡ ok ls) × Matches ls ms
  generated_ok (err x) logs ms e = absurd (cc)
  generated_ok (ok x) (err y) ms e = absurd (cc)
  generated_ok (ok x) (ok ls) ms e = (ls, refl, find_messages-Matches ls ms e)

  -- When the messages at a height can be generated, they are one for each log that the node returns
  -- for that height, in order; each comes from the chain and has the height of its log, and each
  -- that is no message of the connection contract also goes to the chain.
  pub generate_messages-Matches :
      (key : MessageKeyWithMessageHeight) (ms : List Message)
      → generate_messages client nid contracts key ≡ ok ms
      → (ls : List Log) × (client.filter_logs key.height key.height ≡ ok ls) × Matches ls ms
  unfolding generate_messages
  generate_messages-Matches key ms e =
      generated_ok (client.header_by_height key.height) (client.filter_logs key.height key.height)
        ms e
