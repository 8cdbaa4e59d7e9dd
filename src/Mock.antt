-- ===== src/Mock.antt =====
-- The chain for tests: relayer/chains/mockchain/provider.go.
use centralized_relay.Common.{
  ℕ, zero, suc, ◌+◌, ◌%◌, ◌^◌, ◌≤◌, ◌<◌, ◌≡◌, refl, sym, ap, ◌∙◌, List, [], ◌∷◌, Bool, true, false,
  ℤ, pos, negsuc, ok, ◌==◌, if◌then◌else◌, arith, In, inl, inr, Bool-cases, not, ◌&&◌,
}
use centralized_relay.Types.Message.{Message, MessageKey, BlockInfo, success, message_key}
use centralized_relay.Relayer.Route.{RouteOutcome}
use centralized_relay.Relayer.Route.Contract.{IsSettled}

-- The messages that the chain sends and those that it waits for, in one of the orders in which `range`
-- may visit the maps.
pub record MockProvider : Type 0 where
  pub height : ℕ
  pub send_messages : List (MessageKey × Message)
  pub receive_messages : List (MessageKey × Message)

-- `Sn.Cmp`
abbrev pub int_eq : ℤ → ℤ → Bool
int_eq (pos m) (pos n) = m == n
int_eq (negsuc m) (negsuc n) = m == n
int_eq _ _ = false

unfoldable pub messages_at : ℕ → List (MessageKey × Message) → List Message
messages_at height [] = []
messages_at height ((key, m) ∷ rest) =
    let others = messages_at height rest in
    if m.message_height == height then m ∷ others else others

unfoldable pub mock_find_messages : MockProvider → List Message
unfolding messages_at
mock_find_messages p = messages_at p.height p.send_messages

-- The first entry with the number leaves the map.
unfoldable pub without_number : ℤ → List (MessageKey × Message) → List (MessageKey × Message)
without_number sn [] = []
without_number sn ((key, m) ∷ rest) =
    let others = without_number sn rest in
    if int_eq sn key.sn.value then rest else (key, m) ∷ others

unfoldable pub mock_delete_message : Message → MockProvider → MockProvider
unfolding without_number
mock_delete_message m p = record p {
  receive_messages = without_number m.sn.value p.receive_messages;
}

unfoldable pub mock_route : Message → MockProvider → MockProvider × RouteOutcome
unfolding mock_delete_message
mock_route m p = (
  mock_delete_message m p,
  record {
    calls = (message_key m, record { height = 0; tx_hash = []; code = success }) ∷ [];
    returned = ok tt;
  },
)

-- The start of `Listener`, and a tick of its clock: the block that is sent.
unfoldable pub mock_start : ℕ → MockProvider → MockProvider
mock_start saved p = if p.height == 0 && not (saved == 0) then record p { height = saved } else p

unfoldable pub mock_tick : MockProvider → MockProvider × BlockInfo
unfolding mock_find_messages
mock_tick p = (
  record p { height = (p.height + 1) % 2 ^ 64 },
  record { height = p.height; messages = mock_find_messages p },
)

-- The blocks that are sent over a count of ticks.
unfoldable pub mock_blocks : ℕ → MockProvider → List BlockInfo
unfolding mock_tick
mock_blocks zero p = []
mock_blocks (suc n) p = let ticked = mock_tick p in ticked.1 ∷ mock_blocks n ticked.0

pub mock_route-IsSettled : (m : Message) (p : MockProvider) → IsSettled m (mock_route m p).1
unfolding mock_route
mock_route-IsSettled m p = inr ([], tt, (_, refl, (refl, refl)))

messages_at-In :
    (m : Message) (key : MessageKey) (height : ℕ) (ms : List (MessageKey × Message))
    → In (key, m) ms
    → m.message_height ≡ height
    → In m (messages_at height ms)
unfolding messages_at
messages_at-In m key height [] i e = absurd i
messages_at-In m key height ((k, n) ∷ ms) (inl same) e =
    let eq : n ≡ m = ap (λ x. x.1) same in
    let here : (n.message_height == height) ≡ true =
      at_height (ap (λ x. x.message_height) eq ∙ e) in
    rw (here, messages_at) (inl eq)
  where
    at_height : {a b : ℕ} → a ≡ b → (a == b) ≡ true
    at_height h = ground arith
messages_at-In m key height ((k, n) ∷ ms) (inr i) e =
    elim (Bool-cases (n.message_height == height)) [
      | inl t ↦ rw (t, messages_at) (inr (messages_at-In m key height ms i e))
      | inr t ↦ rw (t, messages_at) (messages_at-In m key height ms i e)
    ]

-- Over a count of ticks every message of the chain whose height is reached is sent in a block of its
-- height.
mock_blocks_complete :
    (n : ℕ) (p : MockProvider) (m : Message) (key : MessageKey)
    → p.height + n < 2 ^ 64
    → In (key, m) p.send_messages
    → p.height ≤ m.message_height
    → m.message_height < p.height + n
    → (b : BlockInfo) × In b (mock_blocks n p) × (b.height ≡ m.message_height) × In m b.messages
unfolding mock_blocks mock_tick mock_find_messages
mock_blocks_complete zero p m key fits i low high = absurd (omega arith)
mock_blocks_complete (suc n) p m key fits i low high =
    elim (Bool-cases (m.message_height == p.height)) [
      | inl e ↦
          let now : m.message_height ≡ p.height = ground arith in
          (
            record { height = p.height; messages = messages_at p.height p.send_messages },
            inl refl,
            sym now,
            messages_at-In m key p.height p.send_messages i now,
          )
      | inr e ↦
          let next : (p.height + 1) % 2 ^ 64 ≡ p.height + 1 = omega arith in
          let (b, j, h, k) =
            mock_blocks_complete n (record p { height = (p.height + 1) % 2 ^ 64 }) m key
              (omega (arith, next)) i (ground (arith, next)) (omega (arith, next)) in
          (b, inr j, h, k)
    ]
