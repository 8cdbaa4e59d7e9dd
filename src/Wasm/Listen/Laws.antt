-- ===== src/Wasm/Listen/Laws.antt =====
-- What the listener of relayer/chains/wasm/provider.go asks for, and what its subscriptions send.
use centralized_relay.Common.{
  ℕ, ◌≤◌, ◌<◌, ◌≡◌, refl, sym, ap, subst, List, [], ◌∷◌, ◌++◌, Option, none, some, Text, Result,
  Run, returns, panics, >>!-gives, returns_injective, lift, All, In, ◌⊎◌,
}
use centralized_relay.Types.Message.{Message, BlockInfo}
use centralized_relay.Types.Contracts.{TextMap, EventMap}
use centralized_relay.Wasm.Events.{Event, Draft, parse_message_from_events, complete}
use centralized_relay.Wasm.Heights.{Found, get_height_stream, complete_all}
use centralized_relay.Wasm.Heights.Laws.{Reported}
use centralized_relay.Wasm.Listen.{subscriptions, Listening, on_subscribed}

module _ (nid : Text) (search : Text → Option ℕ → Result Found) (filters : List Event) where
  complete-height :
      (height : ℕ) (d : Draft) (m : Message)
      → complete height d ≡ returns m
      → m.message_height ≡ height
  unfolding complete
  complete-height height d m h = split d.sn refl
    where
      none_given : Run Message
      none_given = panics

      split :
          (o : Option centralized_relay.Types.Message.BigInt) → d.sn ≡ o → m.message_height ≡ height
      split none e = absurd (differ (rw (e, complete) at h))
        where
          differ : none_given ≡ returns m → ⊥
          differ g = cc
      split (some sn) e =
          ap (λ x. x.message_height) (sym (returns_injective (rw (e, complete) at h)))

  complete_all-height :
      (height : ℕ) (ds : List Draft) (ms : List Message)
      → complete_all nid search height ds ≡ returns ms
      → All (λ m. m.message_height ≡ height) ms
  unfolding complete_all
  complete_all-height height [] ms h =
      subst (All (λ m. m.message_height ≡ height)) (returns_injective h) tt
  complete_all-height height (d ∷ ds) ms h = >>!-gives (complete height d) _ ms h (λ m p g.
      >>!-gives (complete_all nid search height ds) _ ms g (λ rest q k.
        subst (All (λ m. m.message_height ≡ height)) (returns_injective k)
          (complete-height height d m p, complete_all-height height ds rest q)))

  -- A block that a subscription sends has the height of its transaction, and every message in it has
  -- the height 0.
  on_subscribed_heights :
      (new height : ℕ) (events : List Event) (b : BlockInfo)
      → on_subscribed nid search filters new height events ≡ returns b
      → (b.height ≡ height) × All (λ m. m.message_height ≡ 0) b.messages
  unfolding on_subscribed
  on_subscribed_heights new height events b h =
      >>!-gives (lift (parse_message_from_events nid new events)) _ b h (λ ds p g.
        >>!-gives (complete_all nid search 0 ds) _ b g (λ ms q k.
          let made : BlockInfo = record { height = height; messages = ms } in
          let same : made ≡ b = returns_injective k in
          subst (λ x. (x.height ≡ height) × All (λ m. m.message_height ≡ 0) x.messages) same
            (refl, complete_all-height 0 ds ms q)))

module _ (nid : Text) (search : Text → Option ℕ → Result Found) (filters : List Event) where
  module _ (configured batch : ℕ) (contracts : TextMap EventMap) where
    -- The new subscriptions begin at the latest height, every height from the start on is at or after
    -- it or lies in a range of the catch-up, and what was sent is what the catch-up reports for its
    -- ranges.
    pub record IsListening (l u : Listening) : Type 0 where
      pub subscribed : u.subscribed ≡ l.subscribed ++ subscriptions l.latest contracts
      pub begins : All (λ o. o.height ≡ l.latest) (subscriptions l.latest contracts)
      pub covered :
          (h : ℕ)
          → l.start ≤ h
          → (l.latest ≤ h)
            ⊎ ((r : ℕ × ℕ) × In r (get_height_stream batch l.start l.latest)
                × (r.0 ≤ h)
                × (h ≤ r.1))
      pub sent :
          (blocks : List BlockInfo) × (u.sent ≡ l.sent ++ blocks)
          × (l.start < l.latest
              → Reported nid search filters 0 (get_height_stream batch l.start l.latest) blocks)
