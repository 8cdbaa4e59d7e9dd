-- ===== src/Wasm/Listen.antt =====
-- The listener of relayer/chains/wasm/provider.go: its two clocks as steps, and the subscriptions that
-- it starts.
pub mod Laws
use centralized_relay.Common.{
  ℕ, zero, suc, ◌+◌, ◌*◌, ◌%◌, ◌^◌, ◌≤◌, ◌<◌, ◌≡◌, refl, sym, ap, ◌∙◌, subst, List, [], ◌∷◌, ◌++◌,
  Option, none, some, Text, codes, decimal, Result, ok, err, Error, ltb, leb, ◌==◌, if◌then◌else◌,
  Run, returns, fails, panics, ◌>>!◌, >>!-gives, returns_injective, ◌>>=◌, lift, All, In, inl, inr,
  ◌⊎◌, Bool-cases, arith,
}
use centralized_relay.Types.Message.{Message, BlockInfo}
use centralized_relay.Types.Contracts.{TextMap, EventMap}
use centralized_relay.Wasm.Events.{Event, Draft, parse_message_from_events, complete}
use centralized_relay.Wasm.Heights.{
  Found, get_start_height, get_height_stream, complete_all, run_block_query,
}
use centralized_relay.Wasm.Heights.Search.{Steps, get_height_stream-Steps}
use centralized_relay.Wasm.Heights.Laws.{Reported, run_block_query-Reported}
use mathlib.Core.List.{append-nil}

pub record SubscribeOpts : Type 0 where
  pub height : ℕ
  pub address : Text
  pub method : Text

-- The text of the subscription.
unfoldable pub subscription_query : SubscribeOpts → Text
subscription_query o =
    codes "tm.event = 'Tx' AND tx.height >= "
    ++ decimal o.height
    ++ codes "  AND "
    ++ o.method
    ++ codes "._contract_address = '"
    ++ o.address
    ++ codes "'"

-- One subscription for each event type of each contract, from a height on.
unfoldable pub contract_subscriptions : ℕ → Text → TextMap Text → List SubscribeOpts
contract_subscriptions height addr [] = []
contract_subscriptions height addr ((method, name) ∷ rest) =
    record { height = height; address = addr; method = method }
    ∷ contract_subscriptions height addr rest

unfoldable pub subscriptions : ℕ → TextMap EventMap → List SubscribeOpts
unfolding contract_subscriptions
subscriptions height [] = []
subscriptions height ((key, contract) ∷ rest) =
    contract_subscriptions height contract.address contract.sig_type ++ subscriptions height rest

-- What the clocks change: the heights to go on from, and what was started and sent.
pub record Listening : Type 0 where
  pub start : ℕ
  pub latest : ℕ
  pub subscribed : List SubscribeOpts
  pub sent : List BlockInfo

pub data Tick : Type 0 where
  subscribe : Tick
  poll : ℕ → ℕ → Tick

module _ (nid : Text) (search : Text → Option ℕ → Result Found) (filters : List Event) where
  module _ (configured batch : ℕ) (contracts : TextMap EventMap) where
    -- The beginning of `Listener`, for the latest height that is read.
    unfoldable pub begin_listening : ℕ → ℕ → Result Listening
    unfolding get_start_height
    begin_listening latest saved = get_start_height configured latest saved >>= λ start.
        ok (record { start = start; latest = latest; subscribed = []; sent = [] })

    -- After the catch-up of the first clock.
    abbrev pub caught_up : Listening → Run (List BlockInfo × ℕ) → Run Listening
    caught_up l r =
        r >>! λ (blocks, next). returns (record l { start = next; sent = l.sent ++ blocks })

    -- The first clock starts the subscriptions and catches up. The second reads the saved height, and
    -- the latest one, which is 0 when it cannot be read.
    unfoldable pub listen : Tick → Listening → Run Listening
    unfolding subscriptions run_block_query
    listen subscribe l =
        let started : Listening = record l {
          subscribed = l.subscribed ++ subscriptions l.latest contracts;
        } in
        if ltb l.start l.latest
        then caught_up started (run_block_query nid search filters batch l.start l.latest)
        else returns started
    listen (poll saved latest) l =
        returns (record l { start = if saved == 0 then l.latest else saved; latest = latest })

  -- An event of a subscription: the block that is sent. The heights of its messages are not set, and a
  -- message without a number panics in the log line after the block was sent.
  unfoldable pub on_subscribed : ℕ → ℕ → List Event → Run BlockInfo
  unfolding complete_all
  on_subscribed new height events = lift (parse_message_from_events nid new events) >>! λ ds.
      complete_all nid search 0 ds >>! λ ms. returns (record { height = height; messages = ms })
