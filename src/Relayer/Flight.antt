-- ===== src/Relayer/Flight.antt =====
-- The invariant of the relayer's state in relayer/relay.go: which goroutines route which message
-- objects.
pub mod Grows
pub mod Quiet
pub mod Checks
pub mod Process
pub mod Routing
pub mod Run
use centralized_relay.Common.{
  ℕ, zero, suc, ◌+◌, ◌≤◌, ◌<◌, ◌≡◌, true, List, [], ◌∷◌, Text, ◌==◌, if◌then◌else◌, All,
}
use centralized_relay.Types.Message.{MessageKey}
use centralized_relay.Types.Contracts.{TextMap}
use centralized_relay.Runtime.{ChainRuntime}
use centralized_relay.Relayer.State.{State, Task}

-- How many goroutines of a list have the object `p`.
unfoldable pub count : ℕ → List Task → ℕ
count p [] = 0
count p (t ∷ ts) = if t.object == p then suc (count p ts) else count p ts

-- Every cached pointer is below `n`.
abbrev pub CachedBelow : ℕ → TextMap ChainRuntime → Type 0
CachedBelow n [] = Unit
CachedBelow n ((nid, c) ∷ rest) =
    All (λ (e : MessageKey × ℕ). e.1 < n) c.message_cache × CachedBelow n rest

-- How many goroutines of `processMessages` have the object `p`.
abbrev pub flying : {D : Type 0} → State D → ℕ → ℕ
flying s p = count p s.spawned + count p s.routing

-- An object is given to one goroutine at most, it is marked as being processed while one has it,
-- and all addresses in use are below the next free one.
pub record IsSingleFlight {D : Type 0} (s : State D) : Type 0 where
  pub single : (p : ℕ) → flying s p ≤ 1
  pub marked : (p : ℕ) → 0 < flying s p → (s.heap p).processing ≡ true
  pub below : (p : ℕ) → 0 < flying s p → p < s.next
  pub cached : CachedBelow s.next s.chains
