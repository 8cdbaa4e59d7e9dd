-- ===== src/Relayer.antt =====
-- relayer/relay.go: the relayer's state and its operations. `State` has the state, the other
-- modules follow the functions of relay.go, and the proofs are in the modules below them.
pub mod State
pub mod Clear
pub mod Process
pub mod Route
pub mod Flush
pub mod Blocks
pub mod Finality
pub mod Start
pub mod Flight
