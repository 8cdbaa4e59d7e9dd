-- ===== src/Wasm.antt =====
-- The provider of CosmWasm chains: relayer/chains/wasm.
pub mod HexString
pub mod Events
pub mod Query
pub mod Heights
pub mod Listen
pub mod Msg
pub mod Route
