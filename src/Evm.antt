-- ===== src/Evm.antt =====
-- relayer/chains/evm: the provider of an EVM chain.
pub mod Heights
pub mod Logs
pub mod Nonce
pub mod Route
pub mod Calls
pub mod Options
pub mod Listen
