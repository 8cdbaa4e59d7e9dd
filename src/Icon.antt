-- ===== src/Icon.antt =====
-- The provider of ICON chains: relayer/chains/icon.
pub mod Types
pub mod Events
pub mod Client
pub mod Query
pub mod Route
pub mod Calls
