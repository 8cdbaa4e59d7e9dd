-- ===== src/Types.antt =====
-- relayer/types/types.go: messages, their keys, the message cache and the other shared types.
pub mod Message
pub mod Retry
pub mod Cache
pub mod Coin
pub mod Contracts
pub mod EventMaps
