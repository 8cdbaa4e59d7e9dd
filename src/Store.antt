-- ===== src/Store.antt =====
-- relayer/store: the `Store` interface, the keys, and the three stores that are built on it.
pub mod Interface
pub mod Keys
pub mod Pagination
pub mod Codec
pub mod Messages
pub mod Blocks
pub mod Finality
