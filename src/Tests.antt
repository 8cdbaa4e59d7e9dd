-- ===== src/Tests.antt =====
-- Tests on concrete inputs: a database and a JSON library that keep what their interfaces ask, and
-- runs of the stores and of the relayer over them.
pub mod Disk
pub mod Codecs
pub mod World
pub mod Stores
pub mod Relay
pub mod Loops
pub mod Sockets
pub mod Evms
pub mod Icons
pub mod Wasms
pub mod Deliveries
pub mod Configs
pub mod Accounts
