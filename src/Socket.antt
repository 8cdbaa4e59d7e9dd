-- ===== src/Socket.antt =====
-- relayer/socket: the requests that the command line sends to a running relayer.
pub mod Wire
pub mod Server
pub mod Client
