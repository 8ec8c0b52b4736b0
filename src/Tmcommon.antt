-- ===== src/Tmcommon.antt =====
-- tmcommon.c: the peer table, the socket contexts and the messages that the tracker and the client
-- share.
pub mod Peers
pub mod Contexts
pub mod Sending
pub mod Messages
mod Tests
