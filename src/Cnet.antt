-- ===== src/Cnet.antt =====
-- cnet.c: addresses, the wire format and the socket loops.
pub mod HostAddr
pub mod Pack
pub mod Unpack
pub mod Stream
pub mod Connect
mod Tests
