-- ===== src/Client.antt =====
-- tm.c: the program of one user. It knocks at the tracker and sends texts to other peers.
pub mod Args
pub mod Messages
pub mod Tokens
pub mod Join
pub mod Commands
pub mod Handling
pub mod Loop
mod Tests
