-- ===== src/Tracker.antt =====
-- tmtracker.c: the program that tells peers of each other.
pub mod Args
pub mod Framing
pub mod Handling
pub mod Loop
mod Tests
