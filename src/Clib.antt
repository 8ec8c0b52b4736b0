-- ===== src/Clib.antt =====
-- clib.c: the arena and what is built on it.
pub mod Arena
pub mod Buffer
pub mod Array
pub mod Map
pub mod Static
pub mod Ctype
pub mod Str
mod Tests
