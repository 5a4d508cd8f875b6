-- ===== src/Read.antt =====
-- Reading from a file descriptor: sherry.c, lines 585 to 635.
pub mod Outcome
pub mod Arrive
pub mod Stale
mod Tests
