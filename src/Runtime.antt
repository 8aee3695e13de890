-- ===== src/Runtime.antt =====
-- The program as it runs: requests over HTTP, ticks of the sweeper, and what others change.
pub mod Loop
pub mod Steps
pub mod Reading
pub mod Safety
pub mod Reached
pub mod Queries
