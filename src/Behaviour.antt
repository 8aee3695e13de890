-- ===== src/Behaviour.antt =====
-- What single operations do, beyond the accounts: their limits, their repetition, and the lock of
-- the sweeper.
pub mod Reading
pub mod Recorded
pub mod Extension
pub mod Sweeping
pub mod Repetition
pub mod Staleness
pub mod Settled
pub mod Finality
pub mod Unique
pub mod Collision
pub mod Permanence
pub mod Completion
pub mod Rows
pub mod Transitions
pub mod RowWrites
pub mod RowOperations
pub mod Idempotency
