-- ===== src/Ledger.antt =====
-- The accounting of capacity: what the counters of a pool and the rows of holds say of each other,
-- through each operation of the service.
pub mod Sums
pub mod Steps
pub mod Holds
pub mod Quiet
pub mod Release
pub mod Reserve
pub mod Invariant
pub mod Calls
pub mod Operations
pub mod Recording
pub mod Creation
pub mod Accounts
