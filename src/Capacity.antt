-- ===== src/Capacity.antt =====
-- Admission of reservations: internal/repository/postgres/pools.go against internal/domain/types.go.
-- No pool is promised beyond what its total and its factor of oversubscription allow.
pub mod Room
pub mod Statements
pub mod Transactions
pub mod Claims
pub mod Accounts
pub mod Views
