-- ===== src/Memory.antt =====
-- internal/repository/memory/memory.go: the stores of the tests, in a child for each type.
pub mod Store
pub mod Pools
pub mod Quotas
pub mod Products
pub mod Requests
pub mod Wiring
pub mod Agreement
