-- ===== src/Service.antt =====
-- internal/service/capacity.go.
pub mod Input
pub mod Validate
pub mod Plan
pub mod Reserve
pub mod Create
pub mod Release
pub mod Lifecycle
pub mod Sweep
pub mod Read
