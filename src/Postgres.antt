-- ===== src/Postgres.antt =====
-- internal/repository/postgres: each repository method runs SQL statements on the tables.
pub mod Db
pub mod Pools
pub mod Quotas
pub mod Products
pub mod Requests
pub mod Locker
pub mod Logic
pub mod Total
