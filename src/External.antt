-- ===== src/External.antt =====
-- What the program calls and does not implement: double-precision arithmetic, UUID texts, JSON and
-- SHA-256, and the Redis server. Each is a parameter.
use cloud_resource_manager.Base.{Bool}
use cloud_resource_manager.Base.Int.{ℤ}

-- Double-precision arithmetic; `floor` is math.Floor and SQL's FLOOR, and `trunc` Go's int64(x).
pub record Doubles (F : Type 0) : Type 0 where
  pub of_int : ℤ → F
  pub mul : F → F → F
  pub sub : F → F → F
  pub div : F → F → F
  pub floor : F → F
  pub trunc : F → ℤ
  pub le : F → F → Bool
  pub lt : F → F → Bool
