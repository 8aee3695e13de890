-- ===== src/Config/Bounds.antt =====
-- internal/config/config.go: what Load guarantees.
use cloud_resource_manager.Base.{false, ◌≡◌, String, inl, inr, Bool-cases, if◌then◌else◌, arith}
use cloud_resource_manager.Base.Int.{ℤ, pos, ◌≤ℤ◌, ltb_ℤ}
use cloud_resource_manager.Base.Action.{ok, err}
use cloud_resource_manager.Config.{Config, Environment, read_config, load}

not_below : (z : ℤ) → ltb_ℤ z (pos 0) ≡ false → pos 0 ≤ℤ z
not_below z h = ground arith

checked :
    (c : Config) (d : Config) (m n : String)
    → (if ltb_ℤ c.max_extensions (pos 0)
        then err m
        else (if ltb_ℤ c.max_active_holds_per_customer (pos 0) then err n else ok c))
      ≡ ok d
    → (pos 0 ≤ℤ d.max_extensions) × (pos 0 ≤ℤ d.max_active_holds_per_customer)
checked c d m n h = elim (Bool-cases (ltb_ℤ c.max_extensions (pos 0))) [
  | inl e ↦ let no : err m ≡ ok d = rw e at h in cc
  | inr e ↦ elim (Bool-cases (ltb_ℤ c.max_active_holds_per_customer (pos 0))) [
    | inl f ↦ let no : err n ≡ ok d = rw (e, f) at h in cc
    | inr f ↦
        let found : ok c ≡ ok d = rw (e, f) at h in
        let same : c ≡ d = cc in
        rw (← same) (not_below c.max_extensions e, not_below c.max_active_holds_per_customer f)
  ]
]

-- A configuration that Load returns allows a number of extensions, and of active holds for each
-- customer, that is at or above 0.
pub load-bounds :
    (env : Environment) (c : Config)
    → load env ≡ ok c
    → (pos 0 ≤ℤ c.max_extensions) × (pos 0 ≤ℤ c.max_active_holds_per_customer)
unfolding load
load-bounds env c h =
    checked (read_config env) c "MAX_EXTENSIONS must be >= 0"
      "MAX_ACTIVE_HOLDS_PER_CUSTOMER must be >= 0" h
