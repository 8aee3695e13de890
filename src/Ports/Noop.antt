-- ===== src/Ports/Noop.antt =====
-- internal/ports/ports.go: the stores that keep nothing and the locker that always grants.
use cloud_resource_manager.Base.{Bool, true, Option, none, String}
use cloud_resource_manager.Base.Int.{ℤ}
use cloud_resource_manager.Base.Action.{Action, pure}
use cloud_resource_manager.Domain.Types.{Duration}
use cloud_resource_manager.Domain.Errors.{Error}

module _ {S : Type 0} where
  unfoldable pub get_capacity : String → Action Error S (Option String)
  get_capacity key = pure none

  unfoldable pub set_capacity : String → String → Duration → Action Error S (Unit {0})
  set_capacity key value ttl = pure tt

  unfoldable pub invalidate_capacity : String → Action Error S (Unit {0})
  invalidate_capacity key = pure tt

  unfoldable pub ping : Action Error S (Unit {0})
  ping = pure tt

  unfoldable pub get_idempotent : String → String → Action Error S (Option String)
  get_idempotent customer_id key = pure none

  unfoldable pub set_idempotent : String → String → String → Duration → Action Error S (Unit {0})
  set_idempotent customer_id key request_id ttl = pure tt

  unfoldable pub try_lock : ℤ → Action Error S Bool
  try_lock key = pure true

  unfoldable pub unlock : ℤ → Action Error S (Unit {0})
  unlock key = pure tt
