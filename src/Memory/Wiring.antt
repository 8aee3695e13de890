-- ===== src/Memory/Wiring.antt =====
-- internal/service/capacity_test.go, newTestService: the ports of a service on the stores of the
-- tests, with the transactions and locks of internal/repository/memory/memory.go and the stores of
-- internal/ports/ports.go that keep nothing.
use cloud_resource_manager.Base.{Bool, true, false}
use cloud_resource_manager.Base.Int.{ℤ}
use cloud_resource_manager.Base.Action.{pure}
use cloud_resource_manager.External.{Doubles}
use cloud_resource_manager.Ports.{M, Ports}
use cloud_resource_manager.Ports.Noop
use cloud_resource_manager.Memory.Store
use cloud_resource_manager.Memory.Store.{Store}
use cloud_resource_manager.Memory.Pools
use cloud_resource_manager.Memory.Quotas
use cloud_resource_manager.Memory.Products
use cloud_resource_manager.Memory.Requests

module _ {S : Type 0} where
  -- `Tx.WithinTx` runs the function and undoes nothing.
  unfoldable pub run_within_tx : {A : Type 0} → M S A → M S A
  run_within_tx body = body

  -- `Locker` always grants, and `LockerThatFails` never.
  unfoldable pub grant : ℤ → M S Bool
  grant key = pure true

  unfoldable pub refuse : ℤ → M S Bool
  refuse key = pure false

  unfoldable pub unlock_nothing : ℤ → M S (Unit {0})
  unlock_nothing key = pure tt

-- `try_lock` is that of one of the two lockers.
abbrev pub in_memory : {F : Type 0} → Doubles F → (ℤ → M (Store F) Bool) → Ports F (Store F)
in_memory D try_lock = record {
  now = Store.now;
  new_uuid = Store.new_uuid;
  count = Store.count;
  list_pools = Pools.list_pools;
  get_by_kind = Pools.get_by_kind;
  try_reserve = Pools.try_reserve D;
  release_reserved = Pools.release_reserved;
  move_reserved_to_dedicated = Pools.move_reserved_to_dedicated;
  list_quotas = Quotas.list_quotas;
  ensure_and_try_consume = Quotas.ensure_and_try_consume;
  release_quota = Quotas.release_quota;
  list_products = Products.list_products;
  get_by_code = Products.get_by_code;
  find_by_idempotency = Requests.find_by_idempotency;
  get_request = Requests.get_request;
  list_by_customer = Requests.list_by_customer;
  create_reserved = Requests.create_reserved;
  create_rejected = Requests.create_rejected;
  confirm_request = Requests.confirm_request;
  mark_cancelled = Requests.mark_cancelled;
  mark_expired = Requests.mark_expired;
  extend_request = Requests.extend_request;
  list_expired_ids = Requests.list_expired_ids;
  list_events = Requests.list_events;
  list_lines = Requests.list_lines;
  list_active_holds = Requests.list_active_holds;
  update_hold_status = Requests.update_hold_status;
  count_active_holds = Requests.count_active_holds;
  within_tx = run_within_tx;
  try_lock = try_lock;
  unlock = unlock_nothing;
  get_capacity = Noop.get_capacity;
  set_capacity = Noop.set_capacity;
  invalidate_capacity = Noop.invalidate_capacity;
  get_idempotent = Noop.get_idempotent;
  set_idempotent = Noop.set_idempotent;
}
