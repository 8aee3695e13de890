-- ===== src/Deployment.antt =====
-- internal/fxmodules/modules.go: the production wiring of the ports, to the Postgres repositories
-- and the degrading Redis stores.
use cloud_resource_manager.Base.{suc, Bool, ◌∷◌, String}
use cloud_resource_manager.Base.Action.{ok, Action}
use cloud_resource_manager.External.{Doubles}
use cloud_resource_manager.Domain.Types.{Uuid, Time}
use cloud_resource_manager.Domain.Errors.{Error}
use cloud_resource_manager.Ports.{M, Ports, Metric}
use cloud_resource_manager.Postgres.Db.{World, within_tx}
use cloud_resource_manager.Postgres.Pools
use cloud_resource_manager.Postgres.Quotas
use cloud_resource_manager.Postgres.Products
use cloud_resource_manager.Postgres.Requests
use cloud_resource_manager.Postgres.Locker
use cloud_resource_manager.Redis
use cloud_resource_manager.Redis.{Server}

unfoldable pub now : {F R : Type 0} → M (World F R) Time
now w = (ok w.clock, w)

unfoldable pub new_uuid : {F R : Type 0} → M (World F R) Uuid
new_uuid w = (ok (w.uuids w.drawn), record w { drawn = suc w.drawn })

unfoldable pub count : {F R : Type 0} → Metric F → M (World F R) (Unit {0})
count m w = (ok tt, record w { metrics = m ∷ w.metrics })

-- A call of the Redis server leaves the rest of the world alone.
unfoldable pub on_redis : {F R A : Type 0} → Action Error R A → M (World F R) A
on_redis m w = ((m w.redis).0, record w { redis = (m w.redis).1 })

-- `text_le` is the database's collation.
abbrev pub production :
    {F R : Type 0} → Doubles F → (String → String → Bool) → Server R → Ports F (World F R)
production D text_le server = record {
  now = now;
  new_uuid = new_uuid;
  count = count;
  list_pools = Pools.list_pools text_le;
  get_by_kind = Pools.get_by_kind;
  try_reserve = Pools.try_reserve D;
  release_reserved = Pools.release_reserved;
  move_reserved_to_dedicated = Pools.move_reserved_to_dedicated;
  list_quotas = Quotas.list_quotas text_le;
  ensure_and_try_consume = Quotas.ensure_and_try_consume;
  release_quota = Quotas.release_quota;
  list_products = Products.list_products text_le;
  get_by_code = Products.get_by_code;
  find_by_idempotency = Requests.find_by_idempotency;
  get_request = Requests.get_request;
  list_by_customer = Requests.list_by_customer;
  create_reserved = Requests.create_reserved;
  create_rejected = Requests.create_rejected;
  confirm_request = Requests.confirm_request;
  mark_cancelled = Requests.mark_cancelled;
  mark_expired = Requests.mark_expired;
  extend_request = Requests.extend_request;
  list_expired_ids = Requests.list_expired_ids;
  list_events = Requests.list_events;
  list_lines = Requests.list_lines;
  list_active_holds = Requests.list_active_holds;
  update_hold_status = Requests.update_hold_status;
  count_active_holds = Requests.count_active_holds;
  within_tx = within_tx;
  try_lock = Locker.try_lock;
  unlock = Locker.unlock;
  get_capacity = λ key. on_redis (Redis.degrading_get_capacity server key);
  set_capacity = λ key v ttl. on_redis (Redis.degrading_set_capacity server key v ttl);
  invalidate_capacity = λ key. on_redis (Redis.degrading_invalidate_capacity server key);
  get_idempotent = λ c key. on_redis (Redis.degrading_get_idempotent server c key);
  set_idempotent = λ c key id ttl. on_redis (Redis.degrading_set_idempotent server c key id ttl);
}
