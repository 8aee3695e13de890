-- ===== src/Tests/Stores.antt =====
-- The stores at concrete inputs: those of the tests against the tables, and a reservation that is
-- given back.
use cloud_resource_manager.Base.{◌+◌, ◌≡◌, refl, List, [], ◌∷◌, arith, map}
use cloud_resource_manager.Base.Int.{ℤ, pos, ◌+ℤ◌, ◌-ℤ◌, ◌*ℤ◌}
use cloud_resource_manager.Base.Action.{Result}
use cloud_resource_manager.Domain.Types.{
  ResourcePool, CapacityRequest, RequestEvent, event_cancelled, status_reserved,
}
use cloud_resource_manager.Postgres.Requests
use cloud_resource_manager.Domain.Errors.{Error}
use cloud_resource_manager.Postgres.Pools
use cloud_resource_manager.Postgres.Pools.{has_room}
use cloud_resource_manager.Postgres.Pools.Signs.{SamePools}
use cloud_resource_manager.Postgres.Pools.Restores.{release-try_reserve}
use cloud_resource_manager.Postgres.Quotas
use cloud_resource_manager.Memory.Store.{Store}
use cloud_resource_manager.Memory.Pools as FakePools
use cloud_resource_manager.Memory.Quotas as FakeQuotas
use cloud_resource_manager.Memory.Requests as FakeRequests
use cloud_resource_manager.Memory.Agreement.Requests.{SameRequests, request_writes-same}
use cloud_resource_manager.Memory.Wiring.{in_memory, grant}
use cloud_resource_manager.Memory.Agreement.Totals.{pool_writes-same}
use cloud_resource_manager.Memory.Agreement.Quotas.{SameQuotas, quota_writes-same}
use cloud_resource_manager.Service.Input.{CreateInput}
use cloud_resource_manager.Service.Create.{create_request}
use cloud_resource_manager.Tests.Sample.{doubles, codecs, config, tables}
use cloud_resource_manager.Tests.Facts.{
  start, exact, tables-Sound, tables-Balanced, with_quota, quota, request_in, world_with,
}

abbrev store : Store ℤ
store = record {
  clock = pos 1000;
  pools = tables.pools;
  quotas = quota ∷ [];
  products = tables.products;
  requests = [];
  lines = [];
  holds = [];
  dedications = [];
  events = [];
  idem_index = [];
  uuids = λ n. 100 + n;
  drawn = 0;
  metrics = [];
}

pool_writes-same_example :
    (((FakePools.try_reserve doubles 1 (pos 3) store).0
        ≡ (Pools.try_reserve doubles 1 (pos 3) start).0)
      × SamePools
          (FakePools.try_reserve doubles 1 (pos 3) store).1.pools
          (Pools.try_reserve doubles 1 (pos 3) start).1.db.pools)
    × (((FakePools.release_reserved 1 (pos 3) store).0 ≡ (Pools.release_reserved 1 (pos 3) start).0)
        × SamePools
            (FakePools.release_reserved 1 (pos 3) store).1.pools
            (Pools.release_reserved 1 (pos 3) start).1.db.pools)
    × (((FakePools.move_reserved_to_dedicated 1 (pos 3) store).0
          ≡ (Pools.move_reserved_to_dedicated 1 (pos 3) start).0)
        × SamePools
            (FakePools.move_reserved_to_dedicated 1 (pos 3) store).1.pools
            (Pools.move_reserved_to_dedicated 1 (pos 3) start).1.db.pools)
unfolding FakePools.by_id
pool_writes-same_example =
    pool_writes-same doubles exact (λ z s. refl) 1 (pos 3) store start (omega arith)
      (refl, (refl, tt)) tables-Balanced.pool_ids tables-Sound refl refl

quota_writes-same_example :
    (((FakeQuotas.ensure_and_try_consume "acme" "cpu" (pos 1) (pos 9) store).0
        ≡ (Quotas.ensure_and_try_consume "acme" "cpu" (pos 1) (pos 9) with_quota).0)
      × SameQuotas
          (FakeQuotas.ensure_and_try_consume "acme" "cpu" (pos 1) (pos 9) store).1.quotas
          (Quotas.ensure_and_try_consume "acme" "cpu" (pos 1) (pos 9) with_quota).1.db.quotas)
    × (((FakeQuotas.release_quota "acme" "cpu" (pos 1) store).0
          ≡ (Quotas.release_quota "acme" "cpu" (pos 1) with_quota).0)
        × SameQuotas
            (FakeQuotas.release_quota "acme" "cpu" (pos 1) store).1.quotas
            (Quotas.release_quota "acme" "cpu" (pos 1) with_quota).1.db.quotas)
quota_writes-same_example =
    quota_writes-same "acme" "cpu" (pos 1) (pos 9) store with_quota (refl, tt) ((λ e. tt), tt) refl
      (omega arith) (omega arith) refl refl

release-try_reserve_example :
    SamePools
      (Pools.release_reserved 1 (pos 3) (Pools.try_reserve doubles 1 (pos 3) start).1).1.db.pools
      start.db.pools
unfolding Pools.try_reserve has_room ◌*ℤ◌ ◌-ℤ◌ ◌+ℤ◌
release-try_reserve_example =
    release-try_reserve doubles 1 (pos 3) start (omega arith) refl tables-Balanced.pool_ids refl
      refl refl

-- Two lines, of which the second asks for more than its pool has.
abbrev too_much : CreateInput
too_much = record {
  customer_id = "acme";
  idempotency_key = "k";
  product_code = "";
  quantity = pos 0;
  lines =
      record { resource_kind = "cpu"; amount = pos 1 }
      ∷ record { resource_kind = "ram"; amount = pos 11 }
      ∷ [];
  correlation_id = "c";
}

abbrev refused_in_memory : Result Error CapacityRequest × Store ℤ
refused_in_memory = create_request (in_memory doubles grant) codecs config too_much store

-- What the stores of the tests have reserved behind the rejection: the first line's amount.
abbrev left_reserved : List ℤ
left_reserved = map (λ (p : ResourcePool ℤ). p.reserved_amount) refused_in_memory.1.pools

abbrev ending : RequestEvent
ending = record {
  id = 300;
  request_id = 5;
  event_type = event_cancelled;
  reason = "";
  at = pos 1000;
}

abbrev with_order : Store ℤ
with_order = record store { requests = request_in status_reserved ∷ [] }

request_writes-same_example :
    (((FakeRequests.mark_cancelled 5 ending with_order).0
        ≡ (Requests.mark_cancelled 5 ending (world_with status_reserved)).0)
      × SameRequests
          (FakeRequests.mark_cancelled 5 ending with_order).1.requests
          (Requests.mark_cancelled 5 ending (world_with status_reserved)).1.db.requests)
    × (((FakeRequests.mark_expired 5 ending with_order).0
          ≡ (Requests.mark_expired 5 ending (world_with status_reserved)).0)
        × SameRequests
            (FakeRequests.mark_expired 5 ending with_order).1.requests
            (Requests.mark_expired 5 ending (world_with status_reserved)).1.db.requests)
    × (((FakeRequests.extend_request 5 (pos 2000) (pos 2) ending with_order).0
          ≡ (Requests.extend_request 5 (pos 2000) (pos 2) ending (world_with status_reserved)).0)
        × SameRequests
            (FakeRequests.extend_request 5 (pos 2000) (pos 2) ending with_order).1.requests
            (Requests.extend_request 5
              (pos 2000)
              (pos 2)
              ending
              (world_with status_reserved)).1.db.requests)
request_writes-same_example =
    request_writes-same 5 ending with_order (world_with status_reserved) (refl, tt) (tt, tt) refl
      refl (pos 2000) (pos 2) (omega arith) (omega arith)
