-- ===== src/Tests/Facts.antt =====
-- What holds of the small deployment, and the worlds that the examples start from.
use cloud_resource_manager.Base.{
  ℕ, ◌≢◌, refl, Bool, none, some, [], ◌∷◌, arith, String, not, str_lt,
}
use cloud_resource_manager.Base.Int.{ℤ, pos, ◌+ℤ◌, ◌*ℤ◌}
use cloud_resource_manager.Domain.Types.{
  CapacityRequest, CustomerQuota, Hold, hold_released, RequestStatus,
}
use cloud_resource_manager.Postgres.Db.{World}
use cloud_resource_manager.Service.Create.{create_request}
use cloud_resource_manager.Ledger.Sums.{Balanced, active_sum}
use cloud_resource_manager.Capacity.Room.{Exact, Fits, Nonnegative}
use cloud_resource_manager.Capacity.Statements.{Sound}
use cloud_resource_manager.Tests.Sample.{
  doubles, ports, codecs, config, order, pool, tables, world_of,
}

abbrev pub collation : String → String → Bool
collation s t = not (str_lt t s)

abbrev pub start : World ℤ (Unit {0})
start = world_of tables []

-- Behind a reservation.
abbrev pub held : World ℤ (Unit {0})
held = (create_request ports codecs config (order "k") start).1

-- The integers are exact doubles.
pub exact : Exact doubles
exact = record { floor_lem = λ x h k s. refl; sub_lem = λ a b h k s. refl; le_lem = λ a b h. refl }

pub cpu-Fits : Fits doubles (pool 1 "cpu" (pos 10))
unfolding ◌*ℤ◌ ◌+ℤ◌
cpu-Fits = record {
  product_nonneg = refl;
  effective_nonneg = omega arith;
  effective_Small = (omega arith, omega arith);
  not_oversubscribed = omega arith;
}

ram-Fits : Fits doubles (pool 2 "ram" (pos 10))
unfolding ◌*ℤ◌ ◌+ℤ◌
ram-Fits = record {
  product_nonneg = refl;
  effective_nonneg = omega arith;
  effective_Small = (omega arith, omega arith);
  not_oversubscribed = omega arith;
}

pub cpu-Nonnegative : Nonnegative (pool 1 "cpu" (pos 10))
cpu-Nonnegative = record { dedicated_nonneg = omega arith; reserved_nonneg = omega arith }

ram-Nonnegative : Nonnegative (pool 2 "ram" (pos 10))
ram-Nonnegative = record { dedicated_nonneg = omega arith; reserved_nonneg = omega arith }

pub tables-Sound : Sound doubles tables
tables-Sound = record {
  fits = (cpu-Fits, (ram-Fits, tt));
  counters = (cpu-Nonnegative, (ram-Nonnegative, tt));
  amounts = tt;
}

two_not_one : ◌≢◌ {A = ℕ} 2 1
two_not_one h = omega arith

pub tables-Balanced : Balanced tables
unfolding active_sum ◌+ℤ◌
tables-Balanced = record {
  pool_ids = ((two_not_one, tt), (tt, tt));
  hold_ids = tt;
  amounts = tt;
  counters = (refl, (refl, tt));
}

-- A request of the customer, in a status.
abbrev pub request_in : RequestStatus → CapacityRequest
request_in s = record {
  id = 5;
  customer_id = "acme";
  idempotency_key = "k";
  body_hash = "small";
  product_id = some 7;
  quantity = pos 2;
  status = s;
  reject_reason = none;
  expires_at = some (pos 500);
  extension_count = pos 1;
  correlation_id = "c";
  created_at = pos 0;
  updated_at = pos 0;
}

abbrev pub world_with : RequestStatus → World ℤ (Unit {0})
world_with s = world_of (record tables { requests = request_in s ∷ [] }) []

abbrev pub spent_hold : Hold
spent_hold = record {
  id = 9;
  request_id = 5;
  pool_id = 1;
  amount = pos 2;
  status = hold_released;
  created_at = pos 0;
  updated_at = pos 0;
}

abbrev pub with_spent_hold : World ℤ (Unit {0})
with_spent_hold =
    world_of
      (record tables {
        pools = record (pool 1 "cpu" (pos 10)) { reserved_amount = pos 6 } ∷ [];
        holds = spent_hold ∷ [];
      })
      []

abbrev pub quota : CustomerQuota
quota = record {
  id = 3;
  customer_id = "acme";
  resource_kind = "cpu";
  limit = pos 5;
  used_amount = pos 4;
  created_at = pos 0;
  updated_at = pos 0;
}

abbrev pub with_quota : World ℤ (Unit {0})
with_quota = world_of (record tables { quotas = quota ∷ [] }) []
