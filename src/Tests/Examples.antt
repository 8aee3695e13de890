-- ===== src/Tests/Examples.antt =====
-- The theorems at concrete inputs.
use cloud_resource_manager.Base.{ℕ, ◌≡◌, refl, true, ◌&&◌, ◌≤◌, some, [], ◌∷◌, arith, length}
use cloud_resource_manager.Base.Int.{pos, ◌+ℤ◌, ◌-ℤ◌, ◌≤ℤ◌, leb_ℤ}
use cloud_resource_manager.Base.Action.{ok}
use cloud_resource_manager.Base.Table.{update, All}
use cloud_resource_manager.Domain.Types.{hold_released, status_reserved, status_cancelled}
use cloud_resource_manager.Domain.Rules.{available, remaining}
use cloud_resource_manager.Postgres.Db.{World}
use cloud_resource_manager.Base.Int.{ℤ}
use cloud_resource_manager.Postgres.Pools.{has_room, covers, releasing}
use cloud_resource_manager.Postgres.Quotas.{consumable, quota_of}
use cloud_resource_manager.Postgres.Quotas.Bounds.{consumable-remaining}
use cloud_resource_manager.Postgres.Requests.{list_expired_ids}
use cloud_resource_manager.Redis.{get_idempotent}
use cloud_resource_manager.Service.Input.{CreateInput}
use cloud_resource_manager.Service.Validate.{validate_create_input, compute_body_hash}
use cloud_resource_manager.Service.Validate.Bounds.{
  Accepted, validate_create_input-raw, validate_create_input-product,
}
use cloud_resource_manager.Service.Create.{match_idempotent_body, create_request}
use cloud_resource_manager.Service.Release.{release_hold}
use cloud_resource_manager.Service.Lifecycle.{confirm, cancel, extend}
use cloud_resource_manager.Service.Sweep.{expire_due}
use cloud_resource_manager.Ledger.Sums.{Balanced}
use cloud_resource_manager.Ledger.Accounts.{
  create_request-Balanced, confirm-Balanced, cancel-Balanced, expire_due-Balanced,
}
use cloud_resource_manager.Capacity.Room.{has_room-available}
use cloud_resource_manager.Capacity.Statements.{Sound}
use cloud_resource_manager.Capacity.Claims.{claims}
use cloud_resource_manager.Capacity.Accounts.{
  create_request-Sound, confirm-Sound, cancel-Sound, expire_due-Sound,
}
use cloud_resource_manager.Behaviour.Extension.{Limited, RequestsLimited, extend-Limited}
use cloud_resource_manager.Behaviour.Sweeping.{
  Listed, Tally, least, expire_due-locked, list_expired_ids-due,
}
use cloud_resource_manager.Behaviour.Repetition.{create_request-replays}
use cloud_resource_manager.Behaviour.Staleness.{release_hold-stale}
use cloud_resource_manager.Tests.Sample.{doubles, server, ports, codecs, config, order, pool}
use cloud_resource_manager.Tests.Facts.{
  collation, start, held, exact, cpu-Fits, cpu-Nonnegative, tables-Sound, tables-Balanced,
  request_in, world_with, spent_hold, with_spent_hold, quota,
}
use cloud_resource_manager.Base.{List, none}
use cloud_resource_manager.Config.{Environment, read_config, load}
use cloud_resource_manager.Config.Bounds.{load-bounds}
use cloud_resource_manager.Service.Input.{ReservationPlan}
use cloud_resource_manager.Service.Plan.{build_reservation_plan}
use cloud_resource_manager.Service.Plan.Order.{Ordered, build_reservation_plan-Ordered}
use cloud_resource_manager.Postgres.Products.{get_by_code}
use cloud_resource_manager.Postgres.Pools.{get_by_kind}
use cloud_resource_manager.Base.Int.{wrap64, ◌*ℤ◌, ◌%ℤ◌}
use cloud_resource_manager.Service.Read.{view_of}
use cloud_resource_manager.Capacity.Views.{view_of-admits}
use cloud_resource_manager.Behaviour.Settled.{Settled}
use cloud_resource_manager.Behaviour.Finality.{operations-Settled}
use cloud_resource_manager.Tests.Sample.{small_vm}
use cloud_resource_manager.Behaviour.Unique.{UniqueKeys}
use cloud_resource_manager.Behaviour.Idempotency.{operations-UniqueKeys}

create_request-Sound_example :
    Sound doubles (create_request ports codecs config (order "k") start).1.db
create_request-Sound_example =
    create_request-Sound doubles exact collation server codecs config start (order "k") tables-Sound

create_request-Balanced_example :
    Balanced (create_request ports codecs config (order "k") start).1.db
create_request-Balanced_example =
    create_request-Balanced doubles collation server codecs config start (order "k") tables-Balanced

held-Sound : Sound doubles held.db
held-Sound =
    create_request-Sound doubles exact collation server codecs config start (order "k") tables-Sound

held-Balanced : Balanced held.db
held-Balanced =
    create_request-Balanced doubles collation server codecs config start (order "k") tables-Balanced

confirm-Sound_example :
    Sound doubles (confirm ports codecs 100 held).1.db
    × (claims (confirm ports codecs 100 held).1.db ≡ claims held.db)
confirm-Sound_example =
    confirm-Sound doubles exact collation server codecs config held 100 held-Sound

confirm-Balanced_example : Balanced (confirm ports codecs 100 held).1.db
confirm-Balanced_example =
    confirm-Balanced doubles collation server codecs config held 100 held-Balanced

cancel-Sound_example : Sound doubles (cancel ports 100 held).1.db
cancel-Sound_example = cancel-Sound doubles exact collation server codecs config held 100 held-Sound

cancel-Balanced_example : Balanced (cancel ports 100 held).1.db
cancel-Balanced_example =
    cancel-Balanced doubles collation server codecs config held 100 held-Balanced

-- Behind the reservation, when it has expired.
abbrev late : World ℤ (Unit {0})
late = record held { clock = pos 5000; db_clock = pos 5000 }

expire_due-Sound_example : Sound doubles (expire_due ports late).1.db
expire_due-Sound_example =
    expire_due-Sound doubles exact collation server codecs config late held-Sound

expire_due-Balanced_example : Balanced (expire_due ports late).1.db
expire_due-Balanced_example =
    expire_due-Balanced doubles collation server codecs config late held-Balanced

create_request-replays_example :
    ((create_request ports codecs config (order "k") (world_with status_reserved)).0
      ≡ ok (request_in status_reserved))
    × ((create_request ports codecs config (order "k") (world_with status_reserved)).1.db
        ≡ (world_with status_reserved).db)
unfolding validate_create_input match_idempotent_body get_idempotent compute_body_hash
create_request-replays_example =
    create_request-replays doubles collation server codecs config (order "k")
      (request_in status_reserved) (world_with status_reserved) refl refl refl refl refl refl refl
      refl

request-Limited : Limited config (request_in status_reserved)
unfolding ◌+ℤ◌
request-Limited = record { extensions = omega arith; wall_time = omega arith }

extend-Limited_example :
    RequestsLimited config (extend ports config 5 (world_with status_reserved)).1.db
extend-Limited_example =
    extend-Limited doubles collation server config 5 (world_with status_reserved) (tt, tt)
      (request-Limited, tt)

has_room-available_example :
    has_room doubles (pos 4) (pool 1 "cpu" (pos 10))
    ≡ leb_ℤ (pos 4) (available doubles (pool 1 "cpu" (pos 10)))
has_room-available_example =
    has_room-available doubles exact (pos 4) (pool 1 "cpu" (pos 10)) cpu-Fits cpu-Nonnegative

consumable-remaining_example :
    consumable "acme" "cpu" (pos 2) quota
    ≡ (quota_of "acme" "cpu" quota && leb_ℤ (pos 2) (remaining quota))
consumable-remaining_example = consumable-remaining "acme" "cpu" (pos 2) quota (omega arith)

expire_due-locked_example :
    (expire_due ports (record start { taken_elsewhere = true })).1.db ≡ start.db
expire_due-locked_example =
    expire_due-locked doubles collation server (record start { taken_elsewhere = true }) refl

list_expired_ids-due_example :
    All (λ id. Listed (pos 1000) id (world_with status_reserved).db.requests) (5 ∷ [])
    × ((k : ℕ) × Tally (pos 1000) (world_with status_reserved).db.requests k × (1 ≡ least 100 k))
unfolding list_expired_ids
list_expired_ids-due_example = list_expired_ids-due (pos 1000) 100 (world_with status_reserved) refl

abbrev raw_order : CreateInput
raw_order = record (order "k") {
  product_code = "";
  lines = record { resource_kind = "cpu"; amount = pos 3 } ∷ [];
}

validate_create_input-raw_example : (length raw_order.lines ≤ 50) × Accepted [] raw_order.lines
unfolding validate_create_input
validate_create_input-raw_example = validate_create_input-raw raw_order refl refl

validate_create_input-product_example :
    ((order "k").lines ≡ []) × (pos 0 ≤ℤ (order "k").quantity) × ((order "k").quantity ≤ℤ pos 1000)
unfolding validate_create_input
validate_create_input-product_example = validate_create_input-product (order "k") refl refl

release_hold-stale_example :
    ((release_hold ports "acme" [] hold_released spent_hold with_spent_hold).0 ≡ ok tt)
    × ((release_hold ports "acme" [] hold_released spent_hold with_spent_hold).1.db.holds
        ≡ with_spent_hold.db.holds)
    × ((release_hold ports "acme" [] hold_released spent_hold with_spent_hold).1.db.pools
        ≡ update (covers 1 (pos 2)) (releasing (pos 2) (pos 1000)) with_spent_hold.db.pools)
unfolding ◌-ℤ◌
release_hold-stale_example =
    release_hold-stale doubles collation server "acme" [] hold_released spent_hold with_spent_hold
      refl (refl, tt) refl refl

operations-Settled_example :
    Settled 5 status_cancelled (confirm ports codecs 5 (world_with status_cancelled)).1.db
    × Settled 5 status_cancelled (cancel ports 5 (world_with status_cancelled)).1.db
    × Settled 5 status_cancelled (extend ports config 5 (world_with status_cancelled)).1.db
    × Settled 5 status_cancelled (expire_due ports (world_with status_cancelled)).1.db
operations-Settled_example =
    operations-Settled doubles collation server codecs config 5 status_cancelled refl 5
      (world_with status_cancelled) ((λ _. refl), tt)

view_of-admits_example :
    leb_ℤ (pos 1) (view_of doubles (some quota) (pool 1 "cpu" (pos 10))).available
    ≡ (has_room doubles (pos 1) (pool 1 "cpu" (pos 10)) && consumable "acme" "cpu" (pos 1) quota)
view_of-admits_example =
    view_of-admits doubles exact "acme" "cpu" (pos 1) quota (pool 1 "cpu" (pos 10)) (omega arith)
      refl cpu-Fits cpu-Nonnegative

abbrev small_plans : List ReservationPlan
small_plans =
    record { kind = "cpu"; pool_id = 1; amount = pos 4 }
    ∷ record { kind = "ram"; pool_id = 2; amount = pos 8 }
    ∷ []

build_reservation_plan-Ordered_example : Ordered small_plans
unfolding build_reservation_plan get_by_code wrap64 ◌*ℤ◌ get_by_kind ◌%ℤ◌
build_reservation_plan-Ordered_example =
    build_reservation_plan-Ordered ports (order "k") start {plans = small_plans}
      {product = some small_vm} refl

abbrev bare_environment : Environment
bare_environment = record { lookup_env = λ k. ""; atoi = λ s. none; parse_duration = λ s. none }

load-bounds_example :
    (pos 0 ≤ℤ (read_config bare_environment).max_extensions)
    × (pos 0 ≤ℤ (read_config bare_environment).max_active_holds_per_customer)
unfolding load
load-bounds_example = load-bounds bare_environment (read_config bare_environment) refl

operations-UniqueKeys_example :
    UniqueKeys (create_request ports codecs config (order "j") (world_with status_reserved)).1.db
    × UniqueKeys (confirm ports codecs 5 (world_with status_reserved)).1.db
    × UniqueKeys (cancel ports 5 (world_with status_reserved)).1.db
    × UniqueKeys (extend ports config 5 (world_with status_reserved)).1.db
    × UniqueKeys (expire_due ports (world_with status_reserved)).1.db
operations-UniqueKeys_example =
    operations-UniqueKeys doubles collation server codecs config (order "j") 5
      (world_with status_reserved) (tt, tt)
