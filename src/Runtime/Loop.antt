-- ===== src/Runtime/Loop.antt =====
-- internal/fxmodules/modules.go: newRedisStores, and the loop of the sweeper's process.
use cloud_resource_manager.Base.{Bool, List, [], ◌∷◌, String}
use cloud_resource_manager.Base.Action.{Result, ok, err}
use cloud_resource_manager.External.{Doubles}
use cloud_resource_manager.Domain.Errors.{Error}
use cloud_resource_manager.Ports.{Ports}
use cloud_resource_manager.Ports.Noop
use cloud_resource_manager.Postgres.Db.{World}
use cloud_resource_manager.Redis.{Server}
use cloud_resource_manager.Deployment.{production}
use cloud_resource_manager.Service.Sweep.{expire_due}

-- The ports with the stores that keep nothing for those of Redis.
abbrev pub without_redis : {F S : Type 0} → Ports F S → Ports F S
without_redis P = record P {
  get_capacity = Noop.get_capacity;
  set_capacity = Noop.set_capacity;
  invalidate_capacity = Noop.invalidate_capacity;
  get_idempotent = Noop.get_idempotent;
  set_idempotent = Noop.set_idempotent;
}

-- Which stores the process has for its life, by the answer to the ping at its start.
abbrev pub new_redis_stores :
    {F R : Type 0}
    → Doubles F
    → (String → String → Bool)
    → Server R
    → Result Error (Unit {0})
    → Ports F (World F R)
new_redis_stores D text_le server (ok _) = production D text_le server
new_redis_stores D text_le server (err e) = without_redis (production D text_le server)

-- What the `select` of the loop receives next.
pub data Signal : Type 0 where
  stop : Signal
  tick : Signal

-- An error of ExpireDue is logged, and the loop goes on. Behind the last signal it waits.
unfoldable pub run_sweeper_loop : {F S : Type 0} → Ports F S → List Signal → S → S
run_sweeper_loop P [] s = s
run_sweeper_loop P (stop ∷ signals) s = s
run_sweeper_loop P (tick ∷ signals) s = run_sweeper_loop P signals (expire_due P s).1
