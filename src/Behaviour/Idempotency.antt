-- ===== src/Behaviour/Idempotency.antt =====
-- internal/service/capacity.go: one request for each customer and key, through every operation.
use cloud_resource_manager.Base.{Bool, String}
use cloud_resource_manager.Config.{Config}
use cloud_resource_manager.External.{Doubles}
use cloud_resource_manager.Domain.Types.{Uuid}
use cloud_resource_manager.Postgres.Db.{World}
use cloud_resource_manager.Redis.{Server}
use cloud_resource_manager.Deployment.{production}
use cloud_resource_manager.Service.Input.{CreateInput, Codecs}
use cloud_resource_manager.Service.Lifecycle
use cloud_resource_manager.Service.Create
use cloud_resource_manager.Service.Sweep
use cloud_resource_manager.Ledger.Invariant.{Invariant}
use cloud_resource_manager.Ledger.Operations
use cloud_resource_manager.Ledger.Creation
use cloud_resource_manager.Behaviour.Unique.{UniqueKeys, AllDifferent-Closed}
use cloud_resource_manager.Behaviour.RowOperations.{Rows-Invariant}

module _ {F R : Type 0} (D : Doubles F) (text_le : String → String → Bool) (server : Server R) where
  pub Unique-Invariant : Invariant D text_le server UniqueKeys
  Unique-Invariant = Rows-Invariant D text_le server AllDifferent-Closed

module _ {F R : Type 0} (D : Doubles F) (text_le : String → String → Bool) (server : Server R)
    (C : Codecs F) (cfg : Config) where
  -- Where no two requests have one id, or one customer and idempotency key, this still holds
  -- behind CreateRequest, Confirm, Cancel, Extend and a run of the sweeper, whether they return or
  -- fail.
  pub operations-UniqueKeys :
      (i : CreateInput) (id : Uuid) (w : World F R)
      → UniqueKeys w.db
      → UniqueKeys (Create.create_request (production D text_le server) C cfg i w).1.db
        × UniqueKeys (Lifecycle.confirm (production D text_le server) C id w).1.db
        × UniqueKeys (Lifecycle.cancel (production D text_le server) id w).1.db
        × UniqueKeys (Lifecycle.extend (production D text_le server) cfg id w).1.db
        × UniqueKeys (Sweep.expire_due (production D text_le server) w).1.db
  operations-UniqueKeys i id w u = (
    (Creation.create_request-Invariant D text_le server C cfg (Unique-Invariant D text_le server)
          i).at
        w u,
    (Operations.confirm-Invariant D text_le server C cfg (Unique-Invariant D text_le server) id).at
        w u,
    (Operations.cancel-Invariant D text_le server C cfg (Unique-Invariant D text_le server) id).at w
        u,
    (Operations.extend-Invariant D text_le server C cfg (Unique-Invariant D text_le server) id).at w
        u,
    (Operations.expire_due-Invariant D text_le server C cfg (Unique-Invariant D text_le server)).at
        w u,
  )
