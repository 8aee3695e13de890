-- ===== src/Capacity/Accounts.antt =====
-- No operation of the service oversubscribes a pool, said of the worlds before and after.
use cloud_resource_manager.Base.{String, Bool, ◌≡◌, refl}
use cloud_resource_manager.Config.{Config}
use cloud_resource_manager.External.{Doubles}
use cloud_resource_manager.Domain.Types.{Uuid}
use cloud_resource_manager.Postgres.Db.{World}
use cloud_resource_manager.Redis.{Server}
use cloud_resource_manager.Deployment.{production}
use cloud_resource_manager.Service.Input.{CreateInput, Codecs}
use cloud_resource_manager.Service.Create
use cloud_resource_manager.Service.Lifecycle
use cloud_resource_manager.Service.Sweep
use cloud_resource_manager.Capacity.Room.{Exact}
use cloud_resource_manager.Capacity.Statements.{Sound}
use cloud_resource_manager.Capacity.Transactions.{Sound-Invariant}
use cloud_resource_manager.Capacity.Claims.{claims, confirm-Claims}
use cloud_resource_manager.Ledger.Operations
use cloud_resource_manager.Ledger.Creation

module _ {F R : Type 0} (D : Doubles F) (X : Exact D) (text_le : String → String → Bool)
    (server : Server R) (C : Codecs F) (cfg : Config) (w : World F R) where
  -- With doubles that are exact on whole numbers below 2^53, from sound tables CreateRequest leaves
  -- sound tables, whether it reserves, rejects, replays or fails, and whichever statements fail.
  pub create_request-Sound :
      (i : CreateInput)
      → Sound D w.db
      → Sound D (Create.create_request (production D text_le server) C cfg i w).1.db
  create_request-Sound i =
      (Creation.create_request-Invariant D text_le server C cfg (Sound-Invariant D text_le server X)
          i).at
        w

  -- With doubles that are exact on whole numbers below 2^53, from sound tables Confirm leaves sound
  -- tables, whether it returns or fails, and the same pools with the same sum of what is dedicated
  -- and what is reserved in each: what is confirmed still counts against its pool.
  pub confirm-Sound :
      (id : Uuid)
      → Sound D w.db
      → Sound D (Lifecycle.confirm (production D text_le server) C id w).1.db
        × (claims (Lifecycle.confirm (production D text_le server) C id w).1.db ≡ claims w.db)
  confirm-Sound id sound = (
    (Operations.confirm-Invariant D text_le server C cfg (Sound-Invariant D text_le server X) id).at
        w sound,
    (confirm-Claims D text_le server (claims w.db) C id).at w refl,
  )

  -- With doubles that are exact on whole numbers below 2^53, from sound tables Cancel leaves sound
  -- tables, whether it returns or fails.
  pub cancel-Sound :
      (id : Uuid)
      → Sound D w.db
      → Sound D (Lifecycle.cancel (production D text_le server) id w).1.db
  cancel-Sound id =
      (Operations.cancel-Invariant D text_le server C cfg (Sound-Invariant D text_le server X)
          id).at
        w

  -- With doubles that are exact on whole numbers below 2^53, from sound tables a run of the sweeper
  -- leaves sound tables.
  pub expire_due-Sound :
      Sound D w.db → Sound D (Sweep.expire_due (production D text_le server) w).1.db
  expire_due-Sound =
      (Operations.expire_due-Invariant D text_le server C cfg
          (Sound-Invariant D text_le server X)).at
        w
