-- ===== src/Ledger/Accounts.antt =====
-- The operations of the service keep the ledger balanced, said of the worlds before and after: each
-- pool's `reserved_amount` is the sum of the ACTIVE holds on it, whichever statements fail.
use cloud_resource_manager.Base.{String, Bool}
use cloud_resource_manager.Config.{Config}
use cloud_resource_manager.External.{Doubles}
use cloud_resource_manager.Domain.Types.{Uuid}
use cloud_resource_manager.Postgres.Db.{World}
use cloud_resource_manager.Redis.{Server}
use cloud_resource_manager.Deployment.{production}
use cloud_resource_manager.Service.Input.{CreateInput, Codecs}
use cloud_resource_manager.Service.Create
use cloud_resource_manager.Service.Lifecycle
use cloud_resource_manager.Service.Sweep
use cloud_resource_manager.Ledger.Sums.{Balanced}
use cloud_resource_manager.Ledger.Invariant.{Balanced-Invariant}
use cloud_resource_manager.Ledger.Operations
use cloud_resource_manager.Ledger.Creation

module _ {F R : Type 0} (D : Doubles F) (text_le : String → String → Bool) (server : Server R)
    (C : Codecs F) (cfg : Config) (w : World F R) where
  -- From a balanced ledger CreateRequest leaves a balanced ledger, whether it reserves, rejects,
  -- replays an earlier request or fails, and whichever statements fail.
  pub create_request-Balanced :
      (i : CreateInput)
      → Balanced w.db
      → Balanced (Create.create_request (production D text_le server) C cfg i w).1.db
  create_request-Balanced i =
      (Creation.create_request-Invariant D text_le server C cfg
          (Balanced-Invariant D text_le server) i).at
        w

  -- From a balanced ledger Confirm leaves a balanced ledger, whether it returns or fails.
  pub confirm-Balanced :
      (id : Uuid)
      → Balanced w.db
      → Balanced (Lifecycle.confirm (production D text_le server) C id w).1.db
  confirm-Balanced id =
      (Operations.confirm-Invariant D text_le server C cfg (Balanced-Invariant D text_le server)
          id).at
        w

  -- From a balanced ledger Cancel leaves a balanced ledger, whether it returns or fails.
  pub cancel-Balanced :
      (id : Uuid)
      → Balanced w.db
      → Balanced (Lifecycle.cancel (production D text_le server) id w).1.db
  cancel-Balanced id =
      (Operations.cancel-Invariant D text_le server C cfg (Balanced-Invariant D text_le server)
          id).at
        w

  -- From a balanced ledger a run of the sweeper leaves a balanced ledger, with or without the
  -- advisory lock and however many of its requests fail to expire.
  pub expire_due-Balanced :
      Balanced w.db → Balanced (Sweep.expire_due (production D text_le server) w).1.db
  expire_due-Balanced =
      (Operations.expire_due-Invariant D text_le server C cfg
          (Balanced-Invariant D text_le server)).at
        w
