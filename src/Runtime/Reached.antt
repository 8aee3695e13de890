-- ===== src/Runtime/Reached.antt =====
-- The accounts and the requests of the program as it runs.
use cloud_resource_manager.Base.{Bool, String}
use cloud_resource_manager.Config.{Config}
use cloud_resource_manager.External.{Doubles}
use cloud_resource_manager.Domain.Types.{CapacityRequest}
use cloud_resource_manager.Postgres.Db.{World}
use cloud_resource_manager.Redis.{Server}
use cloud_resource_manager.Service.Input.{Codecs}
use cloud_resource_manager.Http.Messages.{Wire}
use cloud_resource_manager.Http.Handler.{Checks}
use cloud_resource_manager.Ledger.Sums.{Balanced}
use cloud_resource_manager.Ledger.Invariant.{Balanced-Invariant}
use cloud_resource_manager.Capacity.Room.{Exact}
use cloud_resource_manager.Capacity.Statements.{Sound}
use cloud_resource_manager.Capacity.Transactions.{Sound-Invariant}
use cloud_resource_manager.Behaviour.Unique.{UniqueKeys}
use cloud_resource_manager.Behaviour.Idempotency.{Unique-Invariant}
use cloud_resource_manager.Behaviour.RowOperations.{Rows-Invariant}
use cloud_resource_manager.Behaviour.Permanence.{Stored, Stored-Closed}
use cloud_resource_manager.Runtime.Steps.{Reach}
use cloud_resource_manager.Runtime.Safety.{Harmless, Reach-Invariant}

module _ {F R : Type 0} (D : Doubles F) (text_le : String → String → Bool) (server : Server R)
    (C : Codecs F) (cfg : Config) (W : Wire) (checks : Checks (World F R))
    (harmless : Harmless checks) where
  -- With doubles that are exact on whole numbers below 2^53 and checks of readiness that leave the
  -- tables: from sound tables with a balanced ledger, where no two requests have one id or one
  -- customer and key, every world that requests over HTTP, runs of the sweeper's loop and changes
  -- outside the tables reach, in any order, has sound tables with a balanced ledger, where no two
  -- requests have one id or one customer and key.
  pub Reach-Consistent :
      Exact D
      → {w w' : World F R} → Reach D text_le server C cfg W checks w w'
      → Sound D w.db
      → Balanced w.db
      → UniqueKeys w.db
      → Sound D w'.db × Balanced w'.db × UniqueKeys w'.db
  Reach-Consistent X reach s b u = (
    Reach-Invariant D text_le server C cfg W checks harmless (Sound-Invariant D text_le server X)
        reach s,
    Reach-Invariant D text_le server C cfg W checks harmless (Balanced-Invariant D text_le server)
        reach b,
    Reach-Invariant D text_le server C cfg W checks harmless (Unique-Invariant D text_le server)
        reach u,
  )

  -- With checks of readiness that leave the tables: a request that the table has, under no other
  -- row's id, is in every world that requests over HTTP, runs of the sweeper's loop and changes
  -- outside the tables reach, in any order; its id, customer, key, body hash, product, quantity,
  -- reject reason, correlation id and creation are the same there, and so is its status if that is
  -- not RESERVED.
  pub Reach-Stored :
      (r : CapacityRequest) {w w' : World F R}
      → Reach D text_le server C cfg W checks w w'
      → Stored r w.db.requests
      → Stored r w'.db.requests
  Reach-Stored r reach s =
      Reach-Invariant D text_le server C cfg W checks harmless
        (Rows-Invariant D text_le server (Stored-Closed r)) reach s
