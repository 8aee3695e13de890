-- ===== src/Tests/Runs.antt =====
-- Whole operations, run.
use cloud_resource_manager.Base.{List, []}
use cloud_resource_manager.Base.Int.{ℤ}
use cloud_resource_manager.Base.Action.{Result}
use cloud_resource_manager.Domain.Types.{CapacityRequest}
use cloud_resource_manager.Postgres.Db.{World}
use cloud_resource_manager.Service.Create.{create_request}
use cloud_resource_manager.Tests.Sample.{ports, codecs, config, order, world_of, tables}

created : Result cloud_resource_manager.Domain.Errors.Error CapacityRequest × World ℤ (Unit {0})
created = create_request ports codecs config (order "k") (world_of tables [])

held_requests : List CapacityRequest
held_requests = cloud_resource_manager.Tests.Facts.held.db.requests
