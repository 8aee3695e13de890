-- ===== src/Tests/Recording.antt =====
-- A request that CreateRequest replays, and its row.
use cloud_resource_manager.Base.{refl}
use cloud_resource_manager.Domain.Types.{status_reserved}
use cloud_resource_manager.Redis.{get_idempotent}
use cloud_resource_manager.Service.Validate.{validate_create_input, compute_body_hash}
use cloud_resource_manager.Service.Create.{create_request, match_idempotent_body}
use cloud_resource_manager.Behaviour.Repetition.{create_request-replays}
use cloud_resource_manager.Behaviour.Recorded.{Recorded}
use cloud_resource_manager.Behaviour.Recorded.Replaying.{create_request-Recorded}
use cloud_resource_manager.Tests.Sample.{doubles, server, ports, codecs, config, order}
use cloud_resource_manager.Tests.Facts.{collation, request_in, world_with}

create_request-Recorded_example :
    Recorded
      (request_in status_reserved)
      (create_request ports codecs config (order "k") (world_with status_reserved)).1.db.requests
unfolding validate_create_input match_idempotent_body get_idempotent compute_body_hash
create_request-Recorded_example =
    create_request-Recorded doubles collation server codecs config (order "k")
      (world_with status_reserved) (request_in status_reserved)
      (create_request-replays doubles collation server codecs config (order "k")
        (request_in status_reserved) (world_with status_reserved) refl refl refl refl refl refl refl
        refl).0
