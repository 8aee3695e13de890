-- ===== src/Tests/Running.antt =====
-- The running program at concrete inputs: requests over HTTP, the sweeper's loop, and Redis.
use cloud_resource_manager.Base.{◌≡◌, refl, none, some, [], ◌∷◌, ◌==◌}
use cloud_resource_manager.Base.Int.{ℤ, pos}
use cloud_resource_manager.Base.Action.{ok}
use cloud_resource_manager.Domain.Types.{
  CapacityRequest, status_reserved, status_completed, status_cancelled,
}
use cloud_resource_manager.Postgres.Db.{World}
use cloud_resource_manager.Postgres.Requests.{set_status}
use cloud_resource_manager.Base.Table.{find}
use cloud_resource_manager.Redis.{Server, get_idempotent, idem_key}
use cloud_resource_manager.Deployment.{production}
use cloud_resource_manager.Service.Input.{Codecs}
use cloud_resource_manager.Service.Validate.{validate_create_input, compute_body_hash}
use cloud_resource_manager.Service.Create.{create_request, match_idempotent_body}
use cloud_resource_manager.Service.Lifecycle.{cancel}
use cloud_resource_manager.Http.Messages.{HttpRequest, Wire}
use cloud_resource_manager.Http.Handler.{Checks, ready}
use cloud_resource_manager.Http.Routes.{
  serve, post_requests, get_products, get_capacity, get_requests, get_request_by_id, post_confirm,
  post_cancel, post_extend,
}
use cloud_resource_manager.Http.Unknown.{serve-unknown_id}
use cloud_resource_manager.Ledger.Sums.{Balanced}
use cloud_resource_manager.Capacity.Statements.{Sound}
use cloud_resource_manager.Behaviour.Unique.{UniqueKeys}
use cloud_resource_manager.Behaviour.Permanence.{Stored}
use cloud_resource_manager.Behaviour.Collision.{create_request-collides}
use cloud_resource_manager.Behaviour.Completion.Cancelling.{cancel-Completes, cancel-twice}
use cloud_resource_manager.Behaviour.Completion.{MeetsChecks}
use cloud_resource_manager.Runtime.Loop.{stop, tick, run_sweeper_loop}
use cloud_resource_manager.Runtime.Steps.{Reach, served, here, next, request, sweeper}
use cloud_resource_manager.Runtime.Safety.{Harmless}
use cloud_resource_manager.Runtime.Reached.{Reach-Consistent, Reach-Stored}
use cloud_resource_manager.Runtime.Queries.{serve-reads}
use cloud_resource_manager.Tests.Sample.{doubles, server, ports, codecs, config, order}
use cloud_resource_manager.Tests.Facts.{
  collation, start, exact, tables-Sound, tables-Balanced, request_in, world_with,
}

abbrev wire : Wire
wire = record {
  decode_body =
      λ s. some (record { customer_id = ""; product_id = "small"; quantity = pos 2; lines = [] });
  error_text = λ e. "error";
}

abbrev no_checks : Checks (World ℤ (Unit {0}))
no_checks = record { pg_health = none; cache = none; set_dependency = none }

no_checks-Harmless : Harmless no_checks
unfolding ready
no_checks-Harmless w = refl

abbrev post : HttpRequest
post = record {
  method = "POST";
  path = "/v1/requests";
  id = "";
  idempotency_key = "k";
  customer_header = "acme";
  request_id = "c";
  customer_query = "";
  status_query = "";
  body = "{}";
}

-- Behind a POST and two signals to the sweeper.
abbrev posted : World ℤ (Unit {0})
posted = served doubles collation server codecs config wire no_checks post_requests post start

abbrev swept : World ℤ (Unit {0})
swept = run_sweeper_loop ports (tick ∷ stop ∷ []) posted

swept-reached : Reach doubles collation server codecs config wire no_checks start swept
swept-reached =
    next (next here (request start post_requests post)) (sweeper posted (tick ∷ stop ∷ []))

Reach-Consistent_example : Sound doubles swept.db × Balanced swept.db × UniqueKeys swept.db
Reach-Consistent_example =
    Reach-Consistent doubles collation server codecs config wire no_checks no_checks-Harmless exact
      swept-reached tables-Sound tables-Balanced tt

abbrev completed : World ℤ (Unit {0})
completed = world_with status_completed

abbrev swept_completed : World ℤ (Unit {0})
swept_completed = run_sweeper_loop ports (tick ∷ []) completed

completed-Stored : Stored (request_in status_completed) completed.db.requests
completed-Stored = (refl, (λ e. (refl, λ n. refl), tt))

Reach-Stored_example : Stored (request_in status_completed) swept_completed.db.requests
Reach-Stored_example =
    Reach-Stored doubles collation server codecs config wire no_checks no_checks-Harmless
      (request_in status_completed) (next here (sweeper completed (tick ∷ []))) completed-Stored

reserved-MeetsChecks : MeetsChecks (world_with status_reserved).db
reserved-MeetsChecks = record { pools_nonneg = refl; quotas_within = refl; holds_nonneg = refl }

cancel-Completes_example :
    (w' : World ℤ (Unit {0})) × (cancel ports 5 (world_with status_reserved)
      ≡ (ok (some (set_status status_cancelled (pos 1000) (request_in status_reserved))), w'))
    × (find (λ x. x.id == 5) w'.db.requests
        ≡ some (set_status status_cancelled (pos 1000) (request_in status_reserved)))
cancel-Completes_example =
    cancel-Completes doubles collation server 5 (request_in status_reserved)
      (world_with status_reserved) refl reserved-MeetsChecks refl refl refl

cancel-twice_example :
    ((cancel ports 5 (cancel ports 5 (world_with status_reserved)).1).0
      ≡ (cancel ports 5 (world_with status_reserved)).0)
    × ((cancel ports 5 (cancel ports 5 (world_with status_reserved)).1).1.db
        ≡ (cancel ports 5 (world_with status_reserved)).1.db)
cancel-twice_example =
    cancel-twice doubles collation server 5 (request_in status_reserved)
      (world_with status_reserved) refl reserved-MeetsChecks refl refl refl

serve-reads_example :
    ((serve ports codecs doubles config wire no_checks get_products post start).1.db ≡ start.db)
    × ((serve ports codecs doubles config wire no_checks get_capacity post start).1.db ≡ start.db)
    × ((serve ports codecs doubles config wire no_checks get_requests post start).1.db ≡ start.db)
    × ((serve ports codecs doubles config wire no_checks get_request_by_id post start).1.db
        ≡ start.db)
serve-reads_example = serve-reads doubles collation server codecs config wire no_checks post start

-- Texts of identifiers that parse.
abbrev parsing : Codecs ℤ
parsing = record codecs { uuid_parse = λ s. some 5 }

serve-unknown_id_example :
    (((serve ports parsing doubles config wire no_checks get_request_by_id post start).0.status
        ≡ 404)
      × ((serve ports parsing doubles config wire no_checks get_request_by_id post start).1.db
          ≡ start.db))
    × (((serve ports parsing doubles config wire no_checks post_confirm post start).0.status ≡ 404)
        × ((serve ports parsing doubles config wire no_checks post_confirm post start).1.db
            ≡ start.db))
    × (((serve ports parsing doubles config wire no_checks post_cancel post start).0.status ≡ 404)
        × ((serve ports parsing doubles config wire no_checks post_cancel post start).1.db
            ≡ start.db))
    × (((serve ports parsing doubles config wire no_checks post_extend post start).0.status ≡ 404)
        × ((serve ports parsing doubles config wire no_checks post_extend post start).1.db
            ≡ start.db))
serve-unknown_id_example =
    serve-unknown_id doubles collation server parsing config wire no_checks post 5 start refl refl
      refl

-- Redis knows the key `c` of the customer `acme:b`.
abbrev knowing : Server (Unit {0})
knowing = record server { get = λ k r. (ok (some "id"), r) }

abbrev foreign : CapacityRequest
foreign = record (request_in status_reserved) { customer_id = "acme:b"; idempotency_key = "c" }

abbrev with_foreign : World ℤ (Unit {0})
with_foreign = record start { db = record start.db { requests = foreign ∷ [] } }

create_request-collides_example :
    (create_request
      (production doubles collation knowing)
      parsing
      config
      (order "b:c")
      with_foreign).0
    ≡ ok foreign
unfolding validate_create_input match_idempotent_body get_idempotent idem_key compute_body_hash
create_request-collides_example =
    create_request-collides doubles collation knowing parsing config (order "b:c") foreign 5 "id"
      "b" "c" with_foreign refl refl refl refl refl refl refl refl refl refl
