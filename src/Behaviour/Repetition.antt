-- ===== src/Behaviour/Repetition.antt =====
-- internal/service/capacity.go: an operation that is asked for again.
use cloud_resource_manager.Base.{Bool, true, false, ◌≡◌, refl, none, some, String, ◌=ₛ◌, ◌==◌}
use cloud_resource_manager.Base.Action.{ok}
use cloud_resource_manager.Base.Table.{find}
use cloud_resource_manager.Config.{Config}
use cloud_resource_manager.External.{Doubles}
use cloud_resource_manager.Domain.Types.{Uuid, CapacityRequest, status_is, status_cancelled}
use cloud_resource_manager.Postgres.Db.{World, query, next_fault}
use cloud_resource_manager.Postgres.Requests.{get_request, find_by_idempotency, has_key}
use cloud_resource_manager.Redis.{
  Server, degrading_get_idempotent, degrading_set_idempotent, get_idempotent,
}
use cloud_resource_manager.Deployment.{production, on_redis}
use cloud_resource_manager.Service.Input.{CreateInput, Codecs}
use cloud_resource_manager.Service.Validate.{validate_create_input, compute_body_hash}
use cloud_resource_manager.Service.Create.{
  match_idempotent_body, remember, check_by_key, check_idempotent_replay, create_request,
}
use cloud_resource_manager.Service.Lifecycle.{cancel}

module _ {F R : Type 0} (D : Doubles F) (text_le : String → String → Bool) (server : Server R) where
  -- Cancel of a request that is CANCELLED returns it, where its read does not fail, and leaves the
  -- tables as they are.
  pub cancel-cancelled :
      (id : Uuid) (r : CapacityRequest) (w : World F R)
      → next_fault w.faults ≡ false
      → find (λ x. x.id == id) w.db.requests ≡ some r
      → status_is r.status status_cancelled ≡ true
      → ((cancel (production D text_le server) id w).0 ≡ ok (some r))
        × ((cancel (production D text_le server) id w).1.db ≡ w.db)
  unfolding cancel get_request query
  cancel-cancelled id r w n f s = (rw (n, f, s) refl, rw (n, f, s) refl)

  module _ (C : Codecs F) (cfg : Config) where
    -- CreateRequest for a customer's key that the table has, with a body that matches the request
    -- there, returns that request and leaves the tables as they are: where the input is valid and
    -- carries a customer, a key and a correlation id, Redis does not know the key, and the read does
    -- not fail.
    pub create_request-replays :
        (i : CreateInput) (r : CapacityRequest) (w : World F R)
        → (i.idempotency_key =ₛ "") ≡ false
        → (i.customer_id =ₛ "") ≡ false
        → (i.correlation_id =ₛ "") ≡ false
        → validate_create_input i ≡ ok tt
        → (get_idempotent server i.customer_id i.idempotency_key w.redis).0 ≡ ok none
        → next_fault w.faults ≡ false
        → find (has_key i.customer_id i.idempotency_key) w.db.requests ≡ some r
        → match_idempotent_body C r (compute_body_hash C i) ≡ ok r
        → ((create_request (production D text_le server) C cfg i w).0 ≡ ok r)
          × ((create_request (production D text_le server) C cfg i w).1.db ≡ w.db)
    unfolding create_request check_idempotent_replay check_by_key find_by_idempotency query on_redis
        degrading_get_idempotent degrading_set_idempotent get_idempotent remember
    create_request-replays i r w k c o v g n f m =
        (rw (k, c, o, v, g, n, f, m) refl, rw (k, c, o, v, g, n, f, m) refl)
