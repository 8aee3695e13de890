-- ===== src/Http/Unknown.antt =====
-- internal/httpapi/handler.go: ids that name no request.
use cloud_resource_manager.Base.{◌≡◌, refl, false, none, some, String, ◌==◌, Bool}
use cloud_resource_manager.Base.Table.{find}
use cloud_resource_manager.Config.{Config}
use cloud_resource_manager.External.{Doubles}
use cloud_resource_manager.Domain.Types.{Uuid}
use cloud_resource_manager.Domain.Errors.{as_app_error}
use cloud_resource_manager.Postgres.Db.{World, next_fault, query}
use cloud_resource_manager.Postgres.Requests
use cloud_resource_manager.Redis.{Server}
use cloud_resource_manager.Deployment.{production}
use cloud_resource_manager.Service.Input.{Codecs}
use cloud_resource_manager.Service.Lifecycle
use cloud_resource_manager.Service.Read
use cloud_resource_manager.Http.Messages.{HttpRequest, Wire, status_for_reason, write_err}
use cloud_resource_manager.Http.Handler.{Checks, get_request, confirm, cancel, extend}
use cloud_resource_manager.Http.Routes.{
  serve, get_request_by_id, post_confirm, post_cancel, post_extend,
}

module _ {F R : Type 0} (D : Doubles F) (text_le : String → String → Bool) (server : Server R)
    (C : Codecs F) (cfg : Config) (W : Wire) (checks : Checks (World F R)) where
  -- GET /requests/{id} and the POSTs that confirm, cancel and extend answer 404 and leave the tables,
  -- where the path's id parses, the table has no request of that id, and the read does not fail.
  pub serve-unknown_id :
      (r : HttpRequest) (id : Uuid) (w : World F R)
      → C.uuid_parse r.id ≡ some id
      → next_fault w.faults ≡ false
      → find (λ x. x.id == id) w.db.requests ≡ none
      → (((serve (production D text_le server) C D cfg W checks get_request_by_id r w).0.status
            ≡ 404)
          × ((serve (production D text_le server) C D cfg W checks get_request_by_id r w).1.db
              ≡ w.db))
        × (((serve (production D text_le server) C D cfg W checks post_confirm r w).0.status ≡ 404)
            × ((serve (production D text_le server) C D cfg W checks post_confirm r w).1.db ≡ w.db))
        × (((serve (production D text_le server) C D cfg W checks post_cancel r w).0.status ≡ 404)
            × ((serve (production D text_le server) C D cfg W checks post_cancel r w).1.db ≡ w.db))
        × (((serve (production D text_le server) C D cfg W checks post_extend r w).0.status ≡ 404)
            × ((serve (production D text_le server) C D cfg W checks post_extend r w).1.db ≡ w.db))
  unfolding serve get_request confirm cancel extend Lifecycle.confirm Lifecycle.cancel
      Lifecycle.extend Read.get_request Requests.get_request query write_err status_for_reason
      as_app_error
  serve-unknown_id r id w p n f = (
    (rw (p, n, f) refl, rw (p, n, f) refl),
    (rw (p, n, f) refl, rw (p, n, f) refl),
    (rw (p, n, f) refl, rw (p, n, f) refl),
    (rw (p, n, f) refl, rw (p, n, f) refl),
  )
