-- ===== src/Runtime/Queries.antt =====
-- internal/httpapi/handler.go: the routes that only read.
use cloud_resource_manager.Base.{◌≡◌, refl, Bool, String}
use cloud_resource_manager.Config.{Config}
use cloud_resource_manager.External.{Doubles}
use cloud_resource_manager.Postgres.Db.{World}
use cloud_resource_manager.Redis.{Server}
use cloud_resource_manager.Deployment.{production}
use cloud_resource_manager.Service.Input.{Codecs}
use cloud_resource_manager.Http.Messages.{HttpRequest, Wire}
use cloud_resource_manager.Http.Handler.{Checks}
use cloud_resource_manager.Http.Routes.{
  serve, get_products, get_capacity, get_requests, get_request_by_id,
}
use cloud_resource_manager.Runtime.Safety.{reads-Holds}

module _ {F R : Type 0} (D : Doubles F) (text_le : String → String → Bool) (server : Server R)
    (C : Codecs F) (cfg : Config) (W : Wire) (checks : Checks (World F R)) where
  -- GET of the products, the capacity, the requests and one request leaves the tables as they are,
  -- whatever it answers and whichever statements fail.
  pub serve-reads :
      (r : HttpRequest) (w : World F R)
      → ((serve (production D text_le server) C D cfg W checks get_products r w).1.db ≡ w.db)
        × ((serve (production D text_le server) C D cfg W checks get_capacity r w).1.db ≡ w.db)
        × ((serve (production D text_le server) C D cfg W checks get_requests r w).1.db ≡ w.db)
        × ((serve (production D text_le server) C D cfg W checks get_request_by_id r w).1.db ≡ w.db)
  serve-reads r w = reads-Holds D text_le server C cfg W (λ d. d ≡ w.db) checks r w refl
