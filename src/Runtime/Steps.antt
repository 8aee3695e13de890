-- ===== src/Runtime/Steps.antt =====
-- The steps of the running program, as a relation between worlds: a request over HTTP through the
-- middleware of internal/observability/metrics.go and the routes of internal/httpapi/handler.go, a
-- run of the loop of internal/fxmodules/modules.go, and changes outside the tables, such as time
-- that passes, statements that are to fail, a lock that another session takes, and keys that Redis
-- forgets.
use cloud_resource_manager.Base.{Bool, ◌≡◌, List, String}
use cloud_resource_manager.Config.{Config}
use cloud_resource_manager.External.{Doubles}
use cloud_resource_manager.Postgres.Db.{World}
use cloud_resource_manager.Redis.{Server}
use cloud_resource_manager.Deployment.{production}
use cloud_resource_manager.Service.Input.{Codecs}
use cloud_resource_manager.Http.Messages.{HttpRequest, Wire}
use cloud_resource_manager.Http.Handler.{Checks}
use cloud_resource_manager.Http.Routes.{Route, serve}
use cloud_resource_manager.Http.Middleware.{middleware}
use cloud_resource_manager.Runtime.Loop.{Signal, run_sweeper_loop}

module _ {F R : Type 0} (D : Doubles F) (text_le : String → String → Bool) (server : Server R)
    (C : Codecs F) (cfg : Config) (W : Wire) (checks : Checks (World F R)) where
  -- The world behind a request.
  abbrev pub served : Route → HttpRequest → World F R → World F R
  served route r w =
      let P = production D text_le server in (middleware P C (serve P C D cfg W checks route) r w).1

  pub data Step : World F R → World F R → Type 0 where
    request : (w : World F R) (route : Route) (r : HttpRequest) → Step w (served route r w)
    sweeper :
        (w : World F R) (signals : List Signal)
        → Step w (run_sweeper_loop (production D text_le server) signals w)
    outside : (w w' : World F R) → w'.db ≡ w.db → Step w w'

  pub data Reach (w : World F R) : World F R → Type 0 where
    here : Reach w w
    next : {v u : World F R} → Reach w v → Step v u → Reach w u
