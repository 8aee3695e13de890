-- ===== src/Http/Routes.antt =====
-- internal/httpapi/handler.go, Routes: which handler serves which route. The matching of paths and
-- the handler of /metrics are a library's.
use cloud_resource_manager.Config.{Config}
use cloud_resource_manager.External.{Doubles}
use cloud_resource_manager.Ports.{Ports}
use cloud_resource_manager.Service.Input.{Codecs}
use cloud_resource_manager.Http.Messages.{HttpRequest, Wire}
use cloud_resource_manager.Http.Handler.{
  Checks, Handles, health, ready, list_products, list_capacity, create_request, list_requests,
  get_request, confirm, cancel, extend,
}

pub data Route : Type 0 where
  get_health get_ready get_products get_capacity post_requests get_requests get_request_by_id :
      Route
  post_confirm post_cancel post_extend : Route

module _ {F S : Type 0} (P : Ports F S) (C : Codecs F) (D : Doubles F) (cfg : Config) (W : Wire)
    (checks : Checks S) where
  unfoldable pub serve : Route → HttpRequest → Handles F S
  serve get_health r = health
  serve get_ready r = ready checks
  serve get_products r = list_products P C D cfg W
  serve get_capacity r = list_capacity P C D cfg W r
  serve post_requests r = create_request P C D cfg W r
  serve get_requests r = list_requests P C D cfg W r
  serve get_request_by_id r = get_request P C D cfg W r
  serve post_confirm r = confirm P C D cfg W r
  serve post_cancel r = cancel P C D cfg W r
  serve post_extend r = extend P C D cfg W r
