-- ===== src/Http/Middleware.antt =====
-- internal/observability/metrics.go, Middleware: the request id, and what is observed of a request
-- that another handler serves. The in-flight gauge goes up and down again; the latency is left out,
-- and so is the log.
use cloud_resource_manager.Base.{ℕ, String, ◌=ₛ◌, ◌==◌, if◌then◌else◌}
use cloud_resource_manager.Base.Action.{Result, ok, err}
use cloud_resource_manager.Domain.Types.{Uuid}
use cloud_resource_manager.Domain.Errors.{Error}
use cloud_resource_manager.Ports.{Ports}
use cloud_resource_manager.Service.Input.{Codecs}
use cloud_resource_manager.Http.Messages.{HttpRequest, Response}
use cloud_resource_manager.Http.Handler.{Handles}

-- The labels of http_requests_total, and the request id that the response's header carries.
pub record Observed : Type 0 where
  pub request_id : String
  pub method : String
  pub route : String
  pub status : ℕ

module _ {F S : Type 0} (P : Ports F S) (C : Codecs F) where
  abbrev drawn_id : Result Error Uuid → String
  drawn_id (ok id) = C.uuid_text id
  drawn_id (err e) = ""

  -- `uuid.NewString()` where the request names no id.
  abbrev pub request_id_of : HttpRequest → S → String × S
  request_id_of r s =
      if r.request_id =ₛ ""
      then (drawn_id (P.new_uuid s).0, (P.new_uuid s).1)
      else (r.request_id, s)

  -- A handler that writes no status writes 200.
  abbrev pub written_status : ℕ → ℕ
  written_status status = if status == 0 then 200 else status

  -- `next` is served the request as it came: the new id goes into its context only.
  unfoldable pub middleware :
      (HttpRequest → Handles F S) → HttpRequest → S → (Observed × Response F) × S
  middleware next r s =
      let (rid, s') = request_id_of r s in
      let (response, s'') = next r s' in
      (
        (
          record {
            request_id = rid;
            method = r.method;
            route = r.path;
            status = written_status response.status;
          },
          response,
        ),
        s'',
      )
