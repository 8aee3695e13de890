-- ===== src/Http/Handler.antt =====
-- internal/httpapi/handler.go: the handlers. A handler maps a request and the state of the stores
-- to a response and a state.
use cloud_resource_manager.Base.{
  Bool, true, false, Option, none, some, [], String, ◌=ₛ◌, if◌then◌else◌,
}
use cloud_resource_manager.Base.Action.{Result, ok, err, Action}
use cloud_resource_manager.Config.{Config}
use cloud_resource_manager.External.{Doubles}
use cloud_resource_manager.Domain.Types.{
  Uuid, CapacityRequest, RequestStatus, status_is, status_reserved, status_rejected,
  status_completed, status_cancelled, status_expired, missing_idempotency, conflict,
}
use cloud_resource_manager.Domain.Errors.{Error}
use cloud_resource_manager.Ports.{M, Ports}
use cloud_resource_manager.Service.Input.{CreateInput, Codecs}
use cloud_resource_manager.Service.Create
use cloud_resource_manager.Service.Lifecycle
use cloud_resource_manager.Service.Read
use cloud_resource_manager.Http.Messages.{
  HttpRequest, CreateBody, Wire, Response, health_body, ready_body, products_body, capacity_body,
  request_body, requests_body, detail_body, write_json, write_error, write_err,
}

-- The handler's fields that may be nil: the checks of Postgres and of the cache, and the gauge.
pub record Checks (S : Type 0) : Type 0 where
  pub pg_health : Option (Action Error S (Unit {0}))
  pub cache : Option (Action Error S (Unit {0}))
  pub set_dependency : Option (String → Bool → S → S)

abbrev pub Handles : Type 0 → Type 0 → Type 0
Handles F S = S → Response F × S

unfoldable pub health : {F S : Type 0} → Handles F S
health s = (write_json 200 health_body, s)

abbrev pub came_back : Result Error (Unit {0}) → Bool
came_back (ok _) = true
came_back (err e) = false

abbrev pub ready_answer : {F : Type 0} → Bool → Bool → Response F
ready_answer true redis_ok = write_json 200 (ready_body true redis_ok "ready")
ready_answer false redis_ok = record {
  status = 503;
  retry_after = some "5";
  body = ready_body false redis_ok "not_ready";
}

module _ {S : Type 0} where
  -- A check that is nil counts as passed.
  abbrev pub passes : Option (Action Error S (Unit {0})) → S → Bool × S
  passes none s = (true, s)
  passes (some ping) s = (came_back (ping s).0, (ping s).1)

  abbrev gauge : Option (String → Bool → S → S) → Bool → Bool → S → S
  gauge none pg_ok redis_ok s = s
  gauge (some set) pg_ok redis_ok s = set "redis" redis_ok (set "postgres" pg_ok s)

  unfoldable pub ready : {F : Type 0} → Checks S → Handles F S
  ready checks s =
      let (pg_ok, s') = passes checks.pg_health s in
      let (redis_ok, s'') = passes checks.cache s' in
      (ready_answer pg_ok redis_ok, gauge checks.set_dependency pg_ok redis_ok s'')

abbrev pub or_header : String → String → String
or_header value header = if value =ₛ "" then header else value

-- `domain.RequestStatus(s)`; `some none` stands for a text that is the status of no row.
abbrev pub status_of_text : String → Option (Option RequestStatus)
status_of_text s =
    if s =ₛ ""
    then none
    else some (
        if s =ₛ "RESERVED"
        then some status_reserved
        else (if s =ₛ "REJECTED"
            then some status_rejected
            else (if s =ₛ "COMPLETED"
                then some status_completed
                else (if s =ₛ "CANCELLED"
                    then some status_cancelled
                    else (if s =ₛ "EXPIRED" then some status_expired else none)))))

module _ {F S : Type 0} (P : Ports F S) (C : Codecs F) (D : Doubles F) (cfg : Config)
    (W : Wire) where
  -- An error of the service, or a 200 with its result.
  abbrev pub answer : {A : Type 0} → (A → Response F) → Result Error A → Response F
  answer f (ok a) = f a
  answer f (err e) = write_err W e

  abbrev pub responding : {A : Type 0} → (A → Response F) → M S A → Handles F S
  responding f m s = (answer f (m s).0, (m s).1)

  unfoldable pub list_products : Handles F S
  list_products = responding (λ ps. write_json 200 (products_body ps)) (Read.list_products P)

  unfoldable pub list_capacity : HttpRequest → Handles F S
  list_capacity r =
      responding (λ vs. write_json 200 (capacity_body vs))
        (Read.list_capacity P C D cfg (or_header r.customer_query r.customer_header))

  abbrev pub create_input : HttpRequest → CreateBody → CreateInput
  create_input r b = record {
    customer_id = or_header b.customer_id r.customer_header;
    idempotency_key = r.idempotency_key;
    product_code = b.product_id;
    quantity = b.quantity;
    lines = b.lines;
    correlation_id = r.request_id;
  }

  abbrev pub created : CapacityRequest → Response F
  created r =
      write_json (if status_is r.status status_rejected then 409 else 201) (request_body (some r))

  abbrev pub create_decoded : HttpRequest → Option CreateBody → Handles F S
  create_decoded r none s = (write_error 400 conflict "invalid JSON body" none, s)
  create_decoded r (some b) s =
      responding created (Create.create_request P C cfg (create_input r b)) s

  unfoldable pub create_request : HttpRequest → Handles F S
  create_request r s =
      if r.idempotency_key =ₛ ""
      then (write_error 400 missing_idempotency "Idempotency-Key header is required" none, s)
      else create_decoded r (W.decode_body r.body) s

  -- Under a text that is the status of no row the query finds none.
  abbrev pub listed : String → Option (Option RequestStatus) → Handles F S
  listed customer_id none =
      responding (λ rs. write_json 200 (requests_body rs)) (Read.list_requests P customer_id none)
  listed customer_id (some none) =
      responding (λ _. write_json 200 (requests_body [])) (Read.list_requests P customer_id none)
  listed customer_id (some (some status)) =
      responding (λ rs. write_json 200 (requests_body rs))
        (Read.list_requests P customer_id (some status))

  unfoldable pub list_requests : HttpRequest → Handles F S
  list_requests r s =
      let customer_id = or_header r.customer_query r.customer_header in
      if customer_id =ₛ ""
      then (write_error 400 conflict "customer_id required" none, s)
      else listed customer_id (status_of_text r.status_query) s

  -- `idParam`: the handler behind it is given the id.
  abbrev pub with_id : Option Uuid → (Uuid → Handles F S) → Handles F S
  with_id none k s = (write_error 400 conflict "invalid request id" none, s)
  with_id (some id) k s = k id s

  unfoldable pub get_request : HttpRequest → Handles F S
  get_request r = with_id (C.uuid_parse r.id) (λ id.
      responding (λ (x, ls, es). write_json 200 (detail_body x ls es)) (Read.get_request P id))

  unfoldable pub confirm : HttpRequest → Handles F S
  confirm r =
      with_id (C.uuid_parse r.id)
        (λ id. responding (λ x. write_json 200 (request_body x)) (Lifecycle.confirm P C id))

  unfoldable pub cancel : HttpRequest → Handles F S
  cancel r =
      with_id (C.uuid_parse r.id)
        (λ id. responding (λ x. write_json 200 (request_body x)) (Lifecycle.cancel P id))

  unfoldable pub extend : HttpRequest → Handles F S
  extend r =
      with_id (C.uuid_parse r.id)
        (λ id. responding (λ x. write_json 200 (request_body x)) (Lifecycle.extend P cfg id))
