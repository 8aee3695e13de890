-- ===== src/Http/Messages.antt =====
-- internal/httpapi/handler.go: what a handler reads of a request, the responses, and how an error
-- becomes one. A response's body is the value that the JSON encoder is given.
use cloud_resource_manager.Base.{ℕ, Bool, Option, none, some, List, [], ◌∷◌, String}
use cloud_resource_manager.Base.Int.{ℤ}
use cloud_resource_manager.Domain.Types.{
  Product, CapacityRequest, RequestLine, RequestEvent, Reason, insufficient_capacity,
  quota_exceeded, invalid_resource_kind, product_not_found, missing_idempotency, expired,
  extension_limit, not_found, conflict, unavailable, not_implemented, idempotency_key_reused,
  too_many_active_holds, invalid_input,
}
use cloud_resource_manager.Domain.Errors.{Error, AppError, Details, text, as_app_error}
use cloud_resource_manager.Service.Input.{LineInput, CapacityView}

-- A header or a query parameter that is not there is "". `id` is the path's, and `body` the bytes.
pub record HttpRequest : Type 0 where
  pub method : String
  pub path : String
  pub id : String
  pub idempotency_key : String
  pub customer_header : String
  pub request_id : String
  pub customer_query : String
  pub status_query : String
  pub body : String

pub record CreateBody : Type 0 where
  pub customer_id : String
  pub product_id : String
  pub quantity : ℤ
  pub lines : List LineInput

-- The library calls: encoding/json on a body, and the text of an error.
pub record Wire : Type 0 where
  pub decode_body : String → Option CreateBody
  pub error_text : Error → String

pub data Body (F : Type 0) : Type 0 where
  health_body : Body F
  ready_body : Bool → Bool → String → Body F
  products_body : List Product → Body F
  capacity_body : List (CapacityView F) → Body F
  request_body : Option CapacityRequest → Body F
  requests_body : List CapacityRequest → Body F
  detail_body : CapacityRequest → List RequestLine → List RequestEvent → Body F
  error_body : Reason → String → Option Details → Body F

-- `retry_after` is the header of that name.
pub record Response (F : Type 0) : Type 0 where
  pub status : ℕ
  pub retry_after : Option String
  pub body : Body F

module _ {F : Type 0} where
  abbrev pub write_json : ℕ → Body F → Response F
  write_json status body = record { status = status; retry_after = none; body = body }

  abbrev pub write_error : ℕ → Reason → String → Option Details → Response F
  write_error status reason message details = write_json status (error_body reason message details)

unfoldable pub status_for_reason : Reason → ℕ
status_for_reason missing_idempotency = 400
status_for_reason invalid_resource_kind = 400
status_for_reason conflict = 400
status_for_reason invalid_input = 400
status_for_reason product_not_found = 404
status_for_reason not_found = 404
status_for_reason insufficient_capacity = 409
status_for_reason quota_exceeded = 409
status_for_reason expired = 409
status_for_reason extension_limit = 409
status_for_reason idempotency_key_reused = 409
status_for_reason too_many_active_holds = 409
status_for_reason unavailable = 503
status_for_reason not_implemented = 500

abbrev write_app : {F : Type 0} → Wire → Error → Option AppError → Response F
write_app W e (some a) = write_error (status_for_reason a.reason) a.reason a.message a.details
write_app W e none =
    write_error 503 unavailable "dependency error" (some (("err", text (W.error_text e)) ∷ []))

unfoldable pub write_err : {F : Type 0} → Wire → Error → Response F
unfolding status_for_reason as_app_error
write_err W e = write_app W e (as_app_error e)
