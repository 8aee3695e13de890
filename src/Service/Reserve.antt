-- ===== src/Service/Reserve.antt =====
-- internal/service/capacity.go: the reservation transaction and the rows that it makes.
use cloud_resource_manager.Base.{not, Option, none, some, List, [], ◌∷◌, String}
use cloud_resource_manager.Base.Int.{pos}
use cloud_resource_manager.Base.Action.{Result, ok, err, pure, fail_if, ◌>>=◌, ◌>>◌}
use cloud_resource_manager.Domain.Types.{
  Uuid, Time, Product, CapacityRequest, RequestLine, Hold, status_reserved, hold_active,
  event_reserved, insufficient_capacity, quota_exceeded,
}
use cloud_resource_manager.Domain.Errors.{
  Error, Rejection, app, duplicate_request, invalid_transition, rejected, dependency, text, number,
}
use cloud_resource_manager.Ports.{M, Ports}
use cloud_resource_manager.Service.Input.{CreateInput, ReservationPlan, default_quota_limit}
use cloud_resource_manager.Service.Validate.{resolved_quantity}

abbrev pub no_capacity : ReservationPlan → Rejection
no_capacity p = record {
  reason = insufficient_capacity;
  message = "insufficient capacity";
  details = ("pool", text p.kind) ∷ ("requested", number p.amount) ∷ [];
}

abbrev pub no_quota : ReservationPlan → Rejection
no_quota p = record {
  reason = quota_exceeded;
  message = "quota exceeded";
  details = ("resource_kind", text p.kind) ∷ ("requested", number p.amount) ∷ [];
}

abbrev pub line_of : Uuid → Uuid → ReservationPlan → RequestLine
line_of id req_id p = record {
  id = id;
  request_id = req_id;
  pool_id = p.pool_id;
  kind = p.kind;
  amount = p.amount;
}

abbrev pub hold_of : Uuid → Uuid → Time → ReservationPlan → Hold
hold_of id req_id now p = record {
  id = id;
  request_id = req_id;
  pool_id = p.pool_id;
  amount = p.amount;
  status = hold_active;
  created_at = now;
  updated_at = now;
}

abbrev pub product_ref : Option Product → Option Uuid
product_ref none = none
product_ref (some p) = some p.id

abbrev pub reserved_request :
    Uuid → Option Product → CreateInput → Time → Time → String → CapacityRequest
reserved_request req_id product i now expires body_hash = record {
  id = req_id;
  customer_id = i.customer_id;
  idempotency_key = i.idempotency_key;
  body_hash = body_hash;
  product_id = product_ref product;
  quantity = resolved_quantity i;
  status = status_reserved;
  reject_reason = none;
  expires_at = some expires;
  extension_count = pos 0;
  correlation_id = i.correlation_id;
  created_at = now;
  updated_at = now;
}

-- How the transaction ends, but for an error.
pub data Outcome : Type 0 where
  reserved : CapacityRequest → Outcome
  refused : Rejection → Outcome

-- The branch on errRejected behind the transaction.
abbrev pub settle : {S : Type 0} → Result Error CapacityRequest × S → Result Error Outcome × S
settle (ok req, s) = (ok (reserved req), s)
settle (err (rejected x), s) = (ok (refused x), s)
settle (err (app e), s) = (err (app e), s)
settle (err duplicate_request, s) = (err duplicate_request, s)
settle (err (invalid_transition a b), s) = (err (invalid_transition a b), s)
settle (err (dependency e), s) = (err (dependency e), s)

module _ {F S : Type 0} (P : Ports F S) where
  unfoldable pub build_lines : Uuid → List ReservationPlan → M S (List RequestLine)
  build_lines req_id [] = pure []
  build_lines req_id (p ∷ ps) = do
    id ← P.new_uuid
    ls ← build_lines req_id ps
    pure (line_of id req_id p ∷ ls)

  unfoldable pub build_holds : Uuid → Time → List ReservationPlan → M S (List Hold)
  build_holds req_id now [] = pure []
  build_holds req_id now (p ∷ ps) = do
    id ← P.new_uuid
    hs ← build_holds req_id now ps
    pure (hold_of id req_id now p ∷ hs)

  unfoldable pub reserve_one : String → ReservationPlan → M S (Unit {0})
  reserve_one customer_id p = do
    got ← P.try_reserve p.pool_id p.amount
    fail_if (not got) (rejected (no_capacity p))
    consumed ← P.ensure_and_try_consume customer_id p.kind p.amount default_quota_limit
    fail_if (not consumed) (rejected (no_quota p))

  unfoldable pub reserve_each : String → List ReservationPlan → M S (Unit {0})
  unfolding reserve_one
  reserve_each customer_id [] = pure tt
  reserve_each customer_id (p ∷ ps) = do reserve_one customer_id p; reserve_each customer_id ps

  -- The body of the transaction behind the loop.
  unfoldable pub store_reserved :
      List ReservationPlan → CapacityRequest → Uuid → Time → M S CapacityRequest
  unfolding build_lines build_holds
  store_reserved plans req req_id now = do
    ls ← build_lines req_id plans
    hs ← build_holds req_id now plans
    ev_id ← P.new_uuid
    P.create_reserved req ls hs (record {
      id = ev_id;
      request_id = req_id;
      event_type = event_reserved;
      reason = "";
      at = now;
    })
    pure req

  unfoldable pub reserve_body :
      List ReservationPlan
      → Option Product
      → CreateInput
      → Uuid
      → Time
      → Time
      → String
      → M S CapacityRequest
  unfolding reserve_each store_reserved resolved_quantity
  reserve_body plans product i req_id now expires body_hash = do
    reserve_each i.customer_id plans
    store_reserved plans (reserved_request req_id product i now expires body_hash) req_id now

  unfoldable pub reserve_within_tx :
      List ReservationPlan
      → Option Product
      → CreateInput
      → Uuid
      → Time
      → Time
      → String
      → M S Outcome
  unfolding reserve_body
  reserve_within_tx plans product i req_id now expires body_hash s =
      settle (P.within_tx (reserve_body plans product i req_id now expires body_hash) s)
