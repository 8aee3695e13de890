-- ===== src/Postgres/Requests.antt =====
-- internal/repository/postgres/requests.go: the queries, and the writes in two children. A table
-- has its newest row first; what a statement orders is ordered here too.
mod Create
mod Transition
unfoldable pub use Create.{
  insert_request, insert_line, insert_lines, insert_hold, insert_holds, insert_event,
  create_reserved, create_rejected,
}
pub use Create.{request_clash, stored_reserved, stored_rejected}
unfoldable pub use Transition.{
  update_reserved, update_expiry, insert_dedication, insert_dedications, confirm_request,
  mark_terminal, mark_cancelled, mark_expired, extend_request, update_hold_status,
}
pub use Transition.{
  reserved_row, set_status, extending, count_fits, unless_none, hold_row, moving_hold,
}
use cloud_resource_manager.Base.{
  ℕ, Bool, true, false, ◌&&◌, Option, none, some, List, [], ◌∷◌, String, ◌==◌, ◌=ₛ◌, length, leb,
}
use cloud_resource_manager.Base.Int.{ℤ, pos, leb_ℤ, ltb_ℤ}
use cloud_resource_manager.Base.Table.{find, select, exists, order_by, limit}
use cloud_resource_manager.Domain.Types.{
  Uuid, Time, CapacityRequest, RequestLine, Hold, RequestEvent, RequestStatus, status_is, hold_is,
  status_reserved, hold_active,
}
use cloud_resource_manager.Ports.{M}
use cloud_resource_manager.Postgres.Db.{Db, World, query}

abbrev pub has_key : String → String → CapacityRequest → Bool
has_key customer_id key r = r.customer_id =ₛ customer_id && r.idempotency_key =ₛ key

unfoldable pub find_by_idempotency :
    {F R : Type 0} → String → String → M (World F R) (Option CapacityRequest)
unfolding query
find_by_idempotency customer_id key =
    query "find by idempotency" (λ d. find (has_key customer_id key) d.requests)

unfoldable pub get_request : {F R : Type 0} → Uuid → M (World F R) (Option CapacityRequest)
unfolding query
get_request id = query "get request" (λ d. find (λ r. r.id == id) d.requests)

abbrev pub has_status : Option RequestStatus → CapacityRequest → Bool
has_status none r = true
has_status (some s) r = status_is r.status s

unfoldable pub list_by_customer :
    {F R : Type 0} → String → Option RequestStatus → M (World F R) (List CapacityRequest)
unfolding query
list_by_customer customer_id status = query "list requests" (λ d.
    order_by (λ p q. leb_ℤ q.created_at p.created_at)
      (select (λ r. r.customer_id =ₛ customer_id && has_status status r) d.requests))

-- The order of two rows of which one has no `expires_at` does not matter: such rows are not due.
abbrev pub expires_before : Time → Option Time → Bool
expires_before t none = false
expires_before t (some e) = ltb_ℤ e t

abbrev pub expires_le : Option Time → Option Time → Bool
expires_le none _ = false
expires_le (some a) none = true
expires_le (some a) (some b) = leb_ℤ a b

abbrev pub is_due : Time → CapacityRequest → Bool
is_due before r = status_is r.status status_reserved && expires_before before r.expires_at

-- ORDER BY expires_at LIMIT n.
abbrev pub due_requests : {F : Type 0} → Time → ℕ → Db F → List CapacityRequest
due_requests before n d =
    limit n
      (order_by (λ p q. expires_le p.expires_at q.expires_at) (select (is_due before) d.requests))

abbrev pub ids_of : List CapacityRequest → List Uuid
ids_of [] = []
ids_of (r ∷ rs) = r.id ∷ ids_of rs

unfoldable pub list_expired_ids : {F R : Type 0} → Time → ℕ → M (World F R) (List Uuid)
unfolding query
list_expired_ids before n = query "list expired" (λ d. ids_of (due_requests before n d))

unfoldable pub list_events : {F R : Type 0} → Uuid → M (World F R) (List RequestEvent)
unfolding query
list_events request_id =
    query "list events"
      (λ d. order_by (λ p q. leb_ℤ p.at q.at) (select (λ e. e.request_id == request_id) d.events))

unfoldable pub list_lines : {F R : Type 0} → Uuid → M (World F R) (List RequestLine)
unfolding query
list_lines request_id = query "list lines" (λ d. select (λ l. l.request_id == request_id) d.lines)

abbrev pub active_of : Uuid → Hold → Bool
active_of request_id h = h.request_id == request_id && hold_is h.status hold_active

unfoldable pub list_active_holds : {F R : Type 0} → Uuid → M (World F R) (List Hold)
unfolding query
list_active_holds request_id =
    query "list holds"
      (λ d. order_by (λ p q. leb p.pool_id q.pool_id) (select (active_of request_id) d.holds))

-- COUNT(DISTINCT r.id) over the join of requests and holds: `id` is the primary key of requests.
abbrev pub holding : List Hold → String → CapacityRequest → Bool
holding hs customer_id r =
    r.customer_id =ₛ customer_id && status_is r.status status_reserved && exists (active_of r.id) hs

unfoldable pub count_active_holds : {F R : Type 0} → String → M (World F R) ℤ
unfolding query
count_active_holds customer_id =
    query "count active holds by customer"
      (λ d. pos (length (select (holding d.holds customer_id) d.requests)))
