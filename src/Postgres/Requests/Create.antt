-- ===== src/Postgres/Requests/Create.antt =====
-- internal/repository/postgres/requests.go: CreateReserved, CreateRejected and the inserts that
-- they share. A key that a unique constraint holds already makes an insert fail, and so does
-- CHECK (amount > 0).
use cloud_resource_manager.Base.{Bool, ◌&&◌, ◌||◌, not, none, List, [], ◌∷◌, String, ◌==◌, ◌=ₛ◌}
use cloud_resource_manager.Base.Int.{pos, leb_ℤ}
use cloud_resource_manager.Base.Table.{exists}
use cloud_resource_manager.Base.Action.{pure, ◌>>◌}
use cloud_resource_manager.Domain.Types.{CapacityRequest, RequestLine, Hold, RequestEvent}
use cloud_resource_manager.Domain.Errors.{duplicate_request, dependency}
use cloud_resource_manager.Ports.{M}
use cloud_resource_manager.Postgres.Db.{World, statement, insert_row}

-- The rows that UNIQUE (customer_id, idempotency_key) or the primary key set against a new one.
abbrev pub request_clash : CapacityRequest → CapacityRequest → Bool
request_clash new r =
    r.id == new.id || (r.customer_id =ₛ new.customer_id && r.idempotency_key =ₛ new.idempotency_key)

-- `IsUniqueViolation` turns the violation into ErrDuplicateRequest.
unfoldable pub insert_request : {F R : Type 0} → String → CapacityRequest → M (World F R) (Unit {0})
unfolding statement
insert_request label new = statement label (λ d.
    insert_row (exists (request_clash new) d.requests) duplicate_request d
      (record d { requests = new ∷ d.requests }))

unfoldable pub insert_line : {F R : Type 0} → RequestLine → M (World F R) (Unit {0})
unfolding statement
insert_line l = statement "insert line" (λ d.
    insert_row (exists (λ x. x.id == l.id) d.lines || not (leb_ℤ (pos 1) l.amount))
      (dependency "insert line") d (record d { lines = l ∷ d.lines }))

unfoldable pub insert_lines : {F R : Type 0} → List RequestLine → M (World F R) (Unit {0})
unfolding insert_line
insert_lines [] = pure tt
insert_lines (l ∷ ls) = do insert_line l; insert_lines ls

unfoldable pub insert_hold : {F R : Type 0} → Hold → M (World F R) (Unit {0})
unfolding statement
insert_hold h = statement "insert hold" (λ d.
    insert_row (exists (λ x. x.id == h.id) d.holds || not (leb_ℤ (pos 1) h.amount))
      (dependency "insert hold") d (record d { holds = h ∷ d.holds }))

unfoldable pub insert_holds : {F R : Type 0} → List Hold → M (World F R) (Unit {0})
unfolding insert_hold
insert_holds [] = pure tt
insert_holds (h ∷ hs) = do insert_hold h; insert_holds hs

unfoldable pub insert_event : {F R : Type 0} → RequestEvent → M (World F R) (Unit {0})
unfolding statement
insert_event e = statement "insert event" (λ d.
    insert_row (exists (λ x. x.id == e.id) d.events) (dependency "insert event") d
      (record d { events = e ∷ d.events }))

-- The INSERT names no `reject_reason`, which is left NULL.
abbrev pub stored_reserved : CapacityRequest → CapacityRequest
stored_reserved req = record req { reject_reason = none }

unfoldable pub create_reserved :
    {F R : Type 0}
    → CapacityRequest
    → List RequestLine
    → List Hold
    → RequestEvent
    → M (World F R) (Unit {0})
unfolding insert_request insert_lines insert_holds insert_event
create_reserved req lines holds ev = do
  insert_request "insert reserved request" (stored_reserved req)
  insert_lines lines
  insert_holds holds
  insert_event ev

-- The INSERT names no `expires_at`.
abbrev pub stored_rejected : CapacityRequest → CapacityRequest
stored_rejected req = record req { expires_at = none }

unfoldable pub create_rejected :
    {F R : Type 0} → CapacityRequest → List RequestLine → RequestEvent → M (World F R) (Unit {0})
unfolding insert_request insert_lines insert_event
create_rejected req lines ev = do
  insert_request "insert rejected request" (stored_rejected req)
  insert_lines lines
  insert_event ev
