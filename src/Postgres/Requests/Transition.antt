-- ===== src/Postgres/Requests/Transition.antt =====
-- internal/repository/postgres/requests.go: the writes that move a request, or a hold, from one
-- status to the next. Each is an UPDATE whose WHERE clause names the status to leave.
use cloud_resource_manager.Base.{
  ℕ, Bool, true, false, ◌&&◌, ◌||◌, not, some, List, [], ◌∷◌, String, ◌==◌, if◌then◌else◌,
}
use cloud_resource_manager.Base.Int.{ℤ, pos, leb_ℤ}
use cloud_resource_manager.Base.Table.{exists, update, affected}
use cloud_resource_manager.Base.Action.{pure, ◌>>=◌, ◌>>◌}
use cloud_resource_manager.Domain.Types.{
  Uuid, Time, CapacityRequest, Hold, Dedication, RequestEvent, RequestStatus, HoldStatus, status_is,
  hold_is, status_reserved, status_completed, status_cancelled, status_expired,
}
use cloud_resource_manager.Domain.Errors.{dependency}
use cloud_resource_manager.Ports.{M}
use cloud_resource_manager.Postgres.Db.{World, statement, exec, checked, insert_row}
use cloud_resource_manager.Postgres.Requests.Create.{insert_event}

-- WHERE id = $1 AND status = 'RESERVED'.
abbrev pub reserved_row : Uuid → CapacityRequest → Bool
reserved_row id r = r.id == id && status_is r.status status_reserved

abbrev pub set_status : RequestStatus → Time → CapacityRequest → CapacityRequest
set_status s now r = record r { status = s; updated_at = now }

abbrev pub extending : Time → ℤ → Time → CapacityRequest → CapacityRequest
extending expires_at extension_count now r = record r {
  expires_at = some expires_at;
  extension_count = extension_count;
  updated_at = now;
}

-- The number of rows that the UPDATE affects.
unfoldable pub update_reserved :
    {F R : Type 0} → String → Uuid → (Time → CapacityRequest → CapacityRequest) → M (World F R) ℕ
unfolding exec
update_reserved label id f w =
    exec label
      (λ d. (
        affected (reserved_row id) d.requests,
        record d { requests = update (reserved_row id) (f w.db_clock) d.requests },
      ))
      w

-- CHECK (extension_count >= 0), of the rows that are written; no row takes more than INT holds.
abbrev pub count_fits : ℤ → ℕ → Bool
count_fits extension_count n =
    leb_ℤ extension_count (pos 2147483647) && (leb_ℤ (pos 0) extension_count || n == 0)

unfoldable pub update_expiry : {F R : Type 0} → Uuid → Time → ℤ → M (World F R) ℕ
unfolding statement
update_expiry id expires_at extension_count w =
    statement "extend request"
      (λ d.
        checked (count_fits extension_count (affected (reserved_row id) d.requests)) d
          (affected (reserved_row id) d.requests)
          (record d {
            requests =
                update (reserved_row id) (extending expires_at extension_count w.db_clock)
                  d.requests;
          }))
      w

unfoldable pub insert_dedication : {F R : Type 0} → Dedication → M (World F R) (Unit {0})
unfolding statement
insert_dedication x = statement "insert dedication" (λ d.
    insert_row (exists (λ y. y.id == x.id) d.dedications || not (leb_ℤ (pos 1) x.amount))
      (dependency "insert dedication") d (record d { dedications = x ∷ d.dedications }))

unfoldable pub insert_dedications : {F R : Type 0} → List Dedication → M (World F R) (Unit {0})
unfolding insert_dedication
insert_dedications [] = pure tt
insert_dedications (x ∷ xs) = do insert_dedication x; insert_dedications xs

-- `if tag.RowsAffected() == 0 { return false, nil }`, else the rest and `return true, nil`.
abbrev pub unless_none : {F R : Type 0} → ℕ → M (World F R) (Unit {0}) → M (World F R) Bool
unless_none n rest = if n == 0 then pure false else do rest; pure true

unfoldable pub confirm_request :
    {F R : Type 0} → Uuid → List Dedication → RequestEvent → M (World F R) Bool
unfolding update_reserved insert_dedications insert_event
confirm_request id dedications ev = do
  n ← update_reserved "confirm request" id (set_status status_completed)
  unless_none n (do insert_dedications dedications; insert_event ev)

unfoldable pub mark_terminal :
    {F R : Type 0} → Uuid → RequestStatus → RequestEvent → M (World F R) Bool
unfolding update_reserved insert_event
mark_terminal id status ev = do
  n ← update_reserved "mark terminal" id (set_status status)
  unless_none n (insert_event ev)

unfoldable pub mark_cancelled : {F R : Type 0} → Uuid → RequestEvent → M (World F R) Bool
unfolding mark_terminal
mark_cancelled id ev = mark_terminal id status_cancelled ev

unfoldable pub mark_expired : {F R : Type 0} → Uuid → RequestEvent → M (World F R) Bool
unfolding mark_terminal
mark_expired id ev = mark_terminal id status_expired ev

unfoldable pub extend_request : {F R : Type 0} → Uuid → Time → ℤ → RequestEvent → M (World F R) Bool
unfolding update_expiry insert_event
extend_request id expires_at extension_count ev = do
  n ← update_expiry id expires_at extension_count
  unless_none n (insert_event ev)

-- WHERE id = $1 AND status = $2.
abbrev pub hold_row : Uuid → HoldStatus → Hold → Bool
hold_row id from h = h.id == id && hold_is h.status from

abbrev pub moving_hold : HoldStatus → Time → Hold → Hold
moving_hold to now h = record h { status = to; updated_at = now }

unfoldable pub update_hold_status :
    {F R : Type 0} → Uuid → HoldStatus → HoldStatus → M (World F R) Bool
unfolding exec
update_hold_status id from to w =
    exec "update hold status"
      (λ d. (
        affected (hold_row id from) d.holds == 1,
        record d { holds = update (hold_row id from) (moving_hold to w.db_clock) d.holds },
      ))
      w
