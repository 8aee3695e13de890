-- ===== src/Memory/Requests.antt =====
-- internal/repository/memory/memory.go: Requests. The index of idempotency keys has a text of the
-- customer and the key.
use cloud_resource_manager.Base.{
  ℕ, ◌-◌, Bool, true, false, ◌&&◌, Option, none, some, List, [], ◌∷◌, String, ◌==◌, ◌=ₛ◌, length,
  leb, if◌then◌else◌,
}
use cloud_resource_manager.Base.Int.{ℤ, pos}
use cloud_resource_manager.Base.Table.{find, select, exists, put, update_first}
use cloud_resource_manager.Base.Action.{ok, err}
use cloud_resource_manager.Domain.Types.{
  Uuid, Time, CapacityRequest, RequestLine, Hold, Dedication, RequestEvent, RequestStatus,
  HoldStatus, status_is, hold_is, status_reserved, status_completed, status_cancelled,
  status_expired, hold_active,
}
use cloud_resource_manager.Domain.Errors.{duplicate_request}
use cloud_resource_manager.Ports.{M}
use cloud_resource_manager.Postgres.Requests.{has_status, is_due}
use cloud_resource_manager.Memory.Store.{Groups, Store, group, append_to}
use Prim.Native.String.{◌++◌}

unfoldable pub idem_text : String → String → String
idem_text customer_id key = customer_id ++ ":" ++ key

abbrev pub index_at : String → List (String × Uuid) → Option Uuid
index_at k [] = none
index_at k ((j, id) ∷ m) = if j =ₛ k then some id else index_at k m

abbrev pub request_at : {F : Type 0} → Uuid → Store F → Option CapacityRequest
request_at id m = find (λ r. r.id == id) m.requests

abbrev pub indexed : {F : Type 0} → Option Uuid → Store F → Option CapacityRequest
indexed none m = none
indexed (some id) m = request_at id m

unfoldable pub find_by_idempotency :
    {F : Type 0} → String → String → M (Store F) (Option CapacityRequest)
unfolding idem_text
find_by_idempotency customer_id key m =
    (ok (indexed (index_at (idem_text customer_id key) m.idem_index) m), m)

unfoldable pub get_request : {F : Type 0} → Uuid → M (Store F) (Option CapacityRequest)
get_request id m = (ok (request_at id m), m)

unfoldable pub list_by_customer :
    {F : Type 0} → String → Option RequestStatus → M (Store F) (List CapacityRequest)
list_by_customer customer_id status m =
    (ok (select (λ r. r.customer_id =ₛ customer_id && has_status status r) m.requests), m)

-- The request, its lines and its event under its id, and the id under its key.
abbrev pub with_request :
    {F : Type 0} → String → CapacityRequest → List RequestLine → RequestEvent → Store F → Store F
with_request k req lines ev m = record m {
  requests = put (λ r. r.id == req.id) req m.requests;
  idem_index = (k, req.id) ∷ m.idem_index;
  lines = append_to req.id lines m.lines;
  events = append_to req.id (ev ∷ []) m.events;
}

abbrev pub unless_known : {F : Type 0} → Option Uuid → Store F → M (Store F) (Unit {0})
unless_known none m' m = (ok tt, m')
unless_known (some id) m' m = (err duplicate_request, m)

unfoldable pub create_reserved :
    {F : Type 0}
    → CapacityRequest
    → List RequestLine
    → List Hold
    → RequestEvent
    → M (Store F) (Unit {0})
unfolding idem_text
create_reserved req lines holds ev m =
    let k = idem_text req.customer_id req.idempotency_key in
    let m' = record m { holds = append_to req.id holds m.holds } in
    unless_known (index_at k m.idem_index) (with_request k req lines ev m') m

unfoldable pub create_rejected :
    {F : Type 0} → CapacityRequest → List RequestLine → RequestEvent → M (Store F) (Unit {0})
unfolding idem_text
create_rejected req lines ev m =
    let k = idem_text req.customer_id req.idempotency_key in
    unless_known (index_at k m.idem_index) (with_request k req lines ev m) m

-- The writes through the pointer to a RESERVED request; false where there is none.
abbrev pub change_reserved :
    {F : Type 0}
    → Option CapacityRequest
    → (CapacityRequest → CapacityRequest)
    → RequestEvent
    → M (Store F) Bool
change_reserved none f ev m = (ok false, m)
change_reserved (some r) f ev m =
    if status_is r.status status_reserved
    then (
      ok true,
      record m {
        requests = update_first (λ x. x.id == r.id) f m.requests;
        events = append_to r.id (ev ∷ []) m.events;
      },
    )
    else (ok false, m)

abbrev pub in_status : RequestStatus → CapacityRequest → CapacityRequest
in_status s r = record r { status = s }

unfoldable pub confirm_request :
    {F : Type 0} → Uuid → List Dedication → RequestEvent → M (Store F) Bool
confirm_request id dedications ev m =
    let (res, m') = change_reserved (request_at id m) (in_status status_completed) ev m in
    elim res [
      | ok true ↦ (ok true, record m' { dedications = append_to id dedications m'.dedications })
      | ok false ↦ (ok false, m')
      | err e ↦ (err e, m')
    ]

unfoldable pub mark_terminal : {F : Type 0} → Uuid → RequestStatus → RequestEvent → M (Store F) Bool
mark_terminal id status ev m = change_reserved (request_at id m) (in_status status) ev m

unfoldable pub mark_cancelled : {F : Type 0} → Uuid → RequestEvent → M (Store F) Bool
unfolding mark_terminal
mark_cancelled id ev = mark_terminal id status_cancelled ev

unfoldable pub mark_expired : {F : Type 0} → Uuid → RequestEvent → M (Store F) Bool
unfolding mark_terminal
mark_expired id ev = mark_terminal id status_expired ev

abbrev pub extended : Time → ℤ → CapacityRequest → CapacityRequest
extended expires_at extension_count r = record r {
  expires_at = some expires_at;
  extension_count = extension_count;
}

unfoldable pub extend_request : {F : Type 0} → Uuid → Time → ℤ → RequestEvent → M (Store F) Bool
extend_request id expires_at extension_count ev m =
    change_reserved (request_at id m) (extended expires_at extension_count) ev m

-- The loop appends before it compares with the limit.
abbrev pub due_ids : Time → ℕ → List CapacityRequest → List Uuid
due_ids before n [] = []
due_ids before n (r ∷ rs) =
    let later = due_ids before n rs in
    let taken = r.id ∷ (if leb n 1 then [] else due_ids before (n - 1) rs) in
    if is_due before r then taken else later

unfoldable pub list_expired_ids : {F : Type 0} → Time → ℕ → M (Store F) (List Uuid)
list_expired_ids before n m = (ok (due_ids before n m.requests), m)

unfoldable pub list_events : {F : Type 0} → Uuid → M (Store F) (List RequestEvent)
list_events request_id m = (ok (group request_id m.events), m)

unfoldable pub list_lines : {F : Type 0} → Uuid → M (Store F) (List RequestLine)
list_lines request_id m = (ok (group request_id m.lines), m)

abbrev pub is_active : Hold → Bool
is_active h = hold_is h.status hold_active

unfoldable pub list_active_holds : {F : Type 0} → Uuid → M (Store F) (List Hold)
list_active_holds request_id m = (ok (select is_active (group request_id m.holds)), m)

-- The hold with the id in the slice of one request, or in a later one.
abbrev pub hold_in : Uuid → Groups Hold → Option Hold
hold_in id [] = none
hold_in id ((j, hs) ∷ m) = elim (find (λ h. h.id == id) hs) [
  | some h ↦ some h
  | none ↦ hold_in id m
]

abbrev pub move_in : Uuid → HoldStatus → Groups Hold → Groups Hold
move_in id to [] = []
move_in id to ((j, hs) ∷ m) =
    if exists (λ h. h.id == id) hs
    then (j, update_first (λ h. h.id == id) (λ h. record h { status = to }) hs) ∷ m
    else (j, hs) ∷ move_in id to m

abbrev pub move_found : {F : Type 0} → Option Hold → HoldStatus → HoldStatus → M (Store F) Bool
move_found none from to m = (ok false, m)
move_found (some h) from to m =
    if hold_is h.status from
    then (ok true, record m { holds = move_in h.id to m.holds })
    else (ok false, m)

unfoldable pub update_hold_status : {F : Type 0} → Uuid → HoldStatus → HoldStatus → M (Store F) Bool
update_hold_status id from to m = move_found (hold_in id m.holds) from to m

abbrev pub with_active : {F : Type 0} → String → Store F → CapacityRequest → Bool
with_active customer_id m r =
    r.customer_id =ₛ customer_id
    && status_is r.status status_reserved
    && exists is_active (group r.id m.holds)

unfoldable pub count_active_holds : {F : Type 0} → String → M (Store F) ℤ
count_active_holds customer_id m =
    (ok (pos (length (select (with_active customer_id m) m.requests))), m)
