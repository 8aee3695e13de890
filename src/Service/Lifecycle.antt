-- ===== src/Service/Lifecycle.antt =====
-- internal/service/capacity.go: Confirm, Cancel and Extend. A nil request with a nil error is
-- `none`.
use cloud_resource_manager.Base.{
  Bool, false, not, Option, none, some, List, [], ◌∷◌, String, if◌then◌else◌,
}
use cloud_resource_manager.Base.Int.{pos, ◌+ℤ◌, leb_ℤ, ltb_ℤ}
use cloud_resource_manager.Base.Action.{pure, fail, fail_if, ◌>>=◌, ◌>>◌}
use cloud_resource_manager.Config.{Config}
use cloud_resource_manager.Domain.Types.{
  Uuid, Time, CapacityRequest, Hold, Dedication, status_is, status_reserved, status_completed,
  status_cancelled, status_expired, hold_active, hold_dedicated, event_confirmed, event_extended,
  not_found, conflict, expired, extension_limit,
}
use cloud_resource_manager.Domain.Errors.{Error, new_app_error, status, number}
use cloud_resource_manager.Ports.{
  M, Ports, reservation_confirms, reservation_cancels, reservation_extends,
}
use cloud_resource_manager.Service.Input.{Codecs, capacity_cache_key}
use cloud_resource_manager.Service.Create.{ignored}
use cloud_resource_manager.Service.Release.{release_reserved}

abbrev pub request_not_found : Error
request_not_found = new_app_error not_found "request not found" none

abbrev pub reservation_expired : Error
reservation_expired = new_app_error expired "reservation expired" none

abbrev pub wrong_status : String → CapacityRequest → Error
wrong_status message r = new_app_error conflict message (some (("status", status r.status) ∷ []))

-- `req.ExpiresAt != nil && !req.ExpiresAt.After(now)`.
abbrev pub lapsed : Option Time → Time → Bool
lapsed none now = false
lapsed (some e) now = leb_ℤ e now

-- `base` of Extend: the expiry, if that is later than now.
abbrev pub base_time : Option Time → Time → Time
base_time none now = now
base_time (some e) now = if ltb_ℤ now e then e else now

abbrev pub dedication_of : Uuid → Uuid → Time → Hold → Dedication
dedication_of id req_id now h = record {
  id = id;
  request_id = req_id;
  pool_id = h.pool_id;
  hold_id = h.id;
  amount = h.amount;
  created_at = now;
}

module _ {F S : Type 0} (P : Ports F S) where
  unfoldable pub dedicate_hold : Uuid → Time → Hold → M S Dedication
  dedicate_hold id now h = do
    P.move_reserved_to_dedicated h.pool_id h.amount
    moved ← P.update_hold_status h.id hold_active hold_dedicated
    fail_if (not moved) (new_app_error conflict "hold already transitioned" none)
    ded_id ← P.new_uuid
    pure (dedication_of ded_id id now h)

  unfoldable pub dedicate_holds : Uuid → Time → List Hold → M S (List Dedication)
  unfolding dedicate_hold
  dedicate_holds id now [] = pure []
  dedicate_holds id now (h ∷ hs) = do
    d ← dedicate_hold id now h
    ds ← dedicate_holds id now hs
    pure (d ∷ ds)

  -- The body of the transaction of Confirm.
  unfoldable pub confirm_body : Uuid → Time → M S (Unit {0})
  unfolding dedicate_holds
  confirm_body id now = do
    holds ← P.list_active_holds id
    dedications ← dedicate_holds id now holds
    ev_id ← P.new_uuid
    updated ← P.confirm_request id dedications (record {
      id = ev_id;
      request_id = id;
      event_type = event_confirmed;
      reason = "";
      at = now;
    })
    fail_if (not updated) (new_app_error conflict "confirm race lost" none)

  abbrev pub product_label : Codecs F → Option Uuid → String
  product_label C none = "raw"
  product_label C (some id) = C.uuid_text id

  unfoldable pub confirm_reserved : Codecs F → Uuid → CapacityRequest → M S (Option CapacityRequest)
  unfolding confirm_body
  confirm_reserved C id r = do
    now ← P.now
    fail_if (lapsed r.expires_at now) reservation_expired
    P.within_tx (confirm_body id now)
    P.count (reservation_confirms (product_label C r.product_id))
    ignored (P.invalidate_capacity capacity_cache_key)
    P.get_request id

  abbrev pub confirm_found : Codecs F → Uuid → Option CapacityRequest → M S (Option CapacityRequest)
  confirm_found C id none = fail request_not_found
  confirm_found C id (some r) =
      if status_is r.status status_completed
      then pure (some r)
      else (if status_is r.status status_reserved
          then confirm_reserved C id r
          else fail (wrong_status "request is not in RESERVED state" r))

  unfoldable pub confirm : Codecs F → Uuid → M S (Option CapacityRequest)
  unfolding confirm_reserved
  confirm C id = do found ← P.get_request id; confirm_found C id found

  unfoldable pub cancel_reserved : Uuid → CapacityRequest → M S (Option CapacityRequest)
  unfolding release_reserved
  cancel_reserved id r = do
    release_reserved P r status_cancelled
    P.count reservation_cancels
    ignored (P.invalidate_capacity capacity_cache_key)
    P.get_request id

  abbrev pub cancel_found : Uuid → Option CapacityRequest → M S (Option CapacityRequest)
  cancel_found id none = fail request_not_found
  cancel_found id (some r) =
      if status_is r.status status_cancelled
      then pure (some r)
      else (if status_is r.status status_reserved
          then cancel_reserved id r
          else fail (wrong_status "request cannot be cancelled" r))

  unfoldable pub cancel : Uuid → M S (Option CapacityRequest)
  unfolding cancel_reserved
  cancel id = do found ← P.get_request id; cancel_found id found

  unfoldable pub extend_reserved :
      Config → Uuid → CapacityRequest → Time → M S (Option CapacityRequest)
  extend_reserved cfg id r now =
      let new_expiry = base_time r.expires_at now +ℤ cfg.reserve_ttl in
      do
        fail_if (lapsed r.expires_at now) reservation_expired
        fail_if (leb_ℤ cfg.max_extensions r.extension_count) (
            new_app_error extension_limit "max extensions reached"
              (some (("max", number cfg.max_extensions) ∷ [])))
        fail_if (ltb_ℤ (r.created_at +ℤ cfg.max_reserve_wall_time) new_expiry)
            (new_app_error extension_limit "max reserve wall time reached" none)
        ev_id ← P.new_uuid
        updated ← P.extend_request id new_expiry (r.extension_count +ℤ pos 1) (record {
          id = ev_id;
          request_id = id;
          event_type = event_extended;
          reason = "";
          at = now;
        })
        fail_if (not updated) (new_app_error conflict "extend race lost" none)
        P.count reservation_extends
        P.get_request id

  abbrev pub extend_found : Config → Uuid → Option CapacityRequest → M S (Option CapacityRequest)
  extend_found cfg id none = fail request_not_found
  extend_found cfg id (some r) = do
    now ← P.now
    if status_is r.status status_reserved
        then extend_reserved cfg id r now
        else (if status_is r.status status_expired
            then fail reservation_expired
            else fail (wrong_status "request cannot be extended" r))

  unfoldable pub extend : Config → Uuid → M S (Option CapacityRequest)
  unfolding extend_reserved
  extend cfg id = do found ← P.get_request id; extend_found cfg id found
