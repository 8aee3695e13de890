-- ===== src/Service/Release.antt =====
-- internal/service/capacity.go: releaseReserved, which Cancel and the sweeper share.
use cloud_resource_manager.Base.{Bool, List, [], ◌∷◌, String, ◌==◌, ◌=ₛ◌, if◌then◌else◌}
use cloud_resource_manager.Base.Int.{ℤ}
use cloud_resource_manager.Base.Action.{pure, ◌>>=◌, ◌>>◌}
use cloud_resource_manager.Domain.Types.{
  Uuid, Time, CapacityRequest, RequestLine, Hold, HoldStatus, RequestEvent, EventType,
  RequestStatus, status_is, status_reserved, status_rejected, status_completed, status_cancelled,
  status_expired, hold_active, hold_released, hold_expired, event_cancelled, event_expired,
}
use cloud_resource_manager.Ports.{M, Ports}

-- `kindByPool[p]`, where a later line overwrites an earlier one, and "" stands for no entry.
abbrev pub kind_by_pool : String → List RequestLine → Uuid → String
kind_by_pool last [] p = last
kind_by_pool last (l ∷ ls) p = kind_by_pool (if l.pool_id == p then l.kind else last) ls p

abbrev pub hold_to : RequestStatus → HoldStatus
hold_to terminal = if status_is terminal status_expired then hold_expired else hold_released

abbrev pub terminal_event : RequestStatus → EventType
terminal_event terminal =
    if status_is terminal status_expired then event_expired else event_cancelled

abbrev pub status_text : RequestStatus → String
status_text status_reserved = "RESERVED"
status_text status_rejected = "REJECTED"
status_text status_completed = "COMPLETED"
status_text status_cancelled = "CANCELLED"
status_text status_expired = "EXPIRED"

module _ {F S : Type 0} (P : Ports F S) where
  abbrev pub give_back : String → String → ℤ → M S (Unit {0})
  give_back customer_id kind amount =
      if kind =ₛ "" then pure tt else P.release_quota customer_id kind amount

  -- The result of UpdateHoldStatus is not looked at.
  unfoldable pub release_hold : String → List RequestLine → HoldStatus → Hold → M S (Unit {0})
  release_hold customer_id lines to h = do
    P.release_reserved h.pool_id h.amount
    give_back customer_id (kind_by_pool "" lines h.pool_id) h.amount
    moved ← P.update_hold_status h.id hold_active to
    pure tt

  unfoldable pub release_holds : String → List RequestLine → HoldStatus → List Hold → M S (Unit {0})
  unfolding release_hold
  release_holds customer_id lines to [] = pure tt
  release_holds customer_id lines to (h ∷ hs) = do
    release_hold customer_id lines to h
    release_holds customer_id lines to hs

  abbrev pub mark : RequestStatus → Uuid → RequestEvent → M S Bool
  mark terminal id ev =
      if status_is terminal status_expired then P.mark_expired id ev else P.mark_cancelled id ev

  -- The body of the transaction. That the request may no longer be RESERVED is not looked at.
  unfoldable pub release_body : CapacityRequest → RequestStatus → Time → M S (Unit {0})
  unfolding release_holds
  release_body req terminal now = do
    holds ← P.list_active_holds req.id
    lines ← P.list_lines req.id
    release_holds req.customer_id lines (hold_to terminal) holds
    ev_id ← P.new_uuid
    updated ← mark terminal req.id (record {
      id = ev_id;
      request_id = req.id;
      event_type = terminal_event terminal;
      reason = status_text terminal;
      at = now;
    })
    pure tt

  unfoldable pub release_reserved : CapacityRequest → RequestStatus → M S (Unit {0})
  unfolding release_body
  release_reserved req terminal = do now ← P.now; P.within_tx (release_body req terminal now)
