-- ===== src/Ports.antt =====
-- internal/ports/ports.go: the interfaces through which the service reaches its stores, as one
-- record over the type of the stores' state; with them the clock, the source of UUIDs and the
-- counters of internal/observability. An operation returns its result or an error, and the state.
pub mod Noop
use cloud_resource_manager.Base.{ℕ, Bool, Option, List, String}
use cloud_resource_manager.Base.Int.{ℤ}
use cloud_resource_manager.Base.Action.{Action}
use cloud_resource_manager.Domain.Types.{
  Uuid, Time, Duration, ResourcePool, Product, CustomerQuota, CapacityRequest, RequestLine, Hold,
  Dedication, RequestEvent, RequestStatus, HoldStatus, Reason,
}
use cloud_resource_manager.Domain.Errors.{Error}

-- The counters and gauges that the service writes.
pub data Metric (F : Type 0) : Type 0 where
  reservation_attempts : String → Metric F
  reservation_rejects : Reason → Metric F
  reservation_confirms : String → Metric F
  reservation_cancels : Metric F
  reservation_expires : String → Metric F
  reservation_extends : Metric F
  pool_available_ratio : String → F → Metric F
  sweeper_runs : Bool → Metric F
  sweeper_expired_holds : Metric F

abbrev pub M : Type 0 → Type 0 → Type 0
M S A = Action Error S A

pub record Ports (F S : Type 0) : Type 1 where
  pub now : M S Time
  pub new_uuid : M S Uuid
  pub count : Metric F → M S (Unit {0})
  pub list_pools : M S (List (ResourcePool F))
  pub get_by_kind : String → M S (Option (ResourcePool F))
  pub try_reserve : Uuid → ℤ → M S Bool
  pub release_reserved : Uuid → ℤ → M S (Unit {0})
  pub move_reserved_to_dedicated : Uuid → ℤ → M S (Unit {0})
  pub list_quotas : String → M S (List CustomerQuota)
  pub ensure_and_try_consume : String → String → ℤ → ℤ → M S Bool
  pub release_quota : String → String → ℤ → M S (Unit {0})
  pub list_products : M S (List Product)
  pub get_by_code : String → M S (Option Product)
  pub find_by_idempotency : String → String → M S (Option CapacityRequest)
  pub get_request : Uuid → M S (Option CapacityRequest)
  pub list_by_customer : String → Option RequestStatus → M S (List CapacityRequest)
  pub create_reserved :
      CapacityRequest → List RequestLine → List Hold → RequestEvent → M S (Unit {0})
  pub create_rejected : CapacityRequest → List RequestLine → RequestEvent → M S (Unit {0})
  pub confirm_request : Uuid → List Dedication → RequestEvent → M S Bool
  pub mark_cancelled : Uuid → RequestEvent → M S Bool
  pub mark_expired : Uuid → RequestEvent → M S Bool
  pub extend_request : Uuid → Time → ℤ → RequestEvent → M S Bool
  pub list_expired_ids : Time → ℕ → M S (List Uuid)
  pub list_events : Uuid → M S (List RequestEvent)
  pub list_lines : Uuid → M S (List RequestLine)
  pub list_active_holds : Uuid → M S (List Hold)
  pub update_hold_status : Uuid → HoldStatus → HoldStatus → M S Bool
  pub count_active_holds : String → M S ℤ
  pub within_tx : {A : Type 0} → M S A → M S A
  pub try_lock : ℤ → M S Bool
  pub unlock : ℤ → M S (Unit {0})
  pub get_capacity : String → M S (Option String)
  pub set_capacity : String → String → Duration → M S (Unit {0})
  pub invalidate_capacity : String → M S (Unit {0})
  pub get_idempotent : String → String → M S (Option String)
  pub set_idempotent : String → String → String → Duration → M S (Unit {0})
