-- ===== src/Domain/Types.antt =====
-- internal/domain/types.go. A UUID is its 128-bit number, whose order is that of its canonical
-- text; an instant and a duration are numbers of nanoseconds. The enumerations, which Go keeps as
-- strings, are data types, and are compared by `==` on a code.
use cloud_resource_manager.Base.{ℕ, Bool, Option, List, String, ◌==◌}
use cloud_resource_manager.Base.Int.{ℤ}

abbrev pub Uuid : Type 0
Uuid = ℕ

abbrev pub Time : Type 0
Time = ℤ

abbrev pub Duration : Type 0
Duration = ℤ

pub data RequestStatus : Type 0 where
  status_reserved status_rejected status_completed status_cancelled status_expired : RequestStatus

pub data HoldStatus : Type 0 where
  hold_active hold_released hold_dedicated hold_expired : HoldStatus

pub data EventType : Type 0 where
  event_created event_reserved event_rejected event_confirmed : EventType
  event_cancelled event_expired event_extended : EventType

pub data Reason : Type 0 where
  insufficient_capacity quota_exceeded invalid_resource_kind product_not_found : Reason
  missing_idempotency expired extension_limit not_found conflict unavailable : Reason
  not_implemented idempotency_key_reused too_many_active_holds invalid_input : Reason

abbrev pub status_code : RequestStatus → ℕ
status_code status_reserved = 0
status_code status_rejected = 1
status_code status_completed = 2
status_code status_cancelled = 3
status_code status_expired = 4

abbrev pub hold_code : HoldStatus → ℕ
hold_code hold_active = 0
hold_code hold_released = 1
hold_code hold_dedicated = 2
hold_code hold_expired = 3

abbrev pub status_is : RequestStatus → RequestStatus → Bool
status_is a b = status_code a == status_code b

abbrev pub hold_is : HoldStatus → HoldStatus → Bool
hold_is a b = hold_code a == hold_code b

pub record PoolPolicy : Type 0 where
  pub splittable : Bool
  pub min_grain : ℤ
  pub max_grain : ℤ

-- `F` is the type of double-precision numbers.
pub record ResourcePool (F : Type 0) : Type 0 where
  pub id : Uuid
  pub kind : String
  pub unit : String
  pub total : ℤ
  pub oversubscribe_factor : F
  pub dedicated_amount : ℤ
  pub reserved_amount : ℤ
  pub policy : PoolPolicy
  pub created_at : Time
  pub updated_at : Time

-- `resource_template` is a Go map, as an association list.
pub record Product : Type 0 where
  pub id : Uuid
  pub code : String
  pub name : String
  pub resource_template : List (String × ℤ)
  pub created_at : Time

pub record CustomerQuota : Type 0 where
  pub id : Uuid
  pub customer_id : String
  pub resource_kind : String
  pub limit : ℤ
  pub used_amount : ℤ
  pub created_at : Time
  pub updated_at : Time

pub record CapacityRequest : Type 0 where
  pub id : Uuid
  pub customer_id : String
  pub idempotency_key : String
  pub body_hash : String
  pub product_id : Option Uuid
  pub quantity : ℤ
  pub status : RequestStatus
  pub reject_reason : Option Reason
  pub expires_at : Option Time
  pub extension_count : ℤ
  pub correlation_id : String
  pub created_at : Time
  pub updated_at : Time

pub record RequestLine : Type 0 where
  pub id : Uuid
  pub request_id : Uuid
  pub pool_id : Uuid
  pub kind : String
  pub amount : ℤ

pub record Hold : Type 0 where
  pub id : Uuid
  pub request_id : Uuid
  pub pool_id : Uuid
  pub amount : ℤ
  pub status : HoldStatus
  pub created_at : Time
  pub updated_at : Time

pub record Dedication : Type 0 where
  pub id : Uuid
  pub request_id : Uuid
  pub pool_id : Uuid
  pub hold_id : Uuid
  pub amount : ℤ
  pub created_at : Time

pub record RequestEvent : Type 0 where
  pub id : Uuid
  pub request_id : Uuid
  pub event_type : EventType
  pub reason : String
  pub at : Time
