-- ===== src/Service/Input.antt =====
-- internal/service/capacity.go: the values that the service takes and returns, its constants, and
-- the library calls that it makes on them, as a record of parameters.
use cloud_resource_manager.Base.{ℕ, Option, List, String, ◌-◌, ◌^◌}
use cloud_resource_manager.Base.Int.{ℤ, pos}
use cloud_resource_manager.Domain.Types.{Uuid, ResourcePool}
use cloud_resource_manager.Domain.Errors.{Details}

pub record LineInput : Type 0 where
  pub resource_kind : String
  pub amount : ℤ

pub record CreateInput : Type 0 where
  pub customer_id : String
  pub idempotency_key : String
  pub product_code : String
  pub quantity : ℤ
  pub lines : List LineInput
  pub correlation_id : String

pub record CapacityView (F : Type 0) : Type 0 where
  pub pool : ResourcePool F
  pub available : ℤ
  pub customer_remaining : Option ℤ

pub record ReservationPlan : Type 0 where
  pub kind : String
  pub pool_id : Uuid
  pub amount : ℤ

pub record BodyFingerprint : Type 0 where
  pub product_code : String
  pub quantity : ℤ
  pub lines : List LineInput

abbrev pub default_quota_limit : ℤ
default_quota_limit = pos 10_000

abbrev pub sweeper_lock_key : ℤ
sweeper_lock_key = pos 84201501

abbrev pub expire_batch_size : ℕ
expire_batch_size = 100

abbrev pub capacity_cache_key : String
capacity_cache_key = "all"

abbrev pub max_lines_per_request : ℕ
max_lines_per_request = 50

abbrev pub max_quantity : ℤ
max_quantity = pos 1000

abbrev pub max_amount : ℤ
max_amount = pos (2 ^ 53 - 1)

-- json.Marshal and json.Unmarshal at the types where they are used, SHA-256 in hexadecimal, and the
-- text form of a UUID.
pub record Codecs (F : Type 0) : Type 0 where
  pub marshal_body : BodyFingerprint → Option String
  pub sha256_hex : String → String
  pub marshal_details : Details → Option String
  pub marshal_views : List (CapacityView F) → Option String
  pub unmarshal_views : String → Option (List (CapacityView F))
  pub uuid_text : Uuid → String
  pub uuid_parse : String → Option Uuid
