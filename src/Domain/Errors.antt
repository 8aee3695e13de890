-- ===== src/Domain/Errors.antt =====
-- internal/domain/errors.go, with the sentinels of helpers.go and of the service. Errors that a
-- database or a network reports are `dependency`. `rejected` is errRejected with the value that the
-- transaction's closure leaves in `rej`.
use cloud_resource_manager.Base.{Bool, true, false, Option, none, some, List, String}
use cloud_resource_manager.Base.Int.{ℤ}
use cloud_resource_manager.Domain.Types
use cloud_resource_manager.Domain.Types.{Reason}

-- A value under a key of an error's details.
pub data Detail : Type 0 where
  text : String → Detail
  number : ℤ → Detail
  status : Types.RequestStatus → Detail

abbrev pub Details : Type 0
Details = List (String × Detail)

-- The service's `rejection`: why a reservation was refused.
pub record Rejection : Type 0 where
  pub reason : Reason
  pub message : String
  pub details : Details

pub record AppError : Type 0 where
  pub reason : Reason
  pub message : String
  pub details : Option Details

pub data Error : Type 0 where
  app : AppError → Error
  duplicate_request : Error
  invalid_transition : Types.RequestStatus → Types.RequestStatus → Error
  rejected : Rejection → Error
  dependency : String → Error

abbrev pub new_app_error : Reason → String → Option Details → Error
new_app_error reason message details =
    app (record { reason = reason; message = message; details = details })

unfoldable pub as_app_error : Error → Option AppError
as_app_error (app e) = some e
as_app_error duplicate_request = none
as_app_error (invalid_transition a b) = none
as_app_error (rejected x) = none
as_app_error (dependency s) = none

-- errors.Is(err, domain.ErrDuplicateRequest).
abbrev pub is_duplicate : Error → Bool
is_duplicate (app e) = false
is_duplicate duplicate_request = true
is_duplicate (invalid_transition a b) = false
is_duplicate (rejected x) = false
is_duplicate (dependency s) = false
