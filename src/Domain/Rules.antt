-- ===== src/Domain/Rules.antt =====
-- internal/domain: the methods of types.go and the rules of helpers.go.
use cloud_resource_manager.Base.{Bool, ◌||◌, ◌&&◌, if◌then◌else◌}
use cloud_resource_manager.Base.Int.{ℤ, pos, ◌-ℤ◌, ltb_ℤ, leb_ℤ}
use cloud_resource_manager.Base.Action.{Result, ok, err}
use cloud_resource_manager.External.{Doubles}
use cloud_resource_manager.Domain.Types.{
  ResourcePool, CustomerQuota, RequestStatus, status_reserved, status_completed, status_cancelled,
  status_expired, status_is,
}
use cloud_resource_manager.Domain.Errors.{Error, invalid_transition}

module _ {F : Type 0} (D : Doubles F) where
  -- `int64(float64(p.Total) * p.OversubscribeFactor)` truncates.
  unfoldable pub available : ResourcePool F → ℤ
  available p =
      let effective = D.trunc (D.mul (D.of_int p.total) p.oversubscribe_factor) in
      let avail = effective -ℤ p.dedicated_amount -ℤ p.reserved_amount in
      if ltb_ℤ avail (pos 0) then pos 0 else avail

  unfoldable pub available_ratio : ℤ → ℤ → ℤ → F → F
  available_ratio total dedicated reserved oversubscribe =
      if leb_ℤ total (pos 0)
      then D.of_int (pos 0)
      else (let effective = D.mul (D.of_int total) oversubscribe in
          let avail = D.sub (D.sub effective (D.of_int dedicated)) (D.of_int reserved) in
          let avail' = if D.lt avail (D.of_int (pos 0)) then D.of_int (pos 0) else avail in
          D.div avail' (D.of_int total))

unfoldable pub remaining : CustomerQuota → ℤ
remaining q = let r = q.limit -ℤ q.used_amount in if ltb_ℤ r (pos 0) then pos 0 else r

-- The rows of `allowed`; a status with no row allows nothing.
unfoldable pub allowed : RequestStatus → RequestStatus → Bool
allowed from to =
    status_is from status_reserved
    && (status_is to status_completed
        || status_is to status_cancelled
        || status_is to status_expired
        || status_is to status_reserved)

unfoldable pub validate_transition : RequestStatus → RequestStatus → Result Error (Unit {0})
unfolding allowed
validate_transition from to = if allowed from to then ok tt else err (invalid_transition from to)
