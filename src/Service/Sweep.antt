-- ===== src/Service/Sweep.antt =====
-- internal/service/capacity.go: ExpireDue. An error on one request is logged, and the loop goes on.
use cloud_resource_manager.Base.{
  Bool, true, false, Option, none, some, List, [], ◌∷◌, if◌then◌else◌,
}
use cloud_resource_manager.Base.Int.{ℤ, pos, ◌+ℤ◌, ltb_ℤ}
use cloud_resource_manager.Base.Action.{Result, ok, err, pure, ◌>>=◌, ◌>>◌}
use cloud_resource_manager.Domain.Types.{Uuid, CapacityRequest, status_expired}
use cloud_resource_manager.Domain.Errors.{Error}
use cloud_resource_manager.Ports.{
  M, Ports, reservation_expires, sweeper_runs, sweeper_expired_holds,
}
use cloud_resource_manager.Service.Input.{sweeper_lock_key, expire_batch_size, capacity_cache_key}
use cloud_resource_manager.Service.Create.{ignored}
use cloud_resource_manager.Service.Release.{release_reserved}

module _ {F S : Type 0} (P : Ports F S) where
  -- The rest of the loop's body behind the release; the result is what `n` grows by.
  abbrev pub released : Result Error (Unit {0}) → M S ℤ
  released (err e) = pure (pos 0)
  released (ok _) = do
    P.count (reservation_expires "sweeper")
    P.count sweeper_expired_holds
    pure (pos 1)

  abbrev pub expire_found : Result Error (Option CapacityRequest) → M S ℤ
  expire_found (err e) s = (ok (pos 0), s)
  expire_found (ok none) s = (ok (pos 0), s)
  expire_found (ok (some r)) s =
      let (res, s') = release_reserved P r status_expired s in released res s'

  unfoldable pub expire_one : Uuid → M S ℤ
  unfolding release_reserved
  expire_one id s = let (found, s') = P.get_request id s in expire_found found s'

  unfoldable pub expire_each : ℤ → List Uuid → M S ℤ
  unfolding expire_one
  expire_each n [] = pure n
  expire_each n (id ∷ ids) = do k ← expire_one id; expire_each (n +ℤ k) ids

  unfoldable pub sweep : M S ℤ
  unfolding expire_each
  sweep = do
    P.count (sweeper_runs true)
    now ← P.now
    ids ← P.list_expired_ids now expire_batch_size
    n ← expire_each (pos 0) ids
    if ltb_ℤ (pos 0) n then ignored (P.invalidate_capacity capacity_cache_key) else pure tt
    pure n

  -- `defer func() { _ = s.lock.Unlock(…) }()`: also where the sweep fails.
  abbrev pub then_unlock : M S ℤ → M S ℤ
  then_unlock m s = let (r, s') = m s in (r, (P.unlock sweeper_lock_key s').1)

  abbrev pub with_lock : Bool → M S ℤ
  with_lock true = then_unlock sweep
  with_lock false = do P.count (sweeper_runs false); pure (pos 0)

  unfoldable pub expire_due : M S ℤ
  unfolding sweep
  expire_due = do got ← P.try_lock sweeper_lock_key; with_lock got
