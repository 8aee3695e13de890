-- ===== src/Behaviour/Staleness.antt =====
-- internal/service/capacity.go: releaseReserved on a hold that is no longer ACTIVE, as when a Cancel
-- and the sweeper both listed it before either committed.
use cloud_resource_manager.Base.{
  Bool, true, false, ◌≡◌, refl, List, [], String, ◌=ₛ◌, inl, inr, Bool-cases,
}
use cloud_resource_manager.Base.Action.{ok}
use cloud_resource_manager.Base.Table.{update, every, All}
use cloud_resource_manager.Base.Table.Laws.{update-none}
use cloud_resource_manager.External.{Doubles}
use cloud_resource_manager.Domain.Types.{Hold, HoldStatus, RequestLine, hold_active}
use cloud_resource_manager.Postgres.Db.{World, exec, statement}
use cloud_resource_manager.Postgres.Pools.{
  release_reserved, update_pools, covers, releasing, nonnegative,
}
use cloud_resource_manager.Postgres.Quotas.{
  release_quota, update_quotas, quota_of, giving_back, within_limit,
}
use cloud_resource_manager.Postgres.Requests.{hold_row, moving_hold, update_hold_status}
use cloud_resource_manager.Redis.{Server}
use cloud_resource_manager.Deployment.{production}
use cloud_resource_manager.Service.Release.{release_hold, kind_by_pool}

module _ {F R : Type 0} (D : Doubles F) (text_le : String → String → Bool) (server : Server R)
    (c : String) (lines : List RequestLine) (to : HoldStatus) (h : Hold) (w : World F R) where
  -- Releasing a hold that is no longer ACTIVE takes its amount off the pool's `reserved_amount` all
  -- the same, changes no hold, and returns without an error: where no statement fails, the counters
  -- of the pools stay at or above 0, and the quotas within their limits.
  pub release_hold-stale :
      w.faults ≡ []
      → All (λ x. hold_row h.id hold_active x ≡ false) w.db.holds
      → every nonnegative
          (update (covers h.pool_id h.amount) (releasing h.amount w.db_clock) w.db.pools)
        ≡ true
      → every within_limit (
          update
            (quota_of c (kind_by_pool "" lines h.pool_id))
            (giving_back h.amount w.db_clock)
            w.db.quotas)
        ≡ true
      → ((release_hold (production D text_le server) c lines to h w).0 ≡ ok tt)
        × ((release_hold (production D text_le server) c lines to h w).1.db.holds ≡ w.db.holds)
        × ((release_hold (production D text_le server) c lines to h w).1.db.pools
            ≡ update (covers h.pool_id h.amount) (releasing h.amount w.db_clock) w.db.pools)
  unfolding release_hold release_reserved update_pools release_quota update_quotas
      update_hold_status exec statement
  release_hold-stale q a n k = elim (Bool-cases (kind_by_pool "" lines h.pool_id =ₛ "")) [
    | inl e ↦ (rw (q, n, e) refl, rw (q, n, e, same) refl, rw (q, n, e) refl)
    | inr e ↦ (rw (q, n, e, k) refl, rw (q, n, e, k, same) refl, rw (q, n, e, k) refl)
  ]
    where
      same : update (hold_row h.id hold_active) (moving_hold to w.db_clock) w.db.holds ≡ w.db.holds
      same = update-none (hold_row h.id hold_active) (moving_hold to w.db_clock) w.db.holds a
