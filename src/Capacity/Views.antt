-- ===== src/Capacity/Views.antt =====
-- internal/service/capacity.go: what ListCapacity shows a customer, against what a reservation asks
-- of the pool and of the quota.
use cloud_resource_manager.Base.{true, ◌&&◌, ◌≡◌, ap, sym, ◌∙◌, some, String, arith}
use cloud_resource_manager.Base.Int.{ℤ, pos, ◌≤ℤ◌, leb_ℤ}
use cloud_resource_manager.External.{Doubles}
use cloud_resource_manager.Domain.Types.{ResourcePool, CustomerQuota}
use cloud_resource_manager.Domain.Rules.{available, remaining}
use cloud_resource_manager.Postgres.Pools.{has_room}
use cloud_resource_manager.Postgres.Quotas.{consumable, quota_of}
use cloud_resource_manager.Postgres.Quotas.Bounds.{consumable-remaining}
use cloud_resource_manager.Service.Read.{smaller, view_of}
use cloud_resource_manager.Capacity.Room.{Exact, Fits, Nonnegative, has_room-available}

within_both : (a r v : ℤ) → leb_ℤ a (smaller r v) ≡ (leb_ℤ a v && leb_ℤ a r)
within_both a r v = ground arith

module _ {F : Type 0} (D : Doubles F) (X : Exact D) where
  -- With doubles that are exact on whole numbers below 2^53, for a pool whose counters are at or
  -- above 0 and together within its total times its factor, and a quota of the customer for its
  -- kind: a positive amount is at most what the customer's view of the pool shows exactly if the
  -- pool's WHERE clause and the quota's both admit it.
  pub view_of-admits :
      (customer_id kind : String) (a : ℤ) (q : CustomerQuota) (p : ResourcePool F)
      → pos 1 ≤ℤ a
      → quota_of customer_id kind q ≡ true
      → Fits D p
      → Nonnegative p
      → leb_ℤ a (view_of D (some q) p).available
        ≡ (has_room D a p && consumable customer_id kind a q)
  unfolding view_of
  view_of-admits customer_id kind a q p h own f n =
      let quota : consumable customer_id kind a q ≡ leb_ℤ a (remaining q) =
        consumable-remaining customer_id kind a q h ∙ ap (λ b. b && leb_ℤ a (remaining q)) own in
      within_both a (remaining q) (available D p)
      ∙ ap (λ b. b && leb_ℤ a (remaining q)) (sym (has_room-available D X a p f n))
      ∙ ap (λ b. has_room D a p && b) (sym quota)
