-- ===== src/Postgres/Pools.antt =====
-- internal/repository/postgres/pools.go.
pub mod Signs
pub mod Restores
use cloud_resource_manager.Base.{ℕ, Bool, ◌&&◌, Option, List, String, ◌==◌, ◌=ₛ◌}
use cloud_resource_manager.Base.Int.{ℤ, pos, ◌+ℤ◌, ◌-ℤ◌, leb_ℤ}
use cloud_resource_manager.Base.Table.{find, update, affected, every, order_by}
use cloud_resource_manager.Base.Action.{pure, ◌>>=◌}
use cloud_resource_manager.External.{Doubles}
use cloud_resource_manager.Domain.Types.{Uuid, Time, ResourcePool}
use cloud_resource_manager.Ports.{M}
use cloud_resource_manager.Postgres.Db.{World, query, statement, checked}

-- `PoolRepo.List`. `text_le` is the database's collation.
unfoldable pub list_pools :
    {F R : Type 0} → (String → String → Bool) → M (World F R) (List (ResourcePool F))
unfolding query
list_pools text_le = query "list pools" (λ d. order_by (λ p q. text_le p.kind q.kind) d.pools)

unfoldable pub get_by_kind : {F R : Type 0} → String → M (World F R) (Option (ResourcePool F))
unfolding query
get_by_kind kind = query "get pool" (λ d. find (λ p. p.kind =ₛ kind) d.pools)

-- FLOOR(total * oversubscribe_factor) - dedicated_amount - reserved_amount >= $2, which the
-- database computes in double precision.
unfoldable pub has_room : {F : Type 0} → Doubles F → ℤ → ResourcePool F → Bool
has_room D amount p = D.le (D.of_int amount) (
    D.sub
      (D.sub (D.floor (D.mul (D.of_int p.total) p.oversubscribe_factor))
        (D.of_int p.dedicated_amount))
      (D.of_int p.reserved_amount))

abbrev pub reserving : {F : Type 0} → ℤ → Time → ResourcePool F → ResourcePool F
reserving amount now p = record p {
  reserved_amount = p.reserved_amount +ℤ amount;
  updated_at = now;
}

abbrev pub releasing : {F : Type 0} → ℤ → Time → ResourcePool F → ResourcePool F
releasing amount now p = record p {
  reserved_amount = p.reserved_amount -ℤ amount;
  updated_at = now;
}

abbrev pub dedicating : {F : Type 0} → ℤ → Time → ResourcePool F → ResourcePool F
dedicating amount now p = record p {
  reserved_amount = p.reserved_amount -ℤ amount;
  dedicated_amount = p.dedicated_amount +ℤ amount;
  updated_at = now;
}

-- The WHERE clauses.
abbrev pub reservable : {F : Type 0} → Doubles F → Uuid → ℤ → ResourcePool F → Bool
reservable D pool_id amount p = p.id == pool_id && has_room D amount p

abbrev pub covers : {F : Type 0} → Uuid → ℤ → ResourcePool F → Bool
covers pool_id amount p = p.id == pool_id && leb_ℤ amount p.reserved_amount

-- CHECK (dedicated_amount >= 0) and CHECK (reserved_amount >= 0).
abbrev pub nonnegative : {F : Type 0} → ResourcePool F → Bool
nonnegative p = leb_ℤ (pos 0) p.dedicated_amount && leb_ℤ (pos 0) p.reserved_amount

-- UPDATE resource_pools SET f WHERE p, with the number of rows.
unfoldable pub update_pools :
    {F R : Type 0}
    → String
    → (ResourcePool F → Bool)
    → (Time → ResourcePool F → ResourcePool F)
    → M (World F R) ℕ
unfolding statement
update_pools label p f w =
    statement label
      (λ d.
        checked (every nonnegative (update p (f w.db_clock) d.pools)) d (affected p d.pools)
          (record d { pools = update p (f w.db_clock) d.pools }))
      w

-- A conditional UPDATE; false when it affects no row.
unfoldable pub try_reserve : {F R : Type 0} → Doubles F → Uuid → ℤ → M (World F R) Bool
unfolding update_pools
try_reserve D pool_id amount = do
  n ← update_pools "try reserve pool" (reservable D pool_id amount) (reserving amount)
  pure (n == 1)

unfoldable pub release_reserved : {F R : Type 0} → Uuid → ℤ → M (World F R) (Unit {0})
unfolding update_pools
release_reserved pool_id amount = do
  n ← update_pools "release reserved pool" (covers pool_id amount) (releasing amount)
  pure tt

unfoldable pub move_reserved_to_dedicated : {F R : Type 0} → Uuid → ℤ → M (World F R) (Unit {0})
unfolding update_pools
move_reserved_to_dedicated pool_id amount = do
  n ← update_pools "move reserved to dedicated pool" (covers pool_id amount) (dedicating amount)
  pure tt
