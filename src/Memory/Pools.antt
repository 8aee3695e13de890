-- ===== src/Memory/Pools.antt =====
-- internal/repository/memory/memory.go: Pools.
use cloud_resource_manager.Base.{
  Bool, true, false, Option, none, some, List, [], ◌∷◌, String, ◌==◌, ◌=ₛ◌, if◌then◌else◌,
}
use cloud_resource_manager.Base.Int.{ℤ, pos, ◌+ℤ◌, ◌-ℤ◌, leb_ℤ, ltb_ℤ}
use cloud_resource_manager.Base.Table.{find, put, update_first}
use cloud_resource_manager.Base.Action.{Result, ok, err}
use cloud_resource_manager.External.{Doubles}
use cloud_resource_manager.Domain.Types.{Uuid, ResourcePool}
use cloud_resource_manager.Domain.Errors.{Error, dependency}
use cloud_resource_manager.Ports.{M}
use cloud_resource_manager.Memory.Store.{Store}

-- NewPools, from the pools that are left to enter.
unfoldable pub new_pools :
    {F : Type 0} → List (ResourcePool F) → List (ResourcePool F) → List (ResourcePool F)
new_pools m [] = m
new_pools m (p ∷ ps) = new_pools (put (λ q. q.kind =ₛ p.kind) p m) ps

unfoldable pub list_pools : {F : Type 0} → M (Store F) (List (ResourcePool F))
list_pools m = (ok m.pools, m)

unfoldable pub get_by_kind : {F : Type 0} → String → M (Store F) (Option (ResourcePool F))
get_by_kind kind m = (ok (find (λ p. p.kind =ₛ kind) m.pools), m)

unfoldable pub by_id : {F : Type 0} → Uuid → Store F → Option (ResourcePool F)
by_id id m = find (λ p. p.id == id) m.pools

-- `effective - pool.DedicatedAmount - pool.ReservedAmount`.
abbrev pub left : {F : Type 0} → Doubles F → ResourcePool F → ℤ
left D p =
    D.trunc (D.floor (D.mul (D.of_int p.total) p.oversubscribe_factor))
    -ℤ p.dedicated_amount
    -ℤ p.reserved_amount

-- The write through the pointer that byID returned.
abbrev pub write : {F : Type 0} → Uuid → (ResourcePool F → ResourcePool F) → Store F → Store F
write id f m = record m { pools = update_first (λ p. p.id == id) f m.pools }

abbrev pub adding : {F : Type 0} → ℤ → ResourcePool F → ResourcePool F
adding amount p = record p { reserved_amount = p.reserved_amount +ℤ amount }

abbrev pub taking : {F : Type 0} → ℤ → ResourcePool F → ResourcePool F
taking amount p = record p { reserved_amount = p.reserved_amount -ℤ amount }

abbrev pub moving : {F : Type 0} → ℤ → ResourcePool F → ResourcePool F
moving amount p = record p {
  reserved_amount = p.reserved_amount -ℤ amount;
  dedicated_amount = p.dedicated_amount +ℤ amount;
}

abbrev pub pool_not_found : {A : Type 0} → Result Error A
pool_not_found = err (dependency "pool not found")

abbrev reserve_found :
    {F : Type 0} → Doubles F → Uuid → ℤ → Option (ResourcePool F) → M (Store F) Bool
reserve_found D id amount none m = (pool_not_found, m)
reserve_found D id amount (some p) m =
    if ltb_ℤ (left D p) amount then (ok false, m) else (ok true, write id (adding amount) m)

unfoldable pub try_reserve : {F : Type 0} → Doubles F → Uuid → ℤ → M (Store F) Bool
unfolding by_id
try_reserve D id amount m = reserve_found D id amount (by_id id m) m

-- ReleaseReserved and MoveReservedToDedicated differ in what they write.
abbrev write_covered :
    {F : Type 0}
    → Uuid
    → ℤ
    → (ResourcePool F → ResourcePool F)
    → Option (ResourcePool F)
    → M (Store F) (Unit {0})
write_covered id amount f none m = (pool_not_found, m)
write_covered id amount f (some p) m =
    (ok tt, if leb_ℤ amount p.reserved_amount then write id f m else m)

unfoldable pub release_reserved : {F : Type 0} → Uuid → ℤ → M (Store F) (Unit {0})
unfolding by_id
release_reserved id amount m = write_covered id amount (taking amount) (by_id id m) m

unfoldable pub move_reserved_to_dedicated : {F : Type 0} → Uuid → ℤ → M (Store F) (Unit {0})
unfolding by_id
move_reserved_to_dedicated id amount m = write_covered id amount (moving amount) (by_id id m) m

abbrev reserved_of : {F : Type 0} → Option (ResourcePool F) → ℤ
reserved_of none = pos 0
reserved_of (some p) = p.reserved_amount

unfoldable pub reserved_amount : {F : Type 0} → Uuid → Store F → ℤ
unfolding by_id
reserved_amount id m = reserved_of (by_id id m)
