-- ===== src/Memory/Agreement/Totals.antt =====
-- internal/repository/memory/memory.go: "the same capacity math as Postgres", for the three writes
-- of a pool.
use cloud_resource_manager.Base.{◌≡◌, refl, sym, ap, some, ◌==◌, true, false}
use cloud_resource_manager.Base.Int.{ℤ, pos, ◌+ℤ◌, ◌-ℤ◌, ◌≤ℤ◌, leb_ℤ, ≤ℤ→leb}
use cloud_resource_manager.Base.Action.{ok}
use cloud_resource_manager.Base.Table.{All, Distinct}
use cloud_resource_manager.Base.Table.Laws.{All-both}
use cloud_resource_manager.External.{Doubles}
use cloud_resource_manager.Domain.Types.{Uuid, ResourcePool}
use cloud_resource_manager.Postgres.Db.{World, next_fault}
use cloud_resource_manager.Postgres.Pools
use cloud_resource_manager.Postgres.Pools.{has_room, reserving, releasing, dedicating, nonnegative}
use cloud_resource_manager.Postgres.Pools.Signs.{
  SamePools, reserved_stays, released_stays, moved_stays, covered,
}
use cloud_resource_manager.Memory.Store.{Store}
use cloud_resource_manager.Memory.Pools as Fake
use cloud_resource_manager.Memory.Pools.{by_id, left, adding, taking, moving}
use cloud_resource_manager.Memory.Agreement.Pools.{
  Good, update_pools-same, fake_try_reserve, fake_release_reserved, fake_move, room_same,
  try_reserve_by, release_by, move_by, one_or_none,
}
use cloud_resource_manager.Capacity.Room.{Exact, Small, Fits, Nonnegative}
use cloud_resource_manager.Capacity.Statements.{Sound}

nonneg : {F : Type 0} (q : ResourcePool F) → Nonnegative q → nonnegative q ≡ true
nonneg q x =
    rw
      (
        ≤ℤ→leb (pos 0) q.dedicated_amount x.dedicated_nonneg,
        ≤ℤ→leb (pos 0) q.reserved_amount x.reserved_nonneg,
      )
      refl

module _ {F R : Type 0} (D : Doubles F) (X : Exact D)
    (trunc_of_int : (z : ℤ) → Small z → D.trunc (D.of_int z) ≡ z) (id : Uuid) (a : ℤ) (m : Store F)
    (w : World F R) {p : ResourcePool F} (h : pos 0 ≤ℤ a) (same : SamePools m.pools w.db.pools)
    (d : Distinct (λ q. q.id) w.db.pools) (sound : Sound D w.db) (n : next_fault w.faults ≡ false)
    (found : by_id id m ≡ some p) where
  good : All (Good D) w.db.pools
  good = All-both (Fits D) Nonnegative w.db.pools sound.fits sound.counters

  reserve_same :
      ((Fake.try_reserve D id a m).0 ≡ (Pools.try_reserve D id a w).0)
      × SamePools (Fake.try_reserve D id a m).1.pools (Pools.try_reserve D id a w).1.db.pools
  reserve_same =
      let (w', e, s) =
        update_pools-same (Good D) id (λ q. leb_ℤ a (left D q)) (has_room D a) (adding a)
          (reserving a) (room_same D X trunc_of_int a)
          (λ now q r e.
            ap (λ (x : ResourcePool F). record x { reserved_amount = x.reserved_amount +ℤ a }) e)
          (λ q x. nonneg q x.1)
          (λ now q _ x.
            reserved_stays q.dedicated_amount q.reserved_amount a x.1.dedicated_nonneg
              x.1.reserved_nonneg h)
          "try reserve pool" m w {p = p} same d good n found in
      rw (fake_try_reserve id a m found D, try_reserve_by D id a w e)
        (ap (λ b. ok b) (sym (one_or_none (leb_ℤ a (left D p)))), s)

  release_same :
      ((Fake.release_reserved id a m).0 ≡ (Pools.release_reserved id a w).0)
      × SamePools (Fake.release_reserved id a m).1.pools (Pools.release_reserved id a w).1.db.pools
  release_same =
      let (w', e, s) =
        update_pools-same (Good D) id (λ q. leb_ℤ a q.reserved_amount)
          (λ q. leb_ℤ a q.reserved_amount) (taking a) (releasing a)
          (λ q r e _. ap (λ x. leb_ℤ a x.reserved_amount) e)
          (λ now q r e.
            ap (λ (x : ResourcePool F). record x { reserved_amount = x.reserved_amount -ℤ a }) e)
          (λ q x. nonneg q x.1)
          (λ now q b x.
            released_stays q.dedicated_amount q.reserved_amount a x.1.dedicated_nonneg
              (covered (q.id == id) a q.reserved_amount b))
          "release reserved pool" m w {p = p} same d good n found in
      rw (fake_release_reserved id a m found, release_by D id a w e) (refl, s)

  move_same :
      ((Fake.move_reserved_to_dedicated id a m).0 ≡ (Pools.move_reserved_to_dedicated id a w).0)
      × SamePools
          (Fake.move_reserved_to_dedicated id a m).1.pools
          (Pools.move_reserved_to_dedicated id a w).1.db.pools
  move_same =
      let (w', e, s) =
        update_pools-same (Good D) id (λ q. leb_ℤ a q.reserved_amount)
          (λ q. leb_ℤ a q.reserved_amount) (moving a) (dedicating a)
          (λ q r e _. ap (λ x. leb_ℤ a x.reserved_amount) e)
          (λ now q r e.
            ap
              (λ (x : ResourcePool F). record x {
                reserved_amount = x.reserved_amount -ℤ a;
                dedicated_amount = x.dedicated_amount +ℤ a;
              })
              e)
          (λ q x. nonneg q x.1)
          (λ now q b x.
            moved_stays q.dedicated_amount q.reserved_amount a x.1.dedicated_nonneg h
              (covered (q.id == id) a q.reserved_amount b))
          "move reserved to dedicated pool" m w {p = p} same d good n found in
      rw (fake_move id a m found, move_by D id a w e) (refl, s)

  -- Where the map of the tests and the table have the same pools, but for the time of the last
  -- update, TryReserve, ReleaseReserved and MoveReservedToDedicated of an amount at or above 0 on a
  -- pool that exists return the same from either store, and leave the same pools in both: where the
  -- pools of the table have distinct ids and are sound, the statement does not fail, and doubles are
  -- exact on whole numbers below 2^53, in both directions.
  pub pool_writes-same :
      (((Fake.try_reserve D id a m).0 ≡ (Pools.try_reserve D id a w).0)
        × SamePools (Fake.try_reserve D id a m).1.pools (Pools.try_reserve D id a w).1.db.pools)
      × (((Fake.release_reserved id a m).0 ≡ (Pools.release_reserved id a w).0)
          × SamePools
              (Fake.release_reserved id a m).1.pools
              (Pools.release_reserved id a w).1.db.pools)
      × (((Fake.move_reserved_to_dedicated id a m).0 ≡ (Pools.move_reserved_to_dedicated id a w).0)
          × SamePools
              (Fake.move_reserved_to_dedicated id a m).1.pools
              (Pools.move_reserved_to_dedicated id a w).1.db.pools)
  pool_writes-same = (reserve_same, release_same, move_same)
