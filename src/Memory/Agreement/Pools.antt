-- ===== src/Memory/Agreement/Pools.antt =====
-- internal/repository/memory/memory.go against internal/repository/postgres/pools.go: the pools of
-- the tests and the table of pools stay the same, but for the time of the last update.
use cloud_resource_manager.Base.{
  ℕ, ◌≡◌, ◌≢◌, refl, sym, ◌∙◌, ap, Bool, true, false, ◌&&◌, some, List, [], ◌∷◌, String, ◌==◌,
  arith, inl, inr, Bool-cases, if◌then◌else◌, ==-ne, ==-eq,
}
use cloud_resource_manager.Base.Int.{ℤ, ◌-ℤ◌, leb_ℤ, ltb_ℤ}
use cloud_resource_manager.Base.Action.{ok, continue, pure}
use cloud_resource_manager.Base.Table.{update, All, Distinct}
use cloud_resource_manager.Base.Table.Laws.{All-map, All-update, All-every}
use cloud_resource_manager.External.{Doubles}
use cloud_resource_manager.Domain.Types.{Uuid, Time, ResourcePool}
use cloud_resource_manager.Postgres.Db.{World, next_fault, later_faults}
use cloud_resource_manager.Postgres.Pools
use cloud_resource_manager.Postgres.Pools.{
  update_pools, reservable, covers, reserving, releasing, dedicating, nonnegative, has_room,
}
use cloud_resource_manager.Postgres.Pools.Signs.{SamePool, SamePools, update_pools-ok}
use cloud_resource_manager.Memory.Store.{Store}
use cloud_resource_manager.Memory.Pools as Fake
use cloud_resource_manager.Memory.Pools.{by_id, left, adding, taking, moving, write}
use cloud_resource_manager.Memory.Agreement.{Once, written, writes_agree}
use cloud_resource_manager.Capacity.Room.{
  Exact, Small, Fits, Nonnegative, effective, product, has_room-left,
}

module _ {F : Type 0} where
  Once-by_id :
      (id : Uuid) (qs : List (ResourcePool F)) → Distinct (λ q. q.id) qs → Once (λ q. q.id == id) qs
  Once-by_id id [] d = tt
  Once-by_id id (q ∷ qs) d = (
    λ e.
        All-map (λ y. y.id ≢ q.id) (λ y. (y.id == id) ≡ false)
          (λ y n. ==-ne y.id id (λ same. n (same ∙ sym (==-eq q.id id e)))) qs d.0,
    Once-by_id id qs d.1,
  )

  same_id : (id : Uuid) (p q : ResourcePool F) → SamePool p q → (p.id == id) ≡ (q.id == id)
  same_id id p q e = ap (λ r. r.id == id) e

pub not_below : (a z : ℤ) → leb_ℤ a z ≡ true → ltb_ℤ z a ≡ false
not_below a z h = ground arith

pub below : (a z : ℤ) → leb_ℤ a z ≡ false → ltb_ℤ z a ≡ true
below a z h = ground arith

pub one_or_none : (b : Bool) → ((if b then 1 else 0) == 1) ≡ b
one_or_none true = refl
one_or_none false = refl

module _ {F R : Type 0} (Good : ResourcePool F → Type 0) (id : Uuid) (t u : ResourcePool F → Bool)
    (g : ResourcePool F → ResourcePool F) (h : Time → ResourcePool F → ResourcePool F)
    (same_test : (p q : ResourcePool F) → SamePool p q → Good q → t p ≡ u q)
    (same_write : (now : Time) (p q : ResourcePool F) → SamePool p q → SamePool (g p) (h now q))
    (good : (q : ResourcePool F) → Good q → nonnegative q ≡ true)
    (stays : (now : Time) (q : ResourcePool F)
      → (q.id == id && u q) ≡ true
      → Good q
      → nonnegative (h now q) ≡ true) where
  -- The UPDATE affects the one pool that the map has, or none, as the test on that pool says.
  pub update_pools-same :
      (label : String) (m : Store F) (w : World F R) {p : ResourcePool F}
      → SamePools m.pools w.db.pools
      → Distinct (λ q. q.id) w.db.pools
      → All Good w.db.pools
      → next_fault w.faults ≡ false
      → by_id id m ≡ some p
      → (w' : World F R) × (update_pools label (λ q. q.id == id && u q) h w
          ≡ (ok (if t p then 1 else 0), w'))
        × SamePools (written (t p) (λ q. q.id == id) g m.pools) w'.db.pools
  unfolding by_id
  update_pools-same label m w {p} s d a n f =
      let b = λ (q : ResourcePool F). q.id == id && u q in
      let kept = All-every nonnegative (update b (h w.db_clock) w.db.pools) (
        All-update Good (λ q. nonnegative q ≡ true) b (h w.db_clock) (stays w.db_clock)
          (λ q _ x. good q x) w.db.pools a) in
      let (count, same) =
        writes_agree SamePool Good (λ q. q.id == id) t u g (h w.db_clock) (same_id id) same_test
          (same_write w.db_clock) m.pools w.db.pools {p = p} s (Once-by_id id w.db.pools d) a f in
      let w' = record w {
        faults = later_faults w.faults;
        db = record w.db { pools = update b (h w.db_clock) w.db.pools };
      } in
      (w', update_pools-ok label b h w n kept ∙ ap (λ k. (ok k, w')) count, same)

module _ {F : Type 0} (id : Uuid) (a : ℤ) (m : Store F) {p : ResourcePool F}
    (found : by_id id m ≡ some p) where
  pub fake_try_reserve :
      (D : Doubles F)
      → Fake.try_reserve D id a m ≡ (
        ok (leb_ℤ a (left D p)),
        record m { pools = written (leb_ℤ a (left D p)) (λ q. q.id == id) (adding a) m.pools },
      )
  unfolding Fake.try_reserve
  fake_try_reserve D = elim (Bool-cases (leb_ℤ a (left D p))) [
    | inl e ↦ rw (e, found, not_below a (left D p) e) refl
    | inr e ↦ rw (e, found, below a (left D p) e) refl
  ]

  pub fake_release_reserved : Fake.release_reserved id a m ≡ (
    ok tt,
    record m { pools = written (leb_ℤ a p.reserved_amount) (λ q. q.id == id) (taking a) m.pools },
  )
  unfolding Fake.release_reserved
  fake_release_reserved = elim (Bool-cases (leb_ℤ a p.reserved_amount)) [
    | inl e ↦ rw (found, e) refl
    | inr e ↦ rw (found, e) refl
  ]

  pub fake_move : Fake.move_reserved_to_dedicated id a m ≡ (
    ok tt,
    record m { pools = written (leb_ℤ a p.reserved_amount) (λ q. q.id == id) (moving a) m.pools },
  )
  unfolding Fake.move_reserved_to_dedicated
  fake_move = elim (Bool-cases (leb_ℤ a p.reserved_amount)) [
    | inl e ↦ rw (found, e) refl
    | inr e ↦ rw (found, e) refl
  ]

abbrev pub Good : {F : Type 0} → Doubles F → ResourcePool F → Type 0
Good D q = Fits D q × Nonnegative q

module _ {F : Type 0} (D : Doubles F) (X : Exact D)
    (trunc_of_int : (z : ℤ) → Small z → D.trunc (D.of_int z) ≡ z) where
  left-effective :
      (q : ResourcePool F)
      → Fits D q
      → left D q ≡ effective D q -ℤ q.dedicated_amount -ℤ q.reserved_amount
  left-effective q f =
      ap (λ z. z -ℤ q.dedicated_amount -ℤ q.reserved_amount)
        (ap D.trunc
            (X.floor_lem (product D q) f.product_nonneg f.effective_nonneg f.effective_Small)
          ∙ trunc_of_int (effective D q) f.effective_Small)

  pub room_same :
      (a : ℤ) (p q : ResourcePool F) → SamePool p q → Good D q → leb_ℤ a (left D p) ≡ has_room D a q
  room_same a p q e (f, n) =
      ap (λ r. leb_ℤ a (left D r)) e
      ∙ ap (leb_ℤ a) (left-effective q f)
      ∙ sym (has_room-left D X a q f n)

module _ {F R : Type 0} (D : Doubles F) (id : Uuid) (a : ℤ) (w : World F R) where
  pub try_reserve_by :
      {n : ℕ} {w' : World F R}
      → update_pools "try reserve pool" (reservable D id a) (reserving a) w ≡ (ok n, w')
      → Pools.try_reserve D id a w ≡ (ok (n == 1), w')
  unfolding Pools.try_reserve
  try_reserve_by e = ap (λ r. continue r.0 (λ n. pure (n == 1)) r.1) e

  pub release_by :
      {n : ℕ} {w' : World F R}
      → update_pools "release reserved pool" (covers id a) (releasing a) w ≡ (ok n, w')
      → Pools.release_reserved id a w ≡ (ok tt, w')
  unfolding Pools.release_reserved
  release_by e = ap (λ r. continue r.0 (λ n. pure tt) r.1) e

  pub move_by :
      {n : ℕ} {w' : World F R}
      → update_pools "move reserved to dedicated pool" (covers id a) (dedicating a) w ≡ (ok n, w')
      → Pools.move_reserved_to_dedicated id a w ≡ (ok tt, w')
  unfolding Pools.move_reserved_to_dedicated
  move_by e = ap (λ r. continue r.0 (λ n. pure tt) r.1) e
