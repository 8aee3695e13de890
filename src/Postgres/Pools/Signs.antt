-- ===== src/Postgres/Pools/Signs.antt =====
-- internal/repository/postgres/pools.go: the CHECK constraints on the counters of a pool, which the
-- guarded UPDATEs do not break.
use cloud_resource_manager.Base.{◌≡◌, refl, Bool, true, false, ◌&&◌, List, String, ◌==◌, arith}
use cloud_resource_manager.Base.Int.{ℤ, pos, ◌+ℤ◌, ◌-ℤ◌, ◌≤ℤ◌, leb_ℤ, ≤ℤ→leb, int_laws}
use cloud_resource_manager.Base.Action.{ok}
use cloud_resource_manager.Base.Table.{update, affected, every, Pairwise}
use cloud_resource_manager.Base.Table.Laws.{All-update, every-All, All-every}
use cloud_resource_manager.Domain.Types.{Uuid, Time, ResourcePool}
use cloud_resource_manager.Postgres.Db.{World, next_fault, later_faults}
use cloud_resource_manager.Postgres.Pools.{update_pools, nonnegative, covers, releasing}

module _ {F : Type 0} where
  abbrev pub timeless : ResourcePool F → ResourcePool F
  timeless p = record p { updated_at = pos 0 }

  -- The same pool, but for the time of its last update.
  abbrev pub SamePool : ResourcePool F → ResourcePool F → Type 0
  SamePool p q = timeless p ≡ timeless q

  abbrev pub SamePools : List (ResourcePool F) → List (ResourcePool F) → Type 0
  SamePools ps qs = Pairwise SamePool ps qs

pub reserved_stays :
    (d r a : ℤ)
    → pos 0 ≤ℤ d
    → pos 0 ≤ℤ r
    → pos 0 ≤ℤ a
    → (leb_ℤ (pos 0) d && leb_ℤ (pos 0) (r +ℤ a)) ≡ true
reserved_stays d r a h k l = rw (≤ℤ→leb (pos 0) d h, ≤ℤ→leb (pos 0) (r +ℤ a) (omega int_laws)) refl

pub released_stays :
    (d r a : ℤ) → pos 0 ≤ℤ d → a ≤ℤ r → (leb_ℤ (pos 0) d && leb_ℤ (pos 0) (r -ℤ a)) ≡ true
released_stays d r a h k = rw (≤ℤ→leb (pos 0) d h, ≤ℤ→leb (pos 0) (r -ℤ a) (omega int_laws)) refl

pub moved_stays :
    (d r a : ℤ)
    → pos 0 ≤ℤ d
    → pos 0 ≤ℤ a
    → a ≤ℤ r
    → (leb_ℤ (pos 0) (d +ℤ a) && leb_ℤ (pos 0) (r -ℤ a)) ≡ true
moved_stays d r a h k l =
    rw (≤ℤ→leb (pos 0) (d +ℤ a) (omega int_laws), ≤ℤ→leb (pos 0) (r -ℤ a) (omega int_laws)) refl

pub covered : (b : Bool) (a r : ℤ) → (b && leb_ℤ a r) ≡ true → a ≤ℤ r
covered b a r h = ground arith

module _ {F R : Type 0} where
  -- A statement that does not fail, on pools that it leaves at or above 0.
  pub update_pools-ok :
      (label : String) (b : ResourcePool F → Bool) (f : Time → ResourcePool F → ResourcePool F)
      (w : World F R)
      → next_fault w.faults ≡ false
      → every nonnegative (update b (f w.db_clock) w.db.pools) ≡ true
      → update_pools label b f w ≡ (
        ok (affected b w.db.pools),
        record w {
          faults = later_faults w.faults;
          db = record w.db { pools = update b (f w.db_clock) w.db.pools };
        },
      )
  unfolding update_pools
  update_pools-ok label b f w n e = rw (n, e) refl

pub at_zero : (a b : ℤ) → (leb_ℤ (pos 0) a && leb_ℤ (pos 0) b) ≡ true → pos 0 ≤ℤ a
at_zero a b h = ground arith

pub at_zero_right : (a b : ℤ) → (leb_ℤ (pos 0) a && leb_ℤ (pos 0) b) ≡ true → pos 0 ≤ℤ b
at_zero_right a b h = ground arith

-- What a release leaves is at or above 0 where the pools were.
pub releasing-nonnegative :
    {F : Type 0} (id : Uuid) (a : ℤ) (t : Time) (ps : List (ResourcePool F))
    → every nonnegative ps ≡ true
    → every nonnegative (update (covers id a) (releasing a t) ps) ≡ true
releasing-nonnegative id a t ps h = All-every nonnegative _ (
    All-update (λ q. nonnegative q ≡ true) (λ q. nonnegative q ≡ true) (covers id a) (releasing a t)
      (λ q b x.
        released_stays q.dedicated_amount q.reserved_amount a
          (at_zero q.dedicated_amount q.reserved_amount x)
          (covered (q.id == id) a q.reserved_amount b))
      (λ q _ x. x) ps (every-All nonnegative ps h))
