-- ===== src/Capacity/Statements.antt =====
-- The statements that write pools or holds, each from sound tables to sound tables.
use cloud_resource_manager.Base.{
  Bool, true, false, ◌&&◌, ◌||◌, not, ◌≡◌, refl, sym, ◌∙◌, List, [], ◌∷◌, ◌==◌, arith, inl, inr,
  Bool-cases,
}
use cloud_resource_manager.Base.Int.{ℤ, pos, ◌+ℤ◌, ◌-ℤ◌, ◌≤ℤ◌, leb_ℤ, leb→≤ℤ, int_laws}
use cloud_resource_manager.Base.Action.{ok}
use cloud_resource_manager.Base.Table.{update, affected, every, exists, All}
use cloud_resource_manager.Base.Table.Laws.{All-map, All-both, All-update, every-All}
use cloud_resource_manager.External.{Doubles}
use cloud_resource_manager.Domain.Types.{Uuid, Time, ResourcePool, Hold, HoldStatus}
use cloud_resource_manager.Domain.Errors.{dependency}
use cloud_resource_manager.Postgres.Db.{Db, insert_row}
use cloud_resource_manager.Postgres.Pools.{
  try_reserve, release_reserved, move_reserved_to_dedicated, reservable, covers, reserving,
  releasing, dedicating, nonnegative, has_room,
}
use cloud_resource_manager.Postgres.Logic.{
  Post, Ensures, Ensures-bind, Ensures-pure, Ensures-statement,
}
use cloud_resource_manager.Postgres.Requests.{
  hold_row, moving_hold, update_hold_status, insert_hold, insert_holds,
}
use cloud_resource_manager.Ledger.Sums.{Positive}
use cloud_resource_manager.Ledger.Steps.{Ensures-update_pools}
use cloud_resource_manager.Capacity.Room.{
  Exact, Fits, Nonnegative, product, effective, has_room-left,
}

-- Every pool has room for what it has promised, and every hold a positive amount.
pub record Sound {F : Type 0} (D : Doubles F) (d : Db F) : Type 0 where
  pub fits : All (Fits D) d.pools
  pub counters : All Nonnegative d.pools
  pub amounts : Positive d.holds

nonnegative-Nonnegative : {F : Type 0} (p : ResourcePool F) → nonnegative p ≡ true → Nonnegative p
nonnegative-Nonnegative p e = record {
  dedicated_nonneg = ground arith;
  reserved_nonneg = ground arith;
}

more_reserved : (a e d r : ℤ) → a ≤ℤ e -ℤ d -ℤ r → d +ℤ (r +ℤ a) ≤ℤ e
more_reserved a e d r h = omega int_laws

less_reserved : (a e d r : ℤ) → pos 1 ≤ℤ a → d +ℤ r ≤ℤ e → d +ℤ (r -ℤ a) ≤ℤ e
less_reserved a e d r h k = omega int_laws

dedicated_instead : (a e d r : ℤ) → d +ℤ r ≤ℤ e → (d +ℤ a) +ℤ (r -ℤ a) ≤ℤ e
dedicated_instead a e d r k = omega int_laws

both_true : (a b : Bool) → (a && b) ≡ true → b ≡ true
both_true a b h = ground arith

at_least_one : (z : ℤ) → not (leb_ℤ (pos 1) z) ≡ false → pos 1 ≤ℤ z
at_least_one z h = ground arith

neither : (a b : Bool) → (a || b) ≡ false → b ≡ false
neither a b h = ground arith

module _ {F : Type 0} (D : Doubles F) where
  Fits-counters :
      (p q : ResourcePool F)
      → q.total ≡ p.total
      → q.oversubscribe_factor ≡ p.oversubscribe_factor
      → Fits D p
      → q.dedicated_amount +ℤ q.reserved_amount ≤ℤ effective D p
      → Fits D q
  Fits-counters p q t o f h =
      let same : product D q ≡ product D p = rw (t, o) in
      record {
        product_nonneg = rw same f.product_nonneg;
        effective_nonneg = rw (same, effective) f.effective_nonneg;
        effective_Small = rw (same, effective) f.effective_Small;
        not_oversubscribed = rw (same, effective) h;
      }

  -- An update of pools that keeps the fit of each row that it writes.
  Sound-update :
      (d : Db F) (b : ResourcePool F → Bool) (f : ResourcePool F → ResourcePool F)
      → ((p : ResourcePool F) → b p ≡ true → Fits D p × Nonnegative p → Fits D (f p))
      → every nonnegative (update b f d.pools) ≡ true
      → Sound D d
      → Sound D (record d { pools = update b f d.pools })
  Sound-update d b f h e s = record {
    fits =
        All-update (λ p. Fits D p × Nonnegative p) (Fits D) b f h (λ p _ x. x.0) d.pools
          (All-both (Fits D) Nonnegative d.pools s.fits s.counters);
    counters =
        All-map (λ p. nonnegative p ≡ true) Nonnegative nonnegative-Nonnegative _
          (every-All nonnegative _ e);
    amounts = s.amounts;
  }

module _ {F R : Type 0} (D : Doubles F) where
  -- A reservation that TryReserve makes fits, since its WHERE clause read the room exactly.
  pub try_reserve-Sound :
      Exact D → (id : Uuid) (a : ℤ) → Ensures {R = R} (Sound D) (try_reserve D id a) (λ _. Sound D)
  unfolding try_reserve
  try_reserve-Sound X id a =
      Ensures-bind (λ _. Sound D) _ _
        (Ensures-update_pools (λ _. Sound D) "try reserve pool" (reservable D id a) (reserving a)
          (λ t d s e. Sound-update D d (reservable D id a) (reserving a t) (admitted t) e s))
        (λ n. Ensures-pure _ (λ d s. s))
    where
      admitted :
          (t : Time) (p : ResourcePool F)
          → reservable D id a p ≡ true
          → Fits D p × Nonnegative p
          → Fits D (reserving a t p)
      admitted t p h (f, n) = Fits-counters D p (reserving a t p) refl refl f (
          more_reserved a (effective D p) p.dedicated_amount p.reserved_amount
            (shown (both_true (p.id == id) (has_room D a p) h)))
        where
          shown :
              has_room D a p ≡ true → a ≤ℤ effective D p -ℤ p.dedicated_amount -ℤ p.reserved_amount
          shown e = leb→≤ℤ a _ (sym (has_room-left D X a p f n) ∙ e)

  pub release_reserved-Sound :
      (id : Uuid) (a : ℤ)
      → pos 1 ≤ℤ a
      → Ensures {R = R} (Sound D) (release_reserved id a) (λ _. Sound D)
  unfolding release_reserved
  release_reserved-Sound id a h =
      Ensures-bind (λ _. Sound D) _ _
        (Ensures-update_pools (λ _. Sound D) "release reserved pool" (covers id a) (releasing a)
          (λ t d s e.
            Sound-update D d (covers id a) (releasing a t)
              (λ p _ x. Fits-counters D p (releasing a t p) refl refl x.0 (
                less_reserved a (effective D p) p.dedicated_amount p.reserved_amount h
                  x.0.not_oversubscribed))
              e s))
        (λ n. Ensures-pure tt (λ d s. s))

  pub move_reserved_to_dedicated-Sound :
      (id : Uuid) (a : ℤ)
      → Ensures {R = R} (Sound D) (move_reserved_to_dedicated id a) (λ _. Sound D)
  unfolding move_reserved_to_dedicated
  move_reserved_to_dedicated-Sound id a =
      Ensures-bind (λ _. Sound D) _ _
        (Ensures-update_pools (λ _. Sound D) "move reserved to dedicated pool" (covers id a)
          (dedicating a)
          (λ t d s e.
            Sound-update D d (covers id a) (dedicating a t)
              (λ p _ x. Fits-counters D p (dedicating a t p) refl refl x.0 (
                dedicated_instead a (effective D p) p.dedicated_amount p.reserved_amount
                  x.0.not_oversubscribed))
              e s))
        (λ n. Ensures-pure tt (λ d s. s))

  pub insert_hold-Sound : (h : Hold) → Ensures {R = R} (Sound D) (insert_hold h) (λ _. Sound D)
  unfolding insert_hold
  insert_hold-Sound h = Ensures-statement (λ _. Sound D) "insert hold" _ (λ d s. stored d s)
    where
      stored :
          (d : Db F)
          → Sound D d
          → Post
              (λ _. Sound D)
              (insert_row
                (exists (λ x. x.id == h.id) d.holds || not (leb_ℤ (pos 1) h.amount))
                (dependency "insert hold")
                d
                (record d { holds = h ∷ d.holds })).0
              (insert_row
                (exists (λ x. x.id == h.id) d.holds || not (leb_ℤ (pos 1) h.amount))
                (dependency "insert hold")
                d
                (record d { holds = h ∷ d.holds })).1
      stored d s =
          elim (Bool-cases (exists (λ x. x.id == h.id) d.holds || not (leb_ℤ (pos 1) h.amount))) [
            | inl e ↦ rw e tt
            | inr e ↦ rw e (record {
              fits = s.fits;
              counters = s.counters;
              amounts = (at_least_one h.amount (neither _ _ e), s.amounts);
            })
          ]

  pub insert_holds-Sound :
      (hs : List Hold) → Ensures {R = R} (Sound D) (insert_holds hs) (λ _. Sound D)
  unfolding insert_holds
  insert_holds-Sound [] = Ensures-pure tt (λ d s. s)
  insert_holds-Sound (h ∷ hs) =
      Ensures-bind (λ _. Sound D) _ _ (insert_hold-Sound h) (λ _. insert_holds-Sound hs)

  pub update_hold_status-Sound :
      (id : Uuid) (from to : HoldStatus)
      → Ensures {R = R} (Sound D) (update_hold_status id from to) (λ _. Sound D)
  unfolding update_hold_status
  update_hold_status-Sound id from to = record {
    at = λ w s.
        (Ensures-statement {R = R} {P = Sound D} (λ _. Sound D) "update hold status"
            (λ (d : Db F). (
              ok (affected (hold_row id from) d.holds == 1),
              record d { holds = update (hold_row id from) (moving_hold to w.db_clock) d.holds },
            ))
            (λ d s'. moved w.db_clock d s')).at
          w s;
  }
    where
      moved :
          (t : Time) (d : Db F)
          → Sound D d
          → Sound D (record d { holds = update (hold_row id from) (moving_hold to t) d.holds })
      moved t d s = record {
        fits = s.fits;
        counters = s.counters;
        amounts =
            All-update (λ h. pos 1 ≤ℤ h.amount) (λ h. pos 1 ≤ℤ h.amount) (hold_row id from)
              (moving_hold to t) (λ h _ a. a) (λ h _ a. a) d.holds s.amounts;
      }
