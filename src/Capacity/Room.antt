-- ===== src/Capacity/Room.antt =====
-- The room of a pool: as the WHERE clause of TryReserve computes it in double precision, and as
-- `ResourcePool.Available` shows it.
use cloud_resource_manager.Base.{true, ◌≡◌, sym, ◌∙◌, ap, ◌<◌, ◌+◌, arith, if◌then◌else◌}
use cloud_resource_manager.Base.Int.{
  ℤ, pos, pos_part, neg_part, ◌+ℤ◌, ◌-ℤ◌, ◌≤ℤ◌, leb_ℤ, ltb_ℤ, int_laws,
}
use cloud_resource_manager.External.{Doubles}
use cloud_resource_manager.Domain.Types.{ResourcePool}
use cloud_resource_manager.Domain.Rules.{available}
use cloud_resource_manager.Postgres.Pools.{has_room}

-- Below 2^53 in absolute value.
abbrev pub Small : ℤ → Type 0
Small a =
    (pos_part a < 9_007_199_254_740_992 + neg_part a)
    × (neg_part a < 9_007_199_254_740_992 + pos_part a)

-- What IEEE 754 gives for whole numbers of that size: they are exact, so are their differences, a
-- comparison with one is that of the integers, and the floor of a number at or above 0 is its
-- integral part. `F` tells no negative zero from zero.
pub record Exact {F : Type 0} (D : Doubles F) : Type 0 where
  pub floor_lem :
      (x : F)
      → D.le (D.of_int (pos 0)) x ≡ true
      → pos 0 ≤ℤ D.trunc x
      → Small (D.trunc x)
      → D.floor x ≡ D.of_int (D.trunc x)
  pub sub_lem :
      (a b : ℤ)
      → Small a
      → Small b
      → Small (a -ℤ b)
      → D.sub (D.of_int a) (D.of_int b) ≡ D.of_int (a -ℤ b)
  pub le_lem : (a b : ℤ) → Small b → D.le (D.of_int a) (D.of_int b) ≡ leb_ℤ a b

pub record Nonnegative {F : Type 0} (p : ResourcePool F) : Type 0 where
  pub dedicated_nonneg : pos 0 ≤ℤ p.dedicated_amount
  pub reserved_nonneg : pos 0 ≤ℤ p.reserved_amount

module _ {F : Type 0} (D : Doubles F) where
  -- The total times the factor, and the whole units of it.
  abbrev pub product : ResourcePool F → F
  product p = D.mul (D.of_int p.total) p.oversubscribe_factor

  abbrev pub effective : ResourcePool F → ℤ
  effective p = D.trunc (product p)

  -- The product is at or above 0 and below 2^53, and the pool's counters are at most that.
  pub record Fits (p : ResourcePool F) : Type 0 where
    pub product_nonneg : D.le (D.of_int (pos 0)) (product p) ≡ true
    pub effective_nonneg : pos 0 ≤ℤ effective p
    pub effective_Small : Small (effective p)
    pub not_oversubscribed : p.dedicated_amount +ℤ p.reserved_amount ≤ℤ effective p

first_Small :
    (e d r : ℤ) → Small e → pos 0 ≤ℤ d → pos 0 ≤ℤ r → d +ℤ r ≤ℤ e → Small d × Small (e -ℤ d)
first_Small e d r s h k l =
    ((omega (int_laws, s), omega (int_laws, s)), (omega (int_laws, s), omega (int_laws, s)))

second_Small :
    (e d r : ℤ) → Small e → pos 0 ≤ℤ d → pos 0 ≤ℤ r → d +ℤ r ≤ℤ e → Small r × Small (e -ℤ d -ℤ r)
second_Small e d r s h k l =
    ((omega (int_laws, s), omega (int_laws, s)), (omega (int_laws, s), omega (int_laws, s)))

unclamped : (z : ℤ) → pos 0 ≤ℤ z → (if ltb_ℤ z (pos 0) then pos 0 else z) ≡ z
unclamped z h = ground arith

left_nonneg : (e d r : ℤ) → d +ℤ r ≤ℤ e → pos 0 ≤ℤ e -ℤ d -ℤ r
left_nonneg e d r l = omega int_laws

module _ {F : Type 0} (D : Doubles F) (X : Exact D) where
  -- The WHERE clause compares with what the product leaves, as an integer.
  pub has_room-left :
      (a : ℤ) (p : ResourcePool F)
      → Fits D p
      → Nonnegative p
      → has_room D a p ≡ leb_ℤ a (effective D p -ℤ p.dedicated_amount -ℤ p.reserved_amount)
  unfolding has_room
  has_room-left a p f n =
      let e = effective D p in
      let (ds, es) =
        first_Small e p.dedicated_amount p.reserved_amount f.effective_Small n.dedicated_nonneg
          n.reserved_nonneg f.not_oversubscribed in
      let (rs, ls) =
        second_Small e p.dedicated_amount p.reserved_amount f.effective_Small n.dedicated_nonneg
          n.reserved_nonneg f.not_oversubscribed in
      let floored : D.floor (product D p) ≡ D.of_int e =
        X.floor_lem (product D p) f.product_nonneg f.effective_nonneg f.effective_Small in
      ap
        (λ x.
          D.le (D.of_int a)
            (D.sub (D.sub x (D.of_int p.dedicated_amount)) (D.of_int p.reserved_amount)))
        floored
      ∙ ap (λ x. D.le (D.of_int a) (D.sub x (D.of_int p.reserved_amount)))
          (X.sub_lem e p.dedicated_amount f.effective_Small ds es)
      ∙ ap (D.le (D.of_int a)) (X.sub_lem (e -ℤ p.dedicated_amount) p.reserved_amount es rs ls)
      ∙ X.le_lem a (e -ℤ p.dedicated_amount -ℤ p.reserved_amount) ls

  -- On a pool whose counters are at or above 0, and together within its total times its factor
  -- (below 2^53), the WHERE clause of TryReserve admits an amount exactly if it is at most what
  -- `Available` shows; doubles are exact on whole numbers below 2^53.
  pub has_room-available :
      (a : ℤ) (p : ResourcePool F)
      → Fits D p
      → Nonnegative p
      → has_room D a p ≡ leb_ℤ a (available D p)
  unfolding available
  has_room-available a p f n =
      has_room-left a p f n
      ∙ ap (leb_ℤ a) (
          sym (
            unclamped (effective D p -ℤ p.dedicated_amount -ℤ p.reserved_amount) (
              left_nonneg (effective D p) p.dedicated_amount p.reserved_amount
                f.not_oversubscribed)))
