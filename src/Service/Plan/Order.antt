-- ===== src/Service/Plan/Order.antt =====
-- internal/service/capacity.go: the order of the reservations of one request.
use cloud_resource_manager.Base.{
  ℕ, true, false, ◌≡◌, ◌≤◌, Option, List, [], ◌∷◌, inl, inr, Bool-cases, leb, arith,
}
use cloud_resource_manager.Base.Action.{Result, ok, err, Action, continue}
use cloud_resource_manager.Base.Table.{insert_by, order_by, All}
use cloud_resource_manager.Base.Table.Laws.{All-map, All-insert_by}
use cloud_resource_manager.Domain.Types.{Product}
use cloud_resource_manager.Domain.Errors.{Error}
use cloud_resource_manager.Ports.{Ports}
use cloud_resource_manager.Service.Input.{CreateInput, ReservationPlan}
use cloud_resource_manager.Service.Plan.{
  Amounts, plan_le, resolve_lines, plan_lines, build_reservation_plan,
}

-- Each plan's pool is at or before those of the plans behind it.
abbrev pub Ordered : List ReservationPlan → Type 0
Ordered [] = Unit
Ordered (p ∷ ps) = All (λ q. p.pool_id ≤ q.pool_id) ps × Ordered ps

leb-le : (a b : ℕ) → leb a b ≡ true → a ≤ b
leb-le a b h = ground arith

leb-ge : (a b : ℕ) → leb a b ≡ false → b ≤ a
leb-ge a b h = ground arith

after : (a b c : ℕ) → a ≤ b → b ≤ c → a ≤ c
after a b c h k = omega arith

insert_by-Ordered :
    (p : ReservationPlan) (ps : List ReservationPlan)
    → Ordered ps
    → Ordered (insert_by plan_le p ps)
insert_by-Ordered p [] o = (tt, tt)
insert_by-Ordered p (q ∷ qs) o = elim (Bool-cases (plan_le p q)) [
  | inl e ↦
      let first : p.pool_id ≤ q.pool_id = leb-le p.pool_id q.pool_id e in
      rw e (
        (
          first,
          All-map (λ r. q.pool_id ≤ r.pool_id) (λ r. p.pool_id ≤ r.pool_id)
              (λ r h. after p.pool_id q.pool_id r.pool_id first h) qs o.0,
        ),
        o,
      )
  | inr e ↦ rw e (
    All-insert_by (λ r. q.pool_id ≤ r.pool_id) plan_le p qs (leb-ge p.pool_id q.pool_id e) o.0,
    insert_by-Ordered p qs o.1,
  )
]

order_by-Ordered : (ps : List ReservationPlan) → Ordered (order_by plan_le ps)
order_by-Ordered [] = tt
order_by-Ordered (p ∷ ps) = insert_by-Ordered p (order_by plan_le ps) (order_by-Ordered ps)

module _ {A : Type 0} where
  abbrev Returns : (A → Type 0) → Result Error A → Type 0
  Returns Q (ok a) = Q a
  Returns Q (err e) = Unit

module _ {A B S : Type 0} (Q : B → Type 0) where
  continue-Returns :
      (r : Result Error A) (f : A → Action Error S B) (s : S)
      → ((a : A) (t : S) → Returns Q (f a t).0)
      → Returns Q (continue r f s).0
  continue-Returns (ok a) f s h = h a s
  continue-Returns (err e) f s h = tt

module _ {A : Type 0} (Q : A → Type 0) where
  returned : (r : Result Error A) {a : A} → r ≡ ok a → Returns Q r → Q a
  returned (ok b) {a} e q = let same : b ≡ a = cc in rw (← same) q
  returned (err x) e q = cc

module _ {F S : Type 0} (P : Ports F S) where
  -- Where buildReservationPlan returns, its plans are in the order of their pools, so that all
  -- requests reserve pools in one order: for any stores behind the ports.
  pub build_reservation_plan-Ordered :
      (i : CreateInput) (s : S) {plans : List ReservationPlan} {product : Option Product}
      → (build_reservation_plan P i s).0 ≡ ok (plans, product)
      → Ordered plans
  unfolding build_reservation_plan
  build_reservation_plan-Ordered i s h = returned Sorted (build_reservation_plan P i s).0 h (
      continue-Returns Sorted (resolve_lines P i s).0 _ (resolve_lines P i s).1
        (λ (resolved : Amounts × Option Product) t.
          continue-Returns Sorted (plan_lines P resolved.0 t).0 _ (plan_lines P resolved.0 t).1
            (λ ps u. order_by-Ordered ps)))
    where
      Sorted : List ReservationPlan × Option Product → Type 0
      Sorted x = Ordered x.0
