-- ===== src/Ledger/Holds.antt =====
-- The statements on holds, and what each does to the ledger.
use cloud_resource_manager.Base.{
  Bool, true, false, ◌||◌, not, ◌≡◌, ◌≢◌, refl, sym, ◌∙◌, some, List, [], ◌∷◌, ◌==◌, arith, inl,
  inr, Bool-cases, ==-ne, ==→ne,
}
use cloud_resource_manager.Base.Int.{ℤ, pos, ◌+ℤ◌, ◌-ℤ◌, ◌≤ℤ◌, leb_ℤ, leb→≤ℤ, int_laws}
use cloud_resource_manager.Base.Table.{find, update, exists, All}
use cloud_resource_manager.Base.Table.Laws.{
  All-map, All-update, Distinct-update, find-update_other, exists-All,
}
use cloud_resource_manager.Domain.Types.{Uuid, Time, Hold, HoldStatus, hold_active, hold_is}
use cloud_resource_manager.Domain.Errors.{dependency}
use cloud_resource_manager.Postgres.Db.{Db, World, insert_row, next_fault}
use cloud_resource_manager.Postgres.Logic.{
  Post, Ensures, Ensures-bind, Ensures-pure, Ensures-statement, Ensures-result,
}
use cloud_resource_manager.Postgres.Requests.{
  hold_row, moving_hold, update_hold_status, insert_hold, insert_holds,
}
use cloud_resource_manager.Ledger.Sums.{Ledger, active_sum, active_part, on_pool, active_sum-move}
use cloud_resource_manager.Ledger.Steps.{With, minus, Ledger-cong}

-- A hold as a listing of the table gave it.
abbrev pub IsActive : List Hold → Hold → Type 0
IsActive holds h = (find (λ x. x.id == h.id) holds ≡ some h) × (hold_is h.status hold_active ≡ true)

pub active_part-active :
    (p : Uuid) (h : Hold)
    → hold_is h.status hold_active ≡ true
    → active_part p h ≡ on_pool p h.pool_id h.amount
active_part-active p h e = rw e

settle_here : (r s s' k o : ℤ) → r ≡ s +ℤ (k -ℤ o) → s' +ℤ o ≡ s → r ≡ s' +ℤ k
settle_here r s s' k o h e = rw (h, ← e) (omega int_laws)

module _ {F : Type 0} where
  -- Moving an ACTIVE hold on settles what its pool was released of before.
  moved :
      (k : Uuid → ℤ) (to : HoldStatus) (t : Time) (h : Hold) (d : Db F)
      → hold_is to hold_active ≡ false
      → Ledger (minus k h.pool_id h.amount) d
      → IsActive d.holds h
      → Ledger k
          (record d { holds = update (hold_row h.id hold_active) (moving_hold to t) d.holds })
  moved k to t h d out l a = record {
    pool_ids = l.pool_ids;
    hold_ids =
        Distinct-update (λ x. x.id) (hold_row h.id hold_active) (moving_hold to t) (λ x. refl)
          d.holds l.hold_ids;
    amounts =
        All-update (λ x. pos 1 ≤ℤ x.amount) (λ x. pos 1 ≤ℤ x.amount) (hold_row h.id hold_active)
          (moving_hold to t) (λ x _ q. q) (λ x _ q. q) d.holds l.amounts;
    counters =
        All-map
          (λ p. p.reserved_amount ≡ active_sum p.id d.holds +ℤ minus k h.pool_id h.amount p.id)
          (λ p.
            p.reserved_amount
            ≡ active_sum p.id (update (hold_row h.id hold_active) (moving_hold to t) d.holds)
              +ℤ k p.id)
          (λ p q. settle_here _ _ _ _ _ q (
            rw (← active_part-active p.id h a.1)
              (active_sum-move p.id to t d.holds h out l.hold_ids a.0)))
          d.pools l.counters;
  }

-- The other holds of a listing are as they were.
others :
    (to : HoldStatus) (t : Time) (h : Hold) (holds hs : List Hold)
    → All (λ x. x.id ≢ h.id) hs
    → All (IsActive holds) hs
    → All (IsActive (update (hold_row h.id hold_active) (moving_hold to t) holds)) hs
others to t h holds [] n a = tt
others to t h holds (x ∷ hs) n a = (
  (
    find-update_other (λ y. y.id) x.id (hold_row h.id hold_active) (moving_hold to t) (λ y. refl)
          (λ y e. rw (==-ne y.id h.id (λ q. n.0 (sym e ∙ q)))) holds
        ∙ a.0.0,
    a.0.1,
  ),
  others to t h holds hs n.1 a.1,
)

-- The holds that are still to be visited, in the tables as they are now.
abbrev pub Listed : List Hold → List Hold → Type 0
Listed hs holds = All (IsActive holds) hs

unfoldable pub hold_sum : Uuid → List Hold → ℤ
hold_sum p [] = pos 0
hold_sum p (h ∷ hs) = on_pool p h.pool_id h.amount +ℤ hold_sum p hs

write_down : (r s k o a : ℤ) → a ≡ o → r ≡ s +ℤ k → r ≡ (a +ℤ s) +ℤ (k -ℤ o)
write_down r s k o a e h = rw (e, h) (omega int_laws)

no_change : (k : ℤ) → k ≡ k -ℤ pos 0
no_change k = omega int_laws

regroup : (k o s : ℤ) → k -ℤ o -ℤ s ≡ k -ℤ (o +ℤ s)
regroup k o s = omega int_laws

or_false : (a b : Bool) → (a || b) ≡ false → (a ≡ false) × (b ≡ false)
or_false a b h = ground arith

not-false : (b : Bool) → not b ≡ false → b ≡ true
not-false b h = ground arith

module _ {F : Type 0} where
  inserted :
      (k : Uuid → ℤ) (h : Hold) (d : Db F)
      → hold_is h.status hold_active ≡ true
      → (exists (λ x. x.id == h.id) d.holds || not (leb_ℤ (pos 1) h.amount)) ≡ false
      → Ledger k d
      → Ledger (minus k h.pool_id h.amount) (record d { holds = h ∷ d.holds })
  unfolding active_sum
  inserted k h d act fresh l =
      let (new, positive) = or_false _ _ fresh in
      record {
        pool_ids = l.pool_ids;
        hold_ids = (
          All-map (λ x. (x.id == h.id) ≡ false) (λ x. x.id ≢ h.id) (λ x. ==→ne x.id h.id) d.holds
              (exists-All (λ x. x.id == h.id) d.holds new),
          l.hold_ids,
        );
        amounts = (leb→≤ℤ (pos 1) h.amount (not-false _ positive), l.amounts);
        counters =
            All-map (λ p. p.reserved_amount ≡ active_sum p.id d.holds +ℤ k p.id)
              (λ p.
                p.reserved_amount
                ≡ active_sum p.id (h ∷ d.holds) +ℤ minus k h.pool_id h.amount p.id)
              (λ p q. write_down _ _ _ _ _ (active_part-active p.id h act) q) d.pools l.counters;
      }

module _ {F R : Type 0} where
  -- A hold that a listing gave is moved on, and the rest of the listing stands.
  pub update_hold_status-Ledger :
      (k : Uuid → ℤ) (to : HoldStatus) (h : Hold) (hs : List Hold)
      → hold_is to hold_active ≡ false
      → All (λ x. x.id ≢ h.id) hs
      → Ensures {F = F} {R = R}
          (With (Listed (h ∷ hs)) (minus k h.pool_id h.amount))
          (update_hold_status h.id hold_active to)
          (λ _. With (Listed hs) k)
  unfolding update_hold_status
  update_hold_status-Ledger k to h hs out n = record { at = λ w p. run w p }
    where
      run :
          (w : World F R)
          → With (Listed (h ∷ hs)) (minus k h.pool_id h.amount) w.db
          → Post
              (λ _. With (Listed hs) k)
              (update_hold_status h.id hold_active to w).0
              (update_hold_status h.id hold_active to w).1.db
      run w p = elim (Bool-cases (next_fault w.faults)) [
        | inl e ↦ rw e tt
        | inr e ↦ rw e (
          moved k to w.db_clock h w.db out p.0 p.1.0,
          others to w.db_clock h w.db.holds hs n p.1.1,
        )
      ]

  pub insert_hold-Ledger :
      (k : Uuid → ℤ) (h : Hold)
      → hold_is h.status hold_active ≡ true
      → Ensures {F = F} {R = R}
          (Ledger k)
          (insert_hold h)
          (λ _. Ledger (minus k h.pool_id h.amount))
  unfolding insert_hold
  insert_hold-Ledger k h act =
      Ensures-statement (λ _. Ledger (minus k h.pool_id h.amount)) "insert hold" _ (λ d l. run d l)
    where
      run :
          (d : Db F)
          → Ledger k d
          → let clash = exists (λ x. x.id == h.id) d.holds || not (leb_ℤ (pos 1) h.amount) in
            let r =
              insert_row clash (dependency "insert hold") d (record d { holds = h ∷ d.holds }) in
            Post (λ _. Ledger (minus k h.pool_id h.amount)) r.0 r.1
      run d l =
          elim (Bool-cases (exists (λ x. x.id == h.id) d.holds || not (leb_ℤ (pos 1) h.amount))) [
            | inl e ↦ rw e tt
            | inr e ↦ rw e (inserted k h d act e l)
          ]

  -- Writing the holds down settles what is pending by their sum.
  pub insert_holds-Ledger :
      (k : Uuid → ℤ) (hs : List Hold)
      → All (λ h. hold_is h.status hold_active ≡ true) hs
      → Ensures {F = F} {R = R}
          (Ledger k)
          (insert_holds hs)
          (λ _. Ledger (λ p. k p -ℤ hold_sum p hs))
  unfolding insert_holds hold_sum
  insert_holds-Ledger k [] act = Ensures-pure tt (λ d l. Ledger-cong k _ (λ p. no_change (k p)) l)
  insert_holds-Ledger k (h ∷ hs) act =
      Ensures-bind (λ _. Ledger (minus k h.pool_id h.amount)) _ _ (insert_hold-Ledger k h act.0)
        (λ _.
          Ensures-result (λ _. Ledger (λ p. minus k h.pool_id h.amount p -ℤ hold_sum p hs)) _
            (λ _ d l. Ledger-cong _ _ (λ p. regroup (k p) _ (hold_sum p hs)) l)
            (insert_holds-Ledger (minus k h.pool_id h.amount) hs act.1))
