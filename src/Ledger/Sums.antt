-- ===== src/Ledger/Sums.antt =====
-- The sum of the ACTIVE holds on a pool, and the invariant that ties it to `reserved_amount`.
use cloud_resource_manager.Base.{
  false, ◌≡◌, ◌≢◌, sym, ◌∙◌, some, List, [], ◌∷◌, ◌==◌, arith, inl, inr, if◌then◌else◌, Bool-cases,
  ==-eq, ==-ne, ==→ne,
}
use cloud_resource_manager.Base.Int.{ℤ, pos, ◌+ℤ◌, ◌≤ℤ◌, int_laws}
use cloud_resource_manager.Base.Table.{find, update, All, Distinct}
use cloud_resource_manager.Base.Table.Laws.{All-map, update-none}
use cloud_resource_manager.Domain.Types.{Uuid, Time, Hold, HoldStatus, hold_active, hold_is}
use cloud_resource_manager.Postgres.Db.{Db}
use cloud_resource_manager.Postgres.Requests.{hold_row, moving_hold}

-- An amount on a pool, as seen from the pool `p`.
abbrev pub on_pool : Uuid → Uuid → ℤ → ℤ
on_pool p pool_id amount = if pool_id == p then amount else pos 0

abbrev pub active_part : Uuid → Hold → ℤ
active_part p h = if hold_is h.status hold_active then on_pool p h.pool_id h.amount else pos 0

-- The sum of the amounts of the ACTIVE holds on a pool.
unfoldable pub active_sum : Uuid → List Hold → ℤ
active_sum p [] = pos 0
active_sum p (h ∷ hs) = active_part p h +ℤ active_sum p hs

abbrev pub Positive : List Hold → Type 0
Positive = All (λ h. pos 1 ≤ℤ h.amount)

-- The counters of the pools are the sums of the holds, but for `pending`: what a transaction under
-- way has reserved, and not yet written down as a hold.
pub record Ledger {F : Type 0} (pending : Uuid → ℤ) (d : Db F) : Type 0 where
  pub pool_ids : Distinct (λ p. p.id) d.pools
  pub hold_ids : Distinct (λ h. h.id) d.holds
  pub amounts : Positive d.holds
  pub counters : All (λ p. p.reserved_amount ≡ active_sum p.id d.holds +ℤ pending p.id) d.pools

abbrev pub nothing : Uuid → ℤ
nothing _ = pos 0

-- Between transactions nothing is pending.
abbrev pub Balanced : {F : Type 0} → Db F → Type 0
Balanced = Ledger nothing

on_pool-nonneg : (p q : Uuid) (a : ℤ) → pos 1 ≤ℤ a → pos 0 ≤ℤ on_pool p q a
on_pool-nonneg p q a h = ground arith

pub active_part-nonneg : (p : Uuid) (h : Hold) → pos 1 ≤ℤ h.amount → pos 0 ≤ℤ active_part p h
active_part-nonneg p h a = ground arith

pub active_sum-nonneg : (p : Uuid) (hs : List Hold) → Positive hs → pos 0 ≤ℤ active_sum p hs
unfolding active_sum
active_sum-nonneg p [] a = omega arith
active_sum-nonneg p (h ∷ hs) a =
    omega (int_laws, active_sum-nonneg p hs a.1, active_part-nonneg p h a.0)

-- A hold of the table is at most the sum over its pool.
pub active_sum-ge :
    (p : Uuid) (hs : List Hold) (h : Hold)
    → Positive hs
    → find (λ x. x.id == h.id) hs ≡ some h
    → active_part p h ≤ℤ active_sum p hs
unfolding active_sum
active_sum-ge p [] h a f = cc
active_sum-ge p (x ∷ xs) h a f = elim (Bool-cases (x.id == h.id)) [
  | inl e ↦
      let found : some x ≡ some h = rw e at f in
      let same : x ≡ h = cc in rw same (omega (int_laws, active_sum-nonneg p xs a.1))
  | inr e ↦ omega (int_laws, active_sum-ge p xs h a.1 (rw e at f), active_part-nonneg p x a.0)
]

not_row : (id : Uuid) (y : Hold) → y.id ≢ id → hold_row id hold_active y ≡ false
not_row id y n = rw (==-ne y.id id n)

swap_zero : (a s b : ℤ) → a ≡ pos 0 → a +ℤ s +ℤ b ≡ b +ℤ s
swap_zero a s b h = rw h (omega int_laws)

behind : (a s b : ℤ) {s' : ℤ} → s +ℤ b ≡ s' → a +ℤ s +ℤ b ≡ a +ℤ s'
behind a s b h = rw (← h) (omega int_laws)

moved_part :
    (p : Uuid) (to : HoldStatus) (t : Time) (h : Hold)
    → hold_is to hold_active ≡ false
    → active_part p (if hold_row h.id hold_active h then moving_hold to t h else h) ≡ pos 0
moved_part p to t h out = ground arith

-- The case of the next lemma where the hold stands first.
move_head :
    (p : Uuid) (to : HoldStatus) (t : Time) (x h : Hold) (xs : List Hold)
    → x ≡ h
    → hold_is to hold_active ≡ false
    → update (hold_row h.id hold_active) (moving_hold to t) xs ≡ xs
    → active_sum p (update (hold_row h.id hold_active) (moving_hold to t) (x ∷ xs))
        +ℤ active_part p h
      ≡ active_sum p (x ∷ xs)
unfolding active_sum
move_head p to t x h xs same out rest =
    rw (same, rest) (swap_zero _ _ (active_part p h) (moved_part p to t h out))

-- Moving a hold out of ACTIVE takes its amount from the sum of its pool.
pub active_sum-move :
    (p : Uuid) (to : HoldStatus) (t : Time) (hs : List Hold) (h : Hold)
    → hold_is to hold_active ≡ false
    → Distinct (λ x. x.id) hs
    → find (λ x. x.id == h.id) hs ≡ some h
    → active_sum p (update (hold_row h.id hold_active) (moving_hold to t) hs) +ℤ active_part p h
      ≡ active_sum p hs
unfolding active_sum
active_sum-move p to t [] h out d f = cc
active_sum-move p to t (x ∷ xs) h out d f = elim (Bool-cases (x.id == h.id)) [
  | inl e ↦
      let found : some x ≡ some h = rw e at f in
      let same : x ≡ h = cc in
      move_head p to t x h xs same out (
        update-none (hold_row h.id hold_active) (moving_hold to t) xs (
          All-map (λ y. y.id ≢ x.id) (λ y. hold_row h.id hold_active y ≡ false)
            (λ y n. not_row h.id y (λ q. n (q ∙ sym (==-eq x.id h.id e)))) xs d.0))
  | inr e ↦ rw (not_row h.id x (==→ne x.id h.id e)) (
      behind (active_part p x) _ (active_part p h)
        (active_sum-move p to t xs h out d.1 (rw e at f)))
]
