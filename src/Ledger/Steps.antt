-- ===== src/Ledger/Steps.antt =====
-- The statements that move capacity, and what each does to the ledger.
use cloud_resource_manager.Base.{
  ℕ, Bool, true, false, ◌&&◌, ◌≡◌, ◌≢◌, refl, sym, ◌∙◌, ap, List, ◌==◌, arith, inl, inr, String,
  Bool-cases, ==-eq, ==→ne,
}
use mathlib.Core.Bool.{false≢true}
use cloud_resource_manager.Base.Int.{ℤ, pos, ◌+ℤ◌, ◌-ℤ◌, ◌≤ℤ◌, leb_ℤ, ≤ℤ→leb, int_laws}
use cloud_resource_manager.Base.Table.{update, affected, every}
use cloud_resource_manager.Base.Table.Laws.{All-map, All-update, All-update_one, Distinct-update}
use cloud_resource_manager.External.{Doubles}
use cloud_resource_manager.Domain.Types.{Uuid, Time, ResourcePool, Hold}
use cloud_resource_manager.Postgres.Db.{Db, checked}
use cloud_resource_manager.Postgres.Pools.{
  try_reserve, release_reserved, move_reserved_to_dedicated, update_pools, reservable, covers,
  reserving, releasing, dedicating, nonnegative, has_room,
}
use cloud_resource_manager.Postgres.Logic.{
  Post, Ensures, Ensures-bind, Ensures-pure, Ensures-statement,
}
use cloud_resource_manager.Ledger.Sums.{Ledger, active_sum, on_pool}

-- More pending on one pool.
abbrev pub plus : (Uuid → ℤ) → Uuid → ℤ → Uuid → ℤ
plus pending id amount p = pending p +ℤ on_pool p id amount

abbrev pub minus : (Uuid → ℤ) → Uuid → ℤ → Uuid → ℤ
minus pending id amount p = pending p -ℤ on_pool p id amount

on_pool_self : (p id : Uuid) (a : ℤ) → p ≡ id → on_pool p id a ≡ a
on_pool_self p id a h = ground arith

on_pool-other : (p id : Uuid) (a : ℤ) → p ≢ id → on_pool p id a ≡ pos 0
on_pool-other p id a h = ground arith

add_here : (r s k a o : ℤ) → o ≡ a → r ≡ s +ℤ k → r +ℤ a ≡ s +ℤ (k +ℤ o)
add_here r s k a o e h = rw (e, h) (omega int_laws)

add_elsewhere : (r s k o : ℤ) → o ≡ pos 0 → r ≡ s +ℤ k → r ≡ s +ℤ (k +ℤ o)
add_elsewhere r s k o e h = rw (e, h) (omega int_laws)

sub_here : (r s k a o : ℤ) → o ≡ a → r ≡ s +ℤ k → r -ℤ a ≡ s +ℤ (k -ℤ o)
sub_here r s k a o e h = rw (e, h) (omega int_laws)

sub_elsewhere : (r s k o : ℤ) → o ≡ pos 0 → r ≡ s +ℤ k → r ≡ s +ℤ (k -ℤ o)
sub_elsewhere r s k o e h = rw (e, h) (omega int_laws)

-- Two ways to write what is pending.
pub Ledger-cong :
    {F : Type 0} (k k' : Uuid → ℤ) {d : Db F} → ((p : Uuid) → k p ≡ k' p) → Ledger k d → Ledger k' d
Ledger-cong k k' {d} same l = record {
  pool_ids = l.pool_ids;
  hold_ids = l.hold_ids;
  amounts = l.amounts;
  counters =
      All-map (λ p. p.reserved_amount ≡ active_sum p.id d.holds +ℤ k p.id)
        (λ p. p.reserved_amount ≡ active_sum p.id d.holds +ℤ k' p.id)
        (λ p h. h ∙ ap (λ z. active_sum p.id d.holds +ℤ z) (same p.id)) d.pools l.counters;
}

module _ {F R : Type 0} {P : Db F → Type 0} (Q : ℕ → Db F → Type 0) where
  -- An update of pools that returns has kept every counter from falling below zero.
  pub Ensures-update_pools :
      (label : String) (p : ResourcePool F → Bool) (f : Time → ResourcePool F → ResourcePool F)
      → ((t : Time) (d : Db F)
          → P d
          → every nonnegative (update p (f t) d.pools) ≡ true
          → Q (affected p d.pools) (record d { pools = update p (f t) d.pools }))
      → Ensures {R = R} P (update_pools label p f) Q
  unfolding update_pools
  Ensures-update_pools label p f h = record {
    at = λ w pw. (Ensures-statement Q label _ (λ d pd. run w.db_clock d pd)).at w pw;
  }
    where
      run :
          (t : Time) (d : Db F)
          → P d
          → Post Q
              (checked
                (every nonnegative (update p (f t) d.pools))
                d
                (affected p d.pools)
                (record d { pools = update p (f t) d.pools })).0
              (checked
                (every nonnegative (update p (f t) d.pools))
                d
                (affected p d.pools)
                (record d { pools = update p (f t) d.pools })).1
      run t d pd = elim (Bool-cases (every nonnegative (update p (f t) d.pools))) [
        | inl e ↦ rw e (h t d pd e)
        | inr e ↦ rw e tt
      ]

module _ {F R : Type 0} where
  -- A reservation that succeeds makes its amount pending on its pool.
  pub try_reserve-Ledger :
      (D : Doubles F) (k : Uuid → ℤ) (id : Uuid) (a : ℤ)
      → Ensures {R = R}
          (Ledger k)
          (try_reserve D id a)
          (λ got d. got ≡ true → Ledger (plus k id a) d)
  unfolding try_reserve
  try_reserve-Ledger D k id a =
      Ensures-bind hit _ _
        (Ensures-update_pools hit "try reserve pool" (reservable D id a) (reserving a)
          (λ t d l _ one. reserved t d l one))
        (λ n. Ensures-pure (n == 1) (λ d h got. h (==-eq n 1 got)))
    where
      hit : ℕ → Db F → Type 0
      hit n d = n ≡ 1 → Ledger (plus k id a) d

      reserved :
          (t : Time) (d : Db F)
          → Ledger k d
          → affected (reservable D id a) d.pools ≡ 1
          → Ledger
              (plus k id a)
              (record d { pools = update (reservable D id a) (reserving a t) d.pools })
      reserved t d l one = record {
        pool_ids =
            Distinct-update (λ p. p.id) (reservable D id a) (reserving a t) (λ p. refl) d.pools
              l.pool_ids;
        hold_ids = l.hold_ids;
        amounts = l.amounts;
        counters =
            All-update_one (λ p. p.id) (λ p. p.reserved_amount ≡ active_sum p.id d.holds +ℤ k p.id)
              (λ p. p.reserved_amount ≡ active_sum p.id d.holds +ℤ plus k id a p.id) id
              (has_room D a) (reserving a t)
              (λ p n h. add_elsewhere _ _ _ _ (on_pool-other p.id id a n) h)
              (λ p e _ h. add_here _ _ _ _ _ (on_pool_self p.id id a e) h) d.pools l.pool_ids one
              l.counters;
      }

covers-id : (i id : Uuid) (a r : ℤ) → (i == id && leb_ℤ a r) ≡ true → i ≡ id
covers-id i id a r h = ground arith

not_covered : (i id : Uuid) (a r : ℤ) → i ≡ id → (i == id && leb_ℤ a r) ≡ false → leb_ℤ a r ≡ false
not_covered i id a r e h = ground arith

enough : (a r s : ℤ) → r ≡ s → a ≤ℤ s → leb_ℤ a r ≡ false → ⊥
enough a r s e h low = false≢true (sym low ∙ ap (λ z. leb_ℤ a z) e ∙ ≤ℤ→leb a s h)

module _ {F : Type 0} where
  -- Taking an amount off `reserved_amount`, where the pool has it, by an update that may change
  -- other columns too.
  taken :
      (k : Uuid → ℤ) (id : Uuid) (a : ℤ) (f : ResourcePool F → ResourcePool F) (d : Db F)
      → ((p : ResourcePool F) → (f p).id ≡ p.id)
      → ((p : ResourcePool F) → (f p).reserved_amount ≡ p.reserved_amount -ℤ a)
      → Ledger k d
      → a ≤ℤ active_sum id d.holds +ℤ k id
      → Ledger (minus k id a) (record d { pools = update (covers id a) f d.pools })
  taken k id a f d same less l room = record {
    pool_ids = Distinct-update (λ p. p.id) (covers id a) f same d.pools l.pool_ids;
    hold_ids = l.hold_ids;
    amounts = l.amounts;
    counters =
        All-update (λ p. p.reserved_amount ≡ active_sum p.id d.holds +ℤ k p.id)
          (λ p. p.reserved_amount ≡ active_sum p.id d.holds +ℤ minus k id a p.id) (covers id a) f
          (λ p t h. hit p (covers-id p.id id a p.reserved_amount t) h) miss d.pools l.counters;
  }
    where
      hit :
          (p : ResourcePool F)
          → p.id ≡ id
          → p.reserved_amount ≡ active_sum p.id d.holds +ℤ k p.id
          → (f p).reserved_amount ≡ active_sum (f p).id d.holds +ℤ minus k id a (f p).id
      hit p e h = rw (same p, less p) (sub_here _ _ _ _ _ (on_pool_self p.id id a e) h)

      miss :
          (p : ResourcePool F)
          → covers id a p ≡ false
          → p.reserved_amount ≡ active_sum p.id d.holds +ℤ k p.id
          → p.reserved_amount ≡ active_sum p.id d.holds +ℤ minus k id a p.id
      miss p c h = elim (Bool-cases (p.id == id)) [
        | inl e ↦
            let i : p.id ≡ id = ==-eq p.id id e in
            absurd (
              enough a p.reserved_amount (active_sum id d.holds +ℤ k id)
                (h ∙ ap (λ q. active_sum q d.holds +ℤ k q) i) room
                (not_covered p.id id a p.reserved_amount i c))
        | inr e ↦ sub_elsewhere _ _ _ _ (on_pool-other p.id id a (==→ne p.id id e)) h
      ]

-- The ledger, with what is known of the holds.
abbrev pub With : {F : Type 0} → (List Hold → Type 0) → (Uuid → ℤ) → Db F → Type 0
With G k d = Ledger k d × G d.holds

module _ {F R : Type 0} (G : List Hold → Type 0) where
  -- A release takes its amount off a pool that has it, and leaves the holds alone.
  pub release_reserved-Ledger :
      (k : Uuid → ℤ) (id : Uuid) (a : ℤ)
      → Ensures {F = F} {R = R}
          (λ d. Ledger k d × (a ≤ℤ active_sum id d.holds +ℤ k id) × G d.holds)
          (release_reserved id a)
          (λ _. With G (minus k id a))
  unfolding release_reserved
  release_reserved-Ledger k id a =
      Ensures-bind (λ _. With G (minus k id a)) _ _
        (Ensures-update_pools (λ _. With G (minus k id a)) "release reserved pool" (covers id a)
          (releasing a)
          (λ t d l _. (taken k id a (releasing a t) d (λ p. refl) (λ p. refl) l.0 l.1, l.2)))
        (λ n. Ensures-pure tt (λ d h. h))

  -- So does moving it to `dedicated_amount`.
  pub move_reserved_to_dedicated-Ledger :
      (k : Uuid → ℤ) (id : Uuid) (a : ℤ)
      → Ensures {F = F} {R = R}
          (λ d. Ledger k d × (a ≤ℤ active_sum id d.holds +ℤ k id) × G d.holds)
          (move_reserved_to_dedicated id a)
          (λ _. With G (minus k id a))
  unfolding move_reserved_to_dedicated
  move_reserved_to_dedicated-Ledger k id a =
      Ensures-bind (λ _. With G (minus k id a)) _ _
        (Ensures-update_pools (λ _. With G (minus k id a)) "move reserved to dedicated pool"
          (covers id a) (dedicating a)
          (λ t d l _. (taken k id a (dedicating a t) d (λ p. refl) (λ p. refl) l.0 l.1, l.2)))
        (λ n. Ensures-pure tt (λ d h. h))
