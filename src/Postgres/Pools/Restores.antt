-- ===== src/Postgres/Pools/Restores.antt =====
-- internal/repository/postgres/pools.go: what TryReserve takes, ReleaseReserved gives back.
use cloud_resource_manager.Base.{
  ℕ, ◌+◌, ◌≡◌, ◌≢◌, refl, sym, ◌∙◌, ap, subst, Bool, true, false, ◌&&◌, List, [], ◌∷◌, ◌==◌, arith,
  inl, inr, Bool-cases, ==-eq, ==-ne,
}
use cloud_resource_manager.Base.Int.{ℤ, pos, ◌+ℤ◌, ◌-ℤ◌, ◌≤ℤ◌, leb_ℤ, ≤ℤ→leb, eq_of_parts, int_laws}
use cloud_resource_manager.Base.Action.{Result, ok, continue, pure}
use cloud_resource_manager.Base.Table.{update, affected, every, All, Distinct}
use cloud_resource_manager.Base.Table.Laws.{
  All-map, All-update, every-All, All-every, affected-zero, update-none,
}
use cloud_resource_manager.External.{Doubles}
use cloud_resource_manager.Domain.Types.{Uuid, Time, ResourcePool}
use cloud_resource_manager.Domain.Errors.{Error}
use cloud_resource_manager.Postgres.Db.{World, next_fault, later_faults}
use cloud_resource_manager.Postgres.Pools.{
  nonnegative, reservable, covers, reserving, releasing, has_room, try_reserve, release_reserved,
}
use cloud_resource_manager.Postgres.Pools.Signs.{
  timeless, SamePools, reserved_stays, update_pools-ok, releasing-nonnegative, at_zero,
  at_zero_right,
}

added_then_taken : (r a : ℤ) → (r +ℤ a) -ℤ a ≡ r
added_then_taken r a = eq_of_parts _ r (omega int_laws)

at_most_more : (r a : ℤ) → pos 0 ≤ℤ r → leb_ℤ a (r +ℤ a) ≡ true
at_most_more r a h = ≤ℤ→leb a (r +ℤ a) (omega int_laws)

absent : (b : Bool) (k : ℕ) → 0 + k ≡ 1 → k ≡ 0 → ⊥
absent b k h e = omega arith

behind_none : (k : ℕ) → 0 + k ≡ 1 → k ≡ 1
behind_none k h = omega arith

module _ {F : Type 0} (D : Doubles F) (id : Uuid) (a : ℤ) (t u : Time) where
  same_all : (ps : List (ResourcePool F)) → SamePools ps ps
  same_all [] = tt
  same_all (p ∷ ps) = (refl, same_all ps)

  none_of :
      (b : ResourcePool F → Bool) (ps : List (ResourcePool F))
      → All (λ p. p.id ≢ id) ps
      → All (λ p. (p.id == id && b p) ≡ false) ps
  none_of b ps =
      All-map (λ p. p.id ≢ id) (λ p. (p.id == id && b p) ≡ false) (λ p n. rw (==-ne p.id id n) refl)
        ps

  restored_rows :
      (ps : List (ResourcePool F))
      → Distinct (λ p. p.id) ps
      → All (λ p. nonnegative p ≡ true) ps
      → affected (reservable D id a) ps ≡ 1
      → SamePools
          (update (covers id a) (releasing a u) (update (reservable D id a) (reserving a t) ps))
          ps
  restored_rows [] d s n = tt
  restored_rows (p ∷ ps) d s n = elim (Bool-cases (p.id == id)) [
    | inl e ↦
        let others : All (λ q. q.id ≢ id) ps =
          All-map (λ q. q.id ≢ p.id) (λ q. q.id ≢ id) (λ q m same. m (same ∙ sym (==-eq p.id id e)))
            ps d.0 in
        let zero_more = affected-zero (reservable D id a) ps (none_of (has_room D a) ps others) in
        elim (Bool-cases (has_room D a p)) [
          | inl room ↦
              let more =
                at_most_more p.reserved_amount a
                  (at_zero_right p.dedicated_amount p.reserved_amount s.0) in
              rw (e, room)
                (rw (e, more)
                  (
                    ap (λ z. record (timeless p) { reserved_amount = z })
                        (added_then_taken p.reserved_amount a),
                    subst (λ qs. SamePools (update (covers id a) (releasing a u) qs) ps)
                        (sym (
                          update-none (reservable D id a) (reserving a t) ps
                            (none_of (has_room D a) ps others)))
                        (subst (λ qs. SamePools qs ps)
                          (sym (
                            update-none (covers id a) (releasing a u) ps
                              (none_of (λ q. leb_ℤ a q.reserved_amount) ps others)))
                          (same_all ps)),
                  ))
          | inr full ↦ absurd (absent true _ (rw (e, full) at n) zero_more)
        ]
    | inr e ↦ rw e (rw e (refl, restored_rows ps d.1 s.1 (behind_none _ (rw e at n))))
  ]

one_row : (n : ℕ) {r : Result Error Bool} → r ≡ ok true → r ≡ ok (n == 1) → n ≡ 1
one_row n h e = ground arith

reserving-nonnegative :
    {F : Type 0} (D : Doubles F) (id : Uuid) (a : ℤ) (t : Time) (ps : List (ResourcePool F))
    → pos 0 ≤ℤ a
    → every nonnegative ps ≡ true
    → every nonnegative (update (reservable D id a) (reserving a t) ps) ≡ true
reserving-nonnegative D id a t ps h s = All-every nonnegative _ (
    All-update (λ q. nonnegative q ≡ true) (λ q. nonnegative q ≡ true) (reservable D id a)
      (reserving a t)
      (λ q b x.
        reserved_stays q.dedicated_amount q.reserved_amount a
          (at_zero q.dedicated_amount q.reserved_amount x)
          (at_zero_right q.dedicated_amount q.reserved_amount x) h)
      (λ q _ x. x) ps (every-All nonnegative ps s))

module _ {F R : Type 0} (D : Doubles F) (id : Uuid) (a : ℤ) where
  abbrev granted : World F R → World F R
  granted w = record w {
    faults = later_faults w.faults;
    db = record w.db { pools = update (reservable D id a) (reserving a w.db_clock) w.db.pools };
  }

  try_reserve-granted :
      (w : World F R)
      → pos 0 ≤ℤ a
      → next_fault w.faults ≡ false
      → every nonnegative w.db.pools ≡ true
      → try_reserve D id a w ≡ (ok (affected (reservable D id a) w.db.pools == 1), granted w)
  unfolding try_reserve
  try_reserve-granted w h n s =
      ap (λ r. continue r.0 (λ k. pure (k == 1)) r.1)
        (update_pools-ok "try reserve pool" (reservable D id a) (reserving a) w n
          (reserving-nonnegative D id a w.db_clock w.db.pools h s))

  given_back :
      (w : World F R)
      → next_fault w.faults ≡ false
      → every nonnegative w.db.pools ≡ true
      → (release_reserved id a w).1.db.pools
        ≡ update (covers id a) (releasing a w.db_clock) w.db.pools
  unfolding release_reserved
  given_back w n s =
      ap (λ (r : Result Error ℕ × World F R). (continue r.0 (λ k. pure tt) r.1).1.db.pools)
        (update_pools-ok "release reserved pool" (covers id a) (releasing a) w n
          (releasing-nonnegative id a w.db_clock w.db.pools s))

  -- Where TryReserve grants an amount at or above 0, ReleaseReserved of the same amount brings the
  -- pools back to what they were, but for the time of the last update: where pools have distinct
  -- ids and counters at or above 0, and neither statement fails.
  pub release-try_reserve :
      (w : World F R)
      → pos 0 ≤ℤ a
      → every nonnegative w.db.pools ≡ true
      → Distinct (λ p. p.id) w.db.pools
      → next_fault w.faults ≡ false
      → next_fault (later_faults w.faults) ≡ false
      → (try_reserve D id a w).0 ≡ ok true
      → SamePools (release_reserved id a (try_reserve D id a w).1).1.db.pools w.db.pools
  release-try_reserve w h s d n n' yes' =
      let e = try_reserve-granted w h n s in
      let one = one_row _ yes' (ap (λ r. r.0) e) in
      rw (ap (λ r. r.1) e) (
        subst (λ ps. SamePools ps w.db.pools)
          (sym (given_back (granted w) n' (reserving-nonnegative D id a w.db_clock w.db.pools h s)))
          (restored_rows D id a w.db_clock w.db_clock w.db.pools d
            (every-All nonnegative w.db.pools s) one))
