-- ===== src/Memory/Agreement/Quotas.antt =====
-- internal/repository/memory/memory.go: "the same quota math as Postgres", for what consumes a quota
-- and what gives it back.
use cloud_resource_manager.Base.{
  ◌≡◌, refl, sym, ◌∙◌, ap, subst, Bool, true, false, ◌&&◌, some, List, [], ◌∷◌, String, ◌==◌, arith,
  inl, inr, Bool-cases, eq_iff, suc, if◌then◌else◌, ◌=ₛ◌,
}
use cloud_resource_manager.Base.Int.{ℤ, pos, ◌+ℤ◌, ◌-ℤ◌, leb_ℤ, ◌≤ℤ◌, ≤ℤ→leb, -ℤ_parts}
use cloud_resource_manager.Base.Action.{ok}
use cloud_resource_manager.Base.Table.{
  find, exists, every, update, update_first, affected, Pairwise,
}
use cloud_resource_manager.Base.Table.Laws.{exists-All, update-none, All-always}
use cloud_resource_manager.Domain.Types.{CustomerQuota}
use cloud_resource_manager.Postgres.Db.{World, next_fault, later_faults}
use cloud_resource_manager.Postgres.Quotas
use cloud_resource_manager.Postgres.Quotas.{
  quota_of, consumable, consuming, giving_back, greatest, new_quota, ensured, ensure_quota,
  try_consume, update_quotas, within_limit,
}
use cloud_resource_manager.Postgres.Quotas.Bounds.{
  consuming-within, giving_back-within, new_quota-within, ensured-within,
}
use cloud_resource_manager.Memory.Store.{Store}
use cloud_resource_manager.Memory.Quotas as Fake
use cloud_resource_manager.Memory.Quotas.{using, freeing, fresh_quota, ensure}
use cloud_resource_manager.Memory.Agreement.{Once, written, writes_agree}
use cloud_resource_manager.Memory.Agreement.Pools.{one_or_none, not_below, below}

abbrev pub plain : CustomerQuota → CustomerQuota
plain q = record q { id = 0; created_at = pos 0; updated_at = pos 0 }

-- The same customer, kind, limit and use.
abbrev pub SameQuota : CustomerQuota → CustomerQuota → Type 0
SameQuota p q = plain p ≡ plain q

abbrev pub SameQuotas : List CustomerQuota → List CustomerQuota → Type 0
SameQuotas ps qs = Pairwise SameQuota ps qs

module _ {A : Type 0} (R : A → A → Type 0) (hit : A → Bool)
    (same_hit : (x y : A) → R x y → hit x ≡ hit y) where
  exists-same : (xs ys : List A) → Pairwise R xs ys → exists hit xs ≡ exists hit ys
  exists-same [] [] r = refl
  exists-same [] (y ∷ ys) r = elim r [ ]
  exists-same (x ∷ xs) [] r = elim r [ ]
  exists-same (x ∷ xs) (y ∷ ys) r = elim (Bool-cases (hit x)) [
    | inl e ↦ rw (e, sym (same_hit x y r.0) ∙ e) refl
    | inr e ↦ rw (e, sym (same_hit x y r.0) ∙ e) (exists-same xs ys r.1)
  ]

  exists-find : (xs : List A) → exists hit xs ≡ true → (x : A) × (find hit xs ≡ some x)
  exists-find [] e = cc
  exists-find (x ∷ xs) e = elim (Bool-cases (hit x)) [
    | inl t ↦ (x, rw t refl)
    | inr t ↦ let (y, f) = exists-find xs (rw t at e) in (y, rw t f)
  ]

  -- What is given back, whether a row is hit or not.
  all_agree :
      (g h : A → A)
      → ((x y : A) → R x y → R (g x) (h y))
      → (xs ys : List A) → Pairwise R xs ys
      → Once hit ys
      → Pairwise R (update_first hit g xs) (update hit h ys)
  all_agree g h write [] [] r o = tt
  all_agree g h write [] (y ∷ ys) r o = elim r [ ]
  all_agree g h write (x ∷ xs) [] r o = elim r [ ]
  all_agree g h write (x ∷ xs) (y ∷ ys) r o = elim (Bool-cases (hit x)) [
    | inl e ↦
        let ey : hit y ≡ true = sym (same_hit x y r.0) ∙ e in
        rw (e, ey) (write x y r.0, subst (Pairwise R xs) (sym (update-none hit h ys (o.0 ey))) r.1)
    | inr e ↦ rw (e, sym (same_hit x y r.0) ∙ e) (r.0, all_agree g h write xs ys r.1 o.1)
  ]

quota_self : (c k : String) → (c =ₛ c && k =ₛ k) ≡ true
quota_self c k = rw ((eq_iff c c).1 refl, (eq_iff k k).1 refl) refl

same_key : (c k : String) (p q : CustomerQuota) → SameQuota p q → quota_of c k p ≡ quota_of c k q
same_key c k p q e = ap (quota_of c k) e

given_back_same : (a u : ℤ) → (if leb_ℤ a u then u -ℤ a else pos 0) ≡ greatest (u -ℤ a) (pos 0)
given_back_same a u = ground (arith, -ℤ_parts u a)

module _ {F : Type 0} (c k : String) (a : ℤ) where
  fake_try_consume :
      (m : Store F) {p : CustomerQuota}
      → find (quota_of c k) m.quotas ≡ some p
      → Fake.try_consume c k a m ≡ (
        ok (leb_ℤ a (p.limit -ℤ p.used_amount)),
        record m {
          quotas = written (leb_ℤ a (p.limit -ℤ p.used_amount)) (quota_of c k) (using a) m.quotas;
        },
      )
  unfolding Fake.try_consume
  fake_try_consume m {p} f = elim (Bool-cases (leb_ℤ a (p.limit -ℤ p.used_amount))) [
    | inl e ↦ rw (e, f, not_below a (p.limit -ℤ p.used_amount) e) refl
    | inr e ↦ rw (e, f, below a (p.limit -ℤ p.used_amount) e) refl
  ]

module _ {F R : Type 0} (c k : String) (a : ℤ) where
  try_consume-ok :
      (w : World F R)
      → next_fault w.faults ≡ false
      → every within_limit (update (consumable c k a) (consuming a w.db_clock) w.db.quotas) ≡ true
      → try_consume c k a w ≡ (
        ok (affected (consumable c k a) w.db.quotas == 1),
        record w {
          faults = later_faults w.faults;
          db = record w.db {
            quotas = update (consumable c k a) (consuming a w.db_clock) w.db.quotas;
          };
        },
      )
  unfolding try_consume update_quotas
  try_consume-ok w n k' = rw (n, k') refl

  consume_same :
      (m : Store F) (w : World F R) {p : CustomerQuota}
      → SameQuotas m.quotas w.db.quotas
      → Once (quota_of c k) w.db.quotas
      → every within_limit w.db.quotas ≡ true
      → pos 0 ≤ℤ a
      → next_fault w.faults ≡ false
      → find (quota_of c k) m.quotas ≡ some p
      → ((Fake.try_consume c k a m).0 ≡ (try_consume c k a w).0)
        × SameQuotas (Fake.try_consume c k a m).1.quotas (try_consume c k a w).1.db.quotas
  consume_same m w {p} s o v h n f =
      let (count, same) =
        writes_agree SameQuota (λ _. Unit {0}) (quota_of c k)
          (λ q. leb_ℤ a (q.limit -ℤ q.used_amount)) (λ q. leb_ℤ a (q.limit -ℤ q.used_amount))
          (using a) (consuming a w.db_clock) (same_key c k)
          (λ x y e _. ap (λ q. leb_ℤ a (q.limit -ℤ q.used_amount)) e)
          (λ x y e. ap (λ (q : CustomerQuota). record q { used_amount = q.used_amount +ℤ a }) e)
          m.quotas w.db.quotas {p = p} s o (All-always w.db.quotas) f in
      rw
        (
          fake_try_consume c k a m f,
          try_consume-ok w n (consuming-within c k a w.db_clock w.db.quotas h v),
        )
        (
          ap (λ b. ok b)
              (sym (one_or_none (leb_ℤ a (p.limit -ℤ p.used_amount)))
                ∙ ap (λ j. j == 1) (sym count)),
          same,
        )

module _ {F : Type 0} (c k : String) (a lim : ℤ) (m : Store F) where
  fake_known :
      exists (quota_of c k) m.quotas ≡ true
      → Fake.ensure_and_try_consume c k a lim m ≡ Fake.try_consume c k a m
  unfolding Fake.ensure_and_try_consume ensure
  fake_known e = rw e refl

  fake_unknown :
      exists (quota_of c k) m.quotas ≡ false
      → Fake.ensure_and_try_consume c k a lim m
        ≡ Fake.try_consume c k a (record m {
          quotas = fresh_quota (m.uuids m.drawn) c k lim ∷ m.quotas;
          drawn = suc m.drawn;
        })
  unfolding Fake.ensure_and_try_consume ensure
  fake_unknown e = rw e refl

module _ {F R : Type 0} (c k : String) (a lim : ℤ) where
  abbrev ensured_world : World F R → World F R
  ensured_world w = record w {
    drawn = suc w.drawn;
    faults = later_faults w.faults;
    db = record w.db {
      quotas = ensured (new_quota (w.uuids w.drawn) c k lim w.db_clock) w.db.quotas;
    };
  }

  ensured_first :
      (w : World F R)
      → pos 0 ≤ℤ lim
      → next_fault w.faults ≡ false
      → Quotas.ensure_and_try_consume c k a lim w ≡ try_consume c k a (ensured_world w)
  unfolding Quotas.ensure_and_try_consume ensure_quota
  ensured_first w h n = rw (n, new_quota-within (w.uuids w.drawn) c k lim w.db_clock h) refl

  ensure_same :
      (m : Store F) (w : World F R)
      → SameQuotas m.quotas w.db.quotas
      → Once (quota_of c k) w.db.quotas
      → every within_limit w.db.quotas ≡ true
      → pos 0 ≤ℤ a
      → pos 0 ≤ℤ lim
      → next_fault w.faults ≡ false
      → next_fault (later_faults w.faults) ≡ false
      → ((Fake.ensure_and_try_consume c k a lim m).0
          ≡ (Quotas.ensure_and_try_consume c k a lim w).0)
        × SameQuotas
            (Fake.ensure_and_try_consume c k a lim m).1.quotas
            (Quotas.ensure_and_try_consume c k a lim w).1.db.quotas
  ensure_same m w s o v h hl n n' =
      let fresh = new_quota (w.uuids w.drawn) c k lim w.db_clock in
      let kept =
        ensured-within fresh w.db.quotas (new_quota-within (w.uuids w.drawn) c k lim w.db_clock hl)
          v in
      let both = exists-same SameQuota (quota_of c k) (same_key c k) m.quotas w.db.quotas s in
      elim (Bool-cases (exists (quota_of c k) m.quotas)) [
        | inl e ↦
            let there : exists (quota_of c k) w.db.quotas ≡ true = sym both ∙ e in
            let (p, f) = exists-find SameQuota (quota_of c k) (same_key c k) m.quotas e in
            rw (fake_known c k a lim m e, ensured_first w hl n)
              (consume_same c k a m (ensured_world w) {p = p} (rw there s) (rw there o) kept h n' f)
        | inr e ↦
            let absent : exists (quota_of c k) w.db.quotas ≡ false = sym both ∙ e in
            rw (fake_unknown c k a lim m e, ensured_first w hl n)
              (consume_same c k a _ (ensured_world w) {p = fresh_quota (m.uuids m.drawn) c k lim}
                (rw absent (refl, s))
                (rw absent (λ _. exists-All (quota_of c k) w.db.quotas absent, o)) kept h n'
                (rw (quota_self c k) refl))
      ]

  release_same :
      (m : Store F) (w : World F R)
      → SameQuotas m.quotas w.db.quotas
      → Once (quota_of c k) w.db.quotas
      → every within_limit w.db.quotas ≡ true
      → pos 0 ≤ℤ a
      → next_fault w.faults ≡ false
      → ((Fake.release_quota c k a m).0 ≡ (Quotas.release_quota c k a w).0)
        × SameQuotas
            (Fake.release_quota c k a m).1.quotas
            (Quotas.release_quota c k a w).1.db.quotas
  unfolding Fake.release_quota Quotas.release_quota update_quotas
  release_same m w s o v h n =
      rw (n, giving_back-within c k a w.db_clock w.db.quotas (≤ℤ→leb (pos 0) a h) v)
        (
          refl,
          all_agree SameQuota (quota_of c k) (same_key c k) (freeing a) (giving_back a w.db_clock)
              freed m.quotas w.db.quotas s o,
        )
    where
      freed :
          (x y : CustomerQuota)
          → SameQuota x y
          → SameQuota (freeing a x) (giving_back a w.db_clock y)
      freed x y e =
          ap
            (λ (q : CustomerQuota). record q {
              used_amount = if leb_ℤ a q.used_amount then q.used_amount -ℤ a else pos 0;
            })
            e
          ∙ ap (λ u. record (plain y) { used_amount = u }) (given_back_same a y.used_amount)

  -- Where the map of the tests and the table have the same quotas, but for ids and times,
  -- EnsureAndTryConsume and Release return the same from either store, and leave the same quotas in
  -- both, also for a customer with no quota of the kind: where the amount and the default limit are
  -- at or above 0, the quotas of the table meet the CHECKs of the schema, at most one of them is the
  -- customer's for the kind, and the statements do not fail.
  pub quota_writes-same :
      (m : Store F) (w : World F R)
      → SameQuotas m.quotas w.db.quotas
      → Once (quota_of c k) w.db.quotas
      → every within_limit w.db.quotas ≡ true
      → pos 0 ≤ℤ a
      → pos 0 ≤ℤ lim
      → next_fault w.faults ≡ false
      → next_fault (later_faults w.faults) ≡ false
      → (((Fake.ensure_and_try_consume c k a lim m).0
            ≡ (Quotas.ensure_and_try_consume c k a lim w).0)
          × SameQuotas
              (Fake.ensure_and_try_consume c k a lim m).1.quotas
              (Quotas.ensure_and_try_consume c k a lim w).1.db.quotas)
        × (((Fake.release_quota c k a m).0 ≡ (Quotas.release_quota c k a w).0)
            × SameQuotas
                (Fake.release_quota c k a m).1.quotas
                (Quotas.release_quota c k a w).1.db.quotas)
  quota_writes-same m w s o v h hl n n' =
      (ensure_same m w s o v h hl n n', release_same m w s o v h n)
