-- ===== src/Behaviour/Reading.antt =====
-- An operation that starts with a read: what it does next is known from the tables.
use cloud_resource_manager.Base.{
  Bool, true, false, ◌≡◌, ◌≢◌, refl, sym, ◌∙◌, some, List, [], ◌∷◌, String, ℕ, ◌==◌, inl, inr,
  Bool-cases, ==-eq, ==→ne,
}
use cloud_resource_manager.Base.Action.{ok, err, ◌>>=◌, fail_if, ◌>>◌}
use cloud_resource_manager.Base.Int.{ℤ}
use cloud_resource_manager.Base.Table.{find, update, affected, All, Distinct}
use cloud_resource_manager.Domain.Types.{Uuid, Time}
use cloud_resource_manager.Postgres.Requests.{update_expiry, reserved_row, extending, count_fits}
use cloud_resource_manager.Base.Table.Laws.{All-map}
use cloud_resource_manager.Domain.Errors.{Error, dependency}
use cloud_resource_manager.Ports.{M}
use cloud_resource_manager.Postgres.Db.{Db, World, query, checked, next_fault, later_faults}
use cloud_resource_manager.Postgres.Logic.{Keeps, Keeps-fail, Keeps-statement, Keeps-checked}

module _ {F R A B : Type 0} where
  -- A read that fails leaves the tables; one that returns hands on what they hold.
  pub query-then :
      (Q : Db F → Type 0) (label : String) (f : Db F → A) (k : A → M (World F R) B) (w : World F R)
      → Q w.db
      → Keeps Q (k (f w.db))
      → Q ((query label f >>= k) w).1.db
  unfolding query
  query-then Q label f k w q h = elim (Bool-cases (next_fault w.faults)) [
    | inl e ↦ rw e q
    | inr e ↦ rw e (h.at (record w { faults = later_faults w.faults }) q)
  ]

module _ {F R A : Type 0} where
  -- A read that returns returns what the tables hold.
  pub query-ok :
      (label : String) (f : Db F → A) (w : World F R) {a : A}
      → (query label f w).0 ≡ ok a
      → f w.db ≡ a
  unfolding query
  query-ok label f w {a} h = elim (Bool-cases (next_fault w.faults)) [
    | inl e ↦ let no : err (dependency label) ≡ ok a = rw e at h in cc
    | inr e ↦ let yes' : ok (f w.db) ≡ ok a = rw e at h in cc
  ]

module _ {F R A : Type 0} {P : Db F → Type 0} where
  -- Behind a guard the test is known to be false.
  pub Keeps-guard :
      (b : Bool) (e : Error) (m : M (World F R) A)
      → (b ≡ false → Keeps P m)
      → Keeps P (fail_if b e >> m)
  Keeps-guard true e m h = Keeps-fail e
  Keeps-guard false e m h = h refl

module _ {A : Type 0} (key : A → ℕ) where
  -- Where keys are distinct, a row of the key that a search found is the row that it found.
  pub find-Distinct :
      (id : ℕ) (r : A) (xs : List A)
      → Distinct key xs
      → find (λ x. key x == id) xs ≡ some r
      → All (λ x. key x ≡ id → x ≡ r) xs
  find-Distinct id r [] d h = tt
  find-Distinct id r (x ∷ xs) d h = elim (Bool-cases (key x == id)) [
    | inl e ↦
        let found : some x ≡ some r = rw e at h in
        let same : x ≡ r = cc in
        (
          λ _. same,
          All-map (λ y. key y ≢ key x) (λ y. key y ≡ id → y ≡ r)
              (λ y n q. absurd (n (q ∙ sym (==-eq (key x) id e)))) xs d.0,
        )
    | inr e ↦ (λ q. absurd (==→ne (key x) id e q), find-Distinct id r xs d.1 (rw e at h))
  ]

module _ {F R : Type 0} (P : Db F → Type 0) where
  -- An UPDATE of the expiry keeps what the new rows keep.
  pub update_expiry-Keeps :
      (row : Uuid) (e : Time) (n : ℤ)
      → ((t : Time) (d : Db F)
          → P d
          → P (record d { requests = update (reserved_row row) (extending e n t) d.requests }))
      → Keeps {R = R} P (update_expiry row e n)
  unfolding update_expiry
  update_expiry-Keeps row e n h = record {
    at = λ w p.
        let rows = λ (d : Db F). update (reserved_row row) (extending e n w.db_clock) d.requests in
        (Keeps-statement {F = F} {R = R} {P = P} "extend request"
            (λ (d : Db F).
              checked (count_fits n (affected (reserved_row row) d.requests)) d
                (affected (reserved_row row) d.requests) (record d { requests = rows d }))
            (λ d a. Keeps-checked P _ d _ (record d { requests = rows d }) a (h w.db_clock d a))).at
          w p;
  }
