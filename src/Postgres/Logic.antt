-- ===== src/Postgres/Logic.antt =====
-- How to reason about actions on the world: what holds of the tables when an action has returned,
-- and what holds of them in any case. A transaction turns the first into the second.
use cloud_resource_manager.Base.{
  Bool, true, false, ◌≡◌, refl, String, Bool-cases, inl, inr, if◌then◌else◌,
}
use cloud_resource_manager.Base.Action.{
  Result, ok, err, Action, pure, fail, fail_if, lift, continue, ◌>>=◌,
}
use cloud_resource_manager.Domain.Errors.{Error}
use cloud_resource_manager.Ports.{M, Metric}
use cloud_resource_manager.Postgres.Db.{
  Db, World, statement, query, checked, finish, within_tx, next_fault, later_faults,
}
use cloud_resource_manager.Deployment.{now, new_uuid, count, on_redis}

-- What the tables satisfy after a result.
abbrev pub Post : {F A : Type 0} → (A → Db F → Type 0) → Result Error A → Db F → Type 0
Post Q (ok a) d = Q a d
Post Q (err e) d = Unit

-- From tables with `P`, where the action returns a result the tables and it satisfy `Q`.
pub record Ensures {F R A : Type 0} (P : Db F → Type 0) (m : M (World F R) A)
    (Q : A → Db F → Type 0) : Type 0 where
  pub at : (w : World F R) → P w.db → Post Q (m w).0 (m w).1.db

-- Tables with `P` have it still, whether the action returns or fails.
pub record Keeps {F R A : Type 0} (P : Db F → Type 0) (m : M (World F R) A) : Type 0 where
  pub at : (w : World F R) → P w.db → P (m w).1.db

module _ {F R A : Type 0} {P : Db F → Type 0} {Q : A → Db F → Type 0} where
  pub Ensures-pure : (a : A) → ((d : Db F) → P d → Q a d) → Ensures {R = R} P (pure a) Q
  Ensures-pure a h = record { at = λ w p. h w.db p }

  pub Ensures-fail : (e : Error) → Ensures {R = R} P (fail e) Q
  Ensures-fail e = record { at = λ w p. tt }

  pub Ensures-weaken :
      (P' : Db F → Type 0) (m : M (World F R) A)
      → ((d : Db F) → P d → P' d)
      → Ensures P' m Q
      → Ensures P m Q
  Ensures-weaken P' m h t = record { at = λ w p. t.at w (h w.db p) }

  -- What the tables say of values that are already at hand may be used to go on.
  pub Ensures-given :
      (C : Type 0) (m : M (World F R) A)
      → ((d : Db F) → P d → C)
      → (C → Ensures P m Q)
      → Ensures P m Q
  Ensures-given C m h k = record { at = λ w p. (k (h w.db p)).at w p }

  pub Ensures-lift :
      (r : Result Error A)
      → ((a : A) (d : Db F) → r ≡ ok a → P d → Q a d)
      → Ensures {R = R} P (lift r) Q
  Ensures-lift (ok a) h = record { at = λ w p. h a w.db refl p }
  Ensures-lift (err e) h = record { at = λ w p. tt }

Post-mono :
    {F A : Type 0} (Q Q' : A → Db F → Type 0)
    → ((a : A) (d : Db F) → Q a d → Q' a d)
    → (r : Result Error A) (d : Db F) → Post Q r d
    → Post Q' r d
Post-mono Q Q' h (ok a) d q = h a d q
Post-mono Q Q' h (err e) d q = tt

module _ {F R A : Type 0} {P : Db F → Type 0} (Q : A → Db F → Type 0) {Q' : A → Db F → Type 0} where
  pub Ensures-result :
      (m : M (World F R) A) → ((a : A) (d : Db F) → Q a d → Q' a d) → Ensures P m Q → Ensures P m Q'
  Ensures-result m h t = record { at = λ w p. Post-mono Q Q' h (m w).0 (m w).1.db (t.at w p) }

module _ {F R A B : Type 0} {Q' : B → Db F → Type 0} where
  Post-continue :
      (Q : A → Db F → Type 0) (f : A → M (World F R) B)
      → ((a : A) → Ensures (Q a) (f a) Q')
      → (r : Result Error A) (w : World F R) → Post Q r w.db
      → Post Q' (continue r f w).0 (continue r f w).1.db
  Post-continue Q f h (ok a) w q = (h a).at w q
  Post-continue Q f h (err e) w q = tt

module _ {F R A B : Type 0} {P : Db F → Type 0} {Q' : B → Db F → Type 0} where
  pub Ensures-bind :
      (Q : A → Db F → Type 0) (m : M (World F R) A) (f : A → M (World F R) B)
      → Ensures P m Q
      → ((a : A) → Ensures (Q a) (f a) Q')
      → Ensures P (m >>= f) Q'
  Ensures-bind Q m f t h = record { at = λ w p. Post-continue Q f h (m w).0 (m w).1 (t.at w p) }

module _ {F R A : Type 0} {P : Db F → Type 0} where
  -- What is kept in any case is ensured.
  pub kept : (m : M (World F R) A) → Keeps P m → Ensures P m (λ _. P)
  kept m h = record { at = λ w p. after (m w).0 (h.at w p) }
    where
      after : (r : Result Error A) {d : Db F} → P d → Post (λ _. P) r d
      after (ok a) p = p
      after (err e) p = tt

module _ {F R : Type 0} {P : Db F → Type 0} where
  -- Behind a guard its test is known to have failed.
  pub Ensures-fail_if :
      (b : Bool) (e : Error) → Ensures {R = R} P (fail_if b e) (λ _ d. P d × (b ≡ false))
  Ensures-fail_if true e = record { at = λ w p. tt }
  Ensures-fail_if false e = record { at = λ w p. (p, refl) }

  -- Actions that leave the tables alone.
  pub Ensures-now : Ensures {R = R} P now (λ _. P)
  unfolding now
  Ensures-now = record { at = λ w p. p }

  pub Ensures-new_uuid : Ensures {R = R} P new_uuid (λ _. P)
  unfolding new_uuid
  Ensures-new_uuid = record { at = λ w p. p }

  pub Keeps-now : Keeps {R = R} P now
  unfolding now
  Keeps-now = record { at = λ w p. p }

  pub Keeps-new_uuid : Keeps {R = R} P new_uuid
  unfolding new_uuid
  Keeps-new_uuid = record { at = λ w p. p }

  pub Keeps-count : (m : Metric F) → Keeps {R = R} P (count m)
  unfolding count
  Keeps-count m = record { at = λ w p. p }

  pub Keeps-on_redis : {A : Type 0} (m : Action Error R A) → Keeps P (on_redis m)
  unfolding on_redis
  Keeps-on_redis m = record { at = λ w p. p }

module _ {F R A : Type 0} {P : Db F → Type 0} where
  pub Keeps-pure : (a : A) → Keeps {R = R} P (pure a)
  Keeps-pure a = record { at = λ w p. p }

  pub Keeps-fail : (e : Error) → Keeps {R = R} {A = A} P (fail e)
  Keeps-fail e = record { at = λ w p. p }

  pub Keeps-lift : (r : Result Error A) → Keeps {R = R} P (lift r)
  Keeps-lift r = record { at = λ w p. p }

  pub Keeps-if :
      (b : Bool) (m n : M (World F R) A) → Keeps P m → Keeps P n → Keeps P (if b then m else n)
  Keeps-if true m n h k = h
  Keeps-if false m n h k = k

  pub Keeps-query : (label : String) (f : Db F → A) → Keeps {R = R} P (query label f)
  unfolding query
  Keeps-query label f = record { at = λ w p. unchanged w p }
    where
      unchanged : (w : World F R) → P w.db → P (query label f w).1.db
      unchanged w p = elim (Bool-cases (next_fault w.faults)) [ inl e ↦ rw e p | inr e ↦ rw e p ]

  pub Ensures-query :
      (label : String) (f : Db F → A) → Ensures {R = R} P (query label f) (λ a d. P d × (a ≡ f d))
  unfolding query
  Ensures-query label f = record { at = λ w p. read w p }
    where
      read :
          (w : World F R)
          → P w.db
          → Post (λ a d. P d × (a ≡ f d)) (query label f w).0 (query label f w).1.db
      read w p = elim (Bool-cases (next_fault w.faults)) [
        | inl e ↦ rw e tt
        | inr e ↦ rw e (p, refl)
      ]

  pub Ensures-statement :
      (Q : A → Db F → Type 0) (label : String) (f : Db F → Result Error A × Db F)
      → ((d : Db F) → P d → Post Q (f d).0 (f d).1)
      → Ensures {R = R} P (statement label f) Q
  unfolding statement
  Ensures-statement Q label f h = record { at = λ w p. run w p }
    where
      run : (w : World F R) → P w.db → Post Q (statement label f w).0 (statement label f w).1.db
      run w p = elim (Bool-cases (next_fault w.faults)) [
        | inl e ↦ rw e tt
        | inr e ↦ rw e (h w.db p)
      ]

  pub Keeps-statement :
      (label : String) (f : Db F → Result Error A × Db F)
      → ((d : Db F) → P d → P (f d).1)
      → Keeps {R = R} P (statement label f)
  unfolding statement
  Keeps-statement label f h = record { at = λ w p. run w p }
    where
      run : (w : World F R) → P w.db → P (statement label f w).1.db
      run w p = elim (Bool-cases (next_fault w.faults)) [ inl e ↦ rw e p | inr e ↦ rw e (h w.db p) ]

-- An UPDATE under a CHECK leaves the tables or writes them.
pub Keeps-checked :
    {F A : Type 0} (P : Db F → Type 0) (b : Bool) (d : Db F) (a : A) (d' : Db F)
    → P d
    → P d'
    → P (checked b d a d').1
Keeps-checked P true d a d' p q = q
Keeps-checked P false d a d' p q = p

module _ {F R A B : Type 0} {P : Db F → Type 0} where
  Keeps-continue :
      (f : A → M (World F R) B)
      → ((a : A) → Keeps P (f a))
      → (r : Result Error A) (w : World F R) → P w.db
      → P (continue r f w).1.db
  Keeps-continue f h (ok a) w p = (h a).at w p
  Keeps-continue f h (err e) w p = p

  pub Keeps-bind :
      (m : M (World F R) A) (f : A → M (World F R) B)
      → Keeps P m
      → ((a : A) → Keeps P (f a))
      → Keeps P (m >>= f)
  Keeps-bind m f t h = record { at = λ w p. Keeps-continue f h (m w).0 (m w).1 (t.at w p) }

module _ {F R : Type 0} {P : Db F → Type 0} where
  pub Keeps-fail_if : (b : Bool) (e : Error) → Keeps {R = R} P (fail_if b e)
  Keeps-fail_if true e = record { at = λ w p. p }
  Keeps-fail_if false e = record { at = λ w p. p }

module _ {F R A : Type 0} (P : Db F → Type 0) where
  finish-kept :
      (w : World F R) (r : Result Error A) (w' : World F R)
      → P w.db
      → Post (λ _. P) r w'.db
      → P (finish w r w').1.db
  finish-kept w (err e) w' p q = p
  finish-kept w (ok a) w' p q = elim (Bool-cases (next_fault w'.faults)) [
    | inl e ↦ elim (Bool-cases (next_fault (later_faults w'.faults))) [
      | inl t ↦ rw (e, t) q
      | inr t ↦ rw (e, t) p
    ]
    | inr e ↦ rw e q
  ]

module _ {F R A : Type 0} {P : Db F → Type 0} where
  -- A transaction whose body ends in tables with `P` keeps `P`: where it fails, it is undone, or its
  -- commit took effect.
  pub Keeps-within_tx : (m : M (World F R) A) → Ensures P m (λ _. P) → Keeps P (within_tx m)
  unfolding within_tx
  Keeps-within_tx m t = record { at = λ w p. run w p }
    where
      run : (w : World F R) → P w.db → P (within_tx m w).1.db
      run w p =
          let w' = record w { faults = later_faults w.faults } in
          elim (Bool-cases (next_fault w.faults)) [
            | inl e ↦ rw e p
            | inr e ↦ rw e (finish-kept P w (m w').0 (m w').1 p (t.at w' p))
          ]

module _ {F R A : Type 0} (Q : A → Db F → Type 0) where
  finish-Post :
      (w : World F R) (r : Result Error A) (w' : World F R)
      → Post Q r w'.db
      → Post Q (finish w r w').0 (finish w r w').1.db
  finish-Post w (err e) w' q = tt
  finish-Post w (ok a) w' q = elim (Bool-cases (next_fault w'.faults)) [
    | inl e ↦ rw e tt
    | inr e ↦ rw e q
  ]

module _ {F R A : Type 0} {P : Db F → Type 0} {Q : A → Db F → Type 0} where
  -- What the body ensures, the transaction ensures.
  pub Ensures-within_tx : (m : M (World F R) A) → Ensures P m Q → Ensures P (within_tx m) Q
  unfolding within_tx
  Ensures-within_tx m t = record { at = λ w p. run w p }
    where
      run : (w : World F R) → P w.db → Post Q (within_tx m w).0 (within_tx m w).1.db
      run w p =
          let w' = record w { faults = later_faults w.faults } in
          elim (Bool-cases (next_fault w.faults)) [
            | inl e ↦ rw e tt
            | inr e ↦ rw e (finish-Post Q w (m w').0 (m w').1 (t.at w' p))
          ]
