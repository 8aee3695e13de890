-- ===== src/Base/Table/Laws.antt =====
-- Updates, lookups and orders keep what holds of each row, and keys that are distinct.
use cloud_resource_manager.Base.Tests.{◌==◌, Bool-cases, ==-eq, ==-ne, ==→ne, ==_refl}
use cloud_resource_manager.Base.Table.{
  find, select, update, affected, exists, every, insert_by, order_by, limit, All, Distinct,
}
use Prim.Native.Nat.{ℕ, zero, suc, ◌+◌}
use mathlib.Core.Path.{◌≡◌, refl, sym, ◌∙◌, ap, subst}
use mathlib.Core.Logic.{◌≢◌, inl, inr}
use mathlib.Core.Bool.{Bool, true, false, ◌&&◌, false≢true}
use mathlib.Core.Option.{some}
use mathlib.Core.List.{List, [], ◌∷◌}
use native.Mathlib.Omega.{arith}

module _ {A : Type 0} (P Q : A → Type 0) where
  pub All-map : ((x : A) → P x → Q x) → (xs : List A) → All P xs → All Q xs
  All-map h [] a = tt
  All-map h (x ∷ xs) a = (h x a.0, All-map h xs a.1)

  pub All-both : (xs : List A) → All P xs → All Q xs → All (λ x. P x × Q x) xs
  All-both [] a b = tt
  All-both (x ∷ xs) a b = ((a.0, b.0), All-both xs a.1 b.1)

  -- A predicate through an update: on the rows that match, and on the others.
  pub All-update :
      (p : A → Bool) (f : A → A)
      → ((x : A) → p x ≡ true → P x → Q (f x))
      → ((x : A) → p x ≡ false → P x → Q x)
      → (xs : List A) → All P xs
      → All Q (update p f xs)
  All-update p f yes' no' [] a = tt
  All-update p f yes' no' (x ∷ xs) a = elim (Bool-cases (p x)) [
    | inl e ↦ rw e (yes' x e a.0, All-update p f yes' no' xs a.1)
    | inr e ↦ rw e (no' x e a.0, All-update p f yes' no' xs a.1)
  ]

module _ {A : Type 0} (P : A → Type 0) where
  pub All-select : (p : A → Bool) (xs : List A) → All P xs → All P (select p xs)
  All-select p [] a = tt
  All-select p (x ∷ xs) a = elim (Bool-cases (p x)) [
    | inl e ↦ rw e (a.0, All-select p xs a.1)
    | inr e ↦ rw e (All-select p xs a.1)
  ]

  pub All-insert_by :
      (le : A → A → Bool) (x : A) (xs : List A) → P x → All P xs → All P (insert_by le x xs)
  All-insert_by le x [] h a = (h, tt)
  All-insert_by le x (y ∷ ys) h a = elim (Bool-cases (le x y)) [
    | inl e ↦ rw e (h, a)
    | inr e ↦ rw e (a.0, All-insert_by le x ys h a.1)
  ]

  pub All-order_by : (le : A → A → Bool) (xs : List A) → All P xs → All P (order_by le xs)
  All-order_by le [] a = tt
  All-order_by le (x ∷ xs) a = All-insert_by le x (order_by le xs) a.0 (All-order_by le xs a.1)

  pub All-limit : (n : ℕ) (xs : List A) → All P xs → All P (limit n xs)
  All-limit zero xs a = tt
  All-limit (suc n) [] a = tt
  All-limit (suc n) (x ∷ xs) a = (a.0, All-limit n xs a.1)

  -- What holds of every row holds of a row that is found.
  pub find-All :
      (p : A → Bool) (xs : List A) {x : A} → All P xs → find p xs ≡ some x → P x × (p x ≡ true)
  find-All p [] a e = cc
  find-All p (y ∷ ys) {x} a e = elim (Bool-cases (p y)) [
    | inl t ↦
        let found : some y ≡ some x = rw t at e in
        let same : y ≡ x = cc in (subst P same a.0, rw (← same) t)
    | inr t ↦ find-All p ys a.1 (rw t at e)
  ]

module _ {A : Type 0} where
  pub every-All : (p : A → Bool) (xs : List A) → every p xs ≡ true → All (λ x. p x ≡ true) xs
  every-All p [] e = tt
  every-All p (x ∷ xs) e = elim (Bool-cases (p x)) [
    | inl t ↦ (t, every-All p xs (rw t at e))
    | inr t ↦ absurd (false≢true (rw t at e))
  ]

  pub All-every : (p : A → Bool) (xs : List A) → All (λ x. p x ≡ true) xs → every p xs ≡ true
  All-every p [] a = refl
  All-every p (x ∷ xs) a = rw a.0 (All-every p xs a.1)

  pub All-always : (xs : List A) → All (λ _. Unit {0}) xs
  All-always [] = tt
  All-always (x ∷ xs) = (tt, All-always xs)

  pub exists-All : (p : A → Bool) (xs : List A) → exists p xs ≡ false → All (λ x. p x ≡ false) xs
  exists-All p [] e = tt
  exists-All p (x ∷ xs) e = elim (Bool-cases (p x)) [
    | inl t ↦ absurd (false≢true (sym (rw t at e)))
    | inr t ↦ (t, exists-All p xs (rw t at e))
  ]

  -- The rows that a test selects pass it.
  pub select-All : (p : A → Bool) (xs : List A) → All (λ x. p x ≡ true) (select p xs)
  select-All p [] = tt
  select-All p (x ∷ xs) = elim (Bool-cases (p x)) [
    | inl e ↦ rw e (e, select-All p xs)
    | inr e ↦ rw e (select-All p xs)
  ]

  pub affected-zero : (p : A → Bool) (xs : List A) → All (λ x. p x ≡ false) xs → affected p xs ≡ 0
  affected-zero p [] a = refl
  affected-zero p (x ∷ xs) a = rw a.0 (omega (arith, affected-zero p xs a.1))

  pub update-none :
      (p : A → Bool) (f : A → A) (xs : List A) → All (λ x. p x ≡ false) xs → update p f xs ≡ xs
  update-none p f [] a = refl
  update-none p f (x ∷ xs) a = rw a.0 (ap (λ ys. x ∷ ys) (update-none p f xs a.1))

module _ {A : Type 0} (key : A → ℕ) where
  pub Distinct-update :
      (p : A → Bool) (f : A → A)
      → ((x : A) → key (f x) ≡ key x)
      → (xs : List A) → Distinct key xs
      → Distinct key (update p f xs)
  Distinct-update p f same [] d = tt
  Distinct-update p f same (x ∷ xs) d = elim (Bool-cases (p x)) [
    | inl e ↦ rw e (rw (same x) (keys xs d.0), Distinct-update p f same xs d.1)
    | inr e ↦ rw e (keys xs d.0, Distinct-update p f same xs d.1)
  ]
    where
      keys : (ys : List A) → All (λ y. key y ≢ key x) ys → All (λ y. key y ≢ key x) (update p f ys)
      keys =
          All-update (λ y. key y ≢ key x) (λ y. key y ≢ key x) p f (λ y _ h. rw (same y) h)
            (λ y _ h. h)

  pub Distinct-select : (p : A → Bool) (xs : List A) → Distinct key xs → Distinct key (select p xs)
  Distinct-select p [] d = tt
  Distinct-select p (x ∷ xs) d = elim (Bool-cases (p x)) [
    | inl e ↦ rw e (All-select (λ y. key y ≢ key x) p xs d.0, Distinct-select p xs d.1)
    | inr e ↦ rw e (Distinct-select p xs d.1)
  ]

  pub Distinct-insert_by :
      (le : A → A → Bool) (x : A) (xs : List A)
      → All (λ y. key y ≢ key x) xs
      → Distinct key xs
      → Distinct key (insert_by le x xs)
  Distinct-insert_by le x [] h d = (tt, tt)
  Distinct-insert_by le x (y ∷ ys) h d = elim (Bool-cases (le x y)) [
    | inl e ↦ rw e (h, d)
    | inr e ↦ rw e (
      All-insert_by (λ z. key z ≢ key y) le x ys (λ q. h.0 (sym q)) d.0,
      Distinct-insert_by le x ys h.1 d.1,
    )
  ]

  pub Distinct-order_by :
      (le : A → A → Bool) (xs : List A) → Distinct key xs → Distinct key (order_by le xs)
  Distinct-order_by le [] d = tt
  Distinct-order_by le (x ∷ xs) d =
      Distinct-insert_by le x (order_by le xs) (All-order_by (λ y. key y ≢ key x) le xs d.0)
        (Distinct-order_by le xs d.1)

  -- An update of other rows does not change what is found under a key.
  pub find-update_other :
      (k : ℕ) (p : A → Bool) (f : A → A)
      → ((x : A) → key (f x) ≡ key x)
      → ((x : A) → key x ≡ k → p x ≡ false)
      → (xs : List A) → find (λ x. key x == k) (update p f xs) ≡ find (λ x. key x == k) xs
  find-update_other k p f same skip [] = refl
  find-update_other k p f same skip (x ∷ xs) = elim (Bool-cases (key x == k)) [
    | inl e ↦ rw (skip x (==-eq (key x) k e)) (rw e)
    | inr e ↦ elim (Bool-cases (p x)) [
      | inl t ↦ rw t (rw (same x) (rw e (find-update_other k p f same skip xs)))
      | inr t ↦ rw t (rw e (find-update_other k p f same skip xs))
    ]
  ]

  find-cons :
      (x : A) (xs ys : List A)
      → All (λ y. key y ≢ key x) ys
      → All (λ y. find (λ z. key z == key y) xs ≡ some y) ys
      → All (λ y. find (λ z. key z == key y) (x ∷ xs) ≡ some y) ys
  find-cons x xs [] h a = tt
  find-cons x xs (y ∷ ys) h a =
      (rw (==-ne (key x) (key y) (λ q. h.0 (sym q))) a.0, find-cons x xs ys h.1 a.1)

  -- A row of a table of distinct keys is found under its key.
  pub find_self :
      (xs : List A) → Distinct key xs → All (λ x. find (λ y. key y == key x) xs ≡ some x) xs
  find_self [] d = tt
  find_self (x ∷ xs) d = (rw (==_refl (key x)) refl, find-cons x xs xs d.0 (find_self xs d.1))

none_or_one : {n : ℕ} → 0 + n ≡ 1 → n ≡ 0 → ⊥
none_or_one one none' = omega arith

skip_zero : {n : ℕ} → 0 + n ≡ 1 → n ≡ 1
skip_zero h = omega arith

module _ {A : Type 0} (key : A → ℕ) (P Q : A → Type 0) (id : ℕ) (b : A → Bool) (f : A → A) where
  All-update_absent :
      ((x : A) → key x ≢ id → P x → Q x)
      → (xs : List A) → All (λ x. key x ≢ id) xs
      → All P xs
      → All Q (update (λ x. key x == id && b x) f xs) × (affected (λ x. key x == id && b x) xs ≡ 0)
  All-update_absent other [] h a = (tt, refl)
  All-update_absent other (x ∷ xs) h a =
      let (rest, none_hit) = All-update_absent other xs h.1 a.1 in
      rw (==-ne (key x) id h.0) ((other x h.0 a.0, rest), omega arith)

  -- An update that affects exactly one row of a key: that row passed the test, and no other has
  -- the key.
  pub All-update_one :
      ((x : A) → key x ≢ id → P x → Q x)
      → ((x : A) → key x ≡ id → b x ≡ true → P x → Q (f x))
      → (xs : List A) → Distinct key xs
      → affected (λ x. key x == id && b x) xs ≡ 1
      → All P xs
      → All Q (update (λ x. key x == id && b x) f xs)
  All-update_one other hit [] d n a = tt
  All-update_one other hit (x ∷ xs) d n a = elim (Bool-cases (key x == id)) [
    | inl e ↦
        let same : key x ≡ id = ==-eq (key x) id e in
        let (rest, none_hit) =
          All-update_absent other xs
            (All-map (λ y. key y ≢ key x) (λ y. key y ≢ id) (λ y h q. h (q ∙ sym same)) xs d.0)
            a.1 in
        elim (Bool-cases (b x)) [
          | inl t ↦ rw (e, t) (hit x same t a.0, rest)
          | inr t ↦ absurd (none_or_one (rw (e, t) at n) none_hit)
        ]
    | inr e ↦ rw e (
      other x (==→ne (key x) id e) a.0,
      All-update_one other hit xs d.1 (skip_zero (rw e at n)) a.1,
    )
  ]
