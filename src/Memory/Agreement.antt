-- ===== src/Memory/Agreement.antt =====
-- Two tables whose rows correspond, one written by a map's entry and the other by an UPDATE under a
-- WHERE clause: where one row at most is hit, they correspond behind the writes too.
pub mod Pools
pub mod Totals
pub mod Quotas
pub mod Requests
use cloud_resource_manager.Base.{
  ℕ, ◌+◌, ◌≡◌, refl, sym, ◌∙◌, subst, Bool, true, false, ◌&&◌, some, List, [], ◌∷◌, arith, inl, inr,
  Bool-cases, if◌then◌else◌,
}
use cloud_resource_manager.Base.Table.{find, update, update_first, affected, All, Pairwise}
use cloud_resource_manager.Base.Table.Laws.{All-map, affected-zero, update-none}

plus_none : {n m : ℕ} → n ≡ m → 0 + n ≡ m
plus_none h = omega arith

module _ {A : Type 0} where
  -- At most one row is hit.
  abbrev pub Once : (A → Bool) → List A → Type 0
  Once hit [] = Unit
  Once hit (x ∷ xs) = (hit x ≡ true → All (λ y. hit y ≡ false) xs) × Once hit xs

  abbrev pub written : Bool → (A → Bool) → (A → A) → List A → List A
  written b hit g xs = if b then update_first hit g xs else xs

  no_hit : (hit u : A → Bool) (y : A) → hit y ≡ false → (hit y && u y) ≡ false
  no_hit hit u y h = rw h refl

  pub quiet :
      (hit u : A → Bool) (ys : List A)
      → All (λ y. hit y ≡ false) ys
      → All (λ y. (hit y && u y) ≡ false) ys
  quiet hit u ys = All-map (λ y. hit y ≡ false) (λ y. (hit y && u y) ≡ false) (no_hit hit u) ys

  module _ (R : A → A → Type 0) (Good : A → Type 0) (hit t u : A → Bool) (g h : A → A)
      (same_hit : (x y : A) → R x y → hit x ≡ hit y)
      (same_test : (x y : A) → R x y → Good y → t x ≡ u y)
      (same_write : (x y : A) → R x y → R (g x) (h y)) where
    pub writes_agree :
        (xs ys : List A) {p : A}
        → Pairwise R xs ys
        → Once hit ys
        → All Good ys
        → find hit xs ≡ some p
        → (affected (λ y. hit y && u y) ys ≡ (if t p then 1 else 0))
          × Pairwise R (written (t p) hit g xs) (update (λ y. hit y && u y) h ys)
    writes_agree [] ys r o a f = cc
    writes_agree (x ∷ xs) [] r o a f = elim r [ ]
    writes_agree (x ∷ xs) (y ∷ ys) {p} r o a f = elim (Bool-cases (hit x)) [
      | inl e ↦
          let found : some x ≡ some p = rw e at f in
          let same : x ≡ p = cc in
          let ey : hit y ≡ true = sym (same_hit x y r.0) ∙ e in
          let none_hit = quiet hit u ys (o.0 ey) in
          elim (Bool-cases (t x)) [
            | inl tx ↦
                let uy : u y ≡ true = sym (same_test x y r.0 a.0) ∙ tx in
                rw (← same) (
                  rw (e, tx, ey, uy)
                    (
                      omega (arith, affected-zero (λ z. hit z && u z) ys none_hit),
                      (
                        same_write x y r.0,
                        subst (Pairwise R xs) (sym (update-none (λ z. hit z && u z) h ys none_hit))
                            r.1,
                      ),
                    ))
            | inr tx ↦
                let uy : u y ≡ false = sym (same_test x y r.0 a.0) ∙ tx in
                rw (← same) (
                  rw (tx, ey, uy)
                    (
                      omega (arith, affected-zero (λ z. hit z && u z) ys none_hit),
                      (
                        r.0,
                        subst (Pairwise R xs) (sym (update-none (λ z. hit z && u z) h ys none_hit))
                            r.1,
                      ),
                    ))
          ]
      | inr e ↦
          let ey : hit y ≡ false = sym (same_hit x y r.0) ∙ e in
          let (n, rest) = writes_agree xs ys {p = p} r.1 o.1 a.1 (rw e at f) in
          elim (Bool-cases (t p)) [
            | inl tp ↦ rw (e, ey, tp) (plus_none (rw tp at n), (r.0, rw tp at rest))
            | inr tp ↦ rw (ey, tp) (plus_none (rw tp at n), (r.0, rw tp at rest))
          ]
    ]
