-- ===== src/Postgres/Total.antt =====
-- Total correctness of actions: from a world of `P` the action returns, in a world of `Q`.
use cloud_resource_manager.Base.{◌≡◌, refl, ap, ◌∙◌, [], String}
use cloud_resource_manager.Base.Action.{Result, ok, pure, continue, ◌>>=◌}
use cloud_resource_manager.Domain.Errors.{Error}
use cloud_resource_manager.Ports.{M}
use cloud_resource_manager.Postgres.Db.{
  Db, World, statement, query, within_tx, finish, next_fault, later_faults,
}

pub record Completes {F R A : Type 0} (P : World F R → Type 0) (m : M (World F R) A)
    (Q : A → World F R → Type 0) : Type 0 where
  pub at : (w : World F R) → P w → (a : A) × (w' : World F R) × (m w ≡ (ok a, w')) × Q a w'

module _ {F R A : Type 0} {P : World F R → Type 0} where
  pub Completes-pure : (a : A) → Completes {R = R} P (pure a) (λ _. P)
  Completes-pure a = record { at = λ w p. (a, w, refl, p) }

  pub Completes-weaken :
      {Q Q' : A → World F R → Type 0} (m : M (World F R) A)
      → ((a : A) (w : World F R) → Q a w → Q' a w)
      → Completes P m Q
      → Completes P m Q'
  Completes-weaken m h t = record {
    at = λ w p. let (a, w', e, q) = t.at w p in (a, w', e, h a w' q);
  }

module _ {F R A : Type 0} {P : World F R → Type 0} {Q : A → World F R → Type 0} where
  -- What is known apart from the world may be used to go on.
  pub Completes-given :
      (C : Type 0) (m : M (World F R) A) → (C → Completes P m Q) → Completes (λ w. P w × C) m Q
  Completes-given C m h = record { at = λ w (p, c). (h c).at w p }

module _ {F R A B : Type 0} {P : World F R → Type 0} {Q' : B → World F R → Type 0} where
  pub Completes-bind :
      (Q : A → World F R → Type 0) (m : M (World F R) A) (f : A → M (World F R) B)
      → Completes P m Q
      → ((a : A) → Completes (Q a) (f a) Q')
      → Completes P (m >>= f) Q'
  Completes-bind Q m f t h = record {
    at = λ w p.
        let (a, w', e, q) = t.at w p in
        let (b, w'', e', q') = (h a).at w' q in (b, w'', ap (λ r. continue r.0 f r.1) e ∙ e', q');
  }

module _ {F R A : Type 0} (w : World F R) (quiet : w.faults ≡ []) where
  -- No statement fails where no fault is to come.
  pub statement-quiet :
      (label : String) (f : Db F → Result Error A × Db F) {a : A}
      → (f w.db).0 ≡ ok a
      → statement label f w ≡ (ok a, record w { faults = []; db = (f w.db).1 })
  unfolding statement
  statement-quiet label f e =
      rw (ap next_fault quiet)
        (λ i. (e i, record w { faults = ap later_faults quiet i; db = (f w.db).1 }))

  -- So a transaction commits if its body returns.
  pub within_tx-quiet :
      (body : M (World F R) A) {a : A} {w' : World F R}
      → body (record w { faults = [] }) ≡ (ok a, w')
      → w'.faults ≡ []
      → within_tx body w ≡ (ok a, record w' { faults = [] })
  unfolding within_tx
  within_tx-quiet body {a} {w'} e q = rw (ap next_fault quiet) (
      ap (λ fs. finish w (body (record w { faults = fs })).0 (body (record w { faults = fs })).1)
        (ap later_faults quiet)
      ∙ ap (λ r. finish w r.0 r.1) e
      ∙ committed)
    where
      committed : finish w (ok a) w' ≡ (ok a, record w' { faults = [] })
      committed = rw (ap next_fault q) (λ i. (ok a, record w' { faults = ap later_faults q i }))

module _ {F R A : Type 0} {P : World F R → Type 0}
    (quiet : (w : World F R) → P w → w.faults ≡ []) where
  pub Completes-statement :
      (Q : A → World F R → Type 0) (label : String) (f : World F R → Db F → Result Error A × Db F)
      → ((w : World F R)
          → P w
          → (a : A) × ((f w w.db).0 ≡ ok a) × Q a (record w { faults = []; db = (f w w.db).1 }))
      → Completes P (λ w. statement label (f w) w) Q
  Completes-statement Q label f h = record {
    at = λ w p.
        let (a, e, q) = h w p in
        (
          a,
          record w { faults = []; db = (f w w.db).1 },
          statement-quiet w (quiet w p) label (f w) e,
          q,
        );
  }

  pub Completes-query :
      (label : String) (f : Db F → A)
      → ((w : World F R) → P w → P (record w { faults = [] }))
      → Completes P (query label f) (λ _. P)
  unfolding query
  Completes-query label f h =
      Completes-statement (λ _. P) label (λ w d. (ok (f d), d)) (λ w p. (f w.db, refl, h w p))
