-- ===== src/Ledger/Reserve.antt =====
-- The reservation transaction: what it reserves on the pools it writes down as holds.
use cloud_resource_manager.Base.{
  Bool, true, false, not, ◌≡◌, refl, ap, List, [], ◌∷◌, String, Option, arith,
}
use cloud_resource_manager.Base.Int.{ℤ, pos, ◌+ℤ◌, ◌-ℤ◌, int_laws}
use cloud_resource_manager.Base.Table.{All}
use cloud_resource_manager.External.{Doubles}
use cloud_resource_manager.Domain.Types.{
  Uuid, Time, Product, CapacityRequest, RequestLine, RequestEvent, Hold, hold_active, hold_is,
}
use cloud_resource_manager.Postgres.Logic.{
  Ensures, Ensures-bind, Ensures-pure, Ensures-weaken, Ensures-given, Ensures-fail_if,
  Ensures-new_uuid, Ensures-result,
}
use cloud_resource_manager.Postgres.Requests.{create_reserved}
use cloud_resource_manager.Redis.{Server}
use cloud_resource_manager.Deployment.{production}
use cloud_resource_manager.Service.Input.{CreateInput, ReservationPlan}
use cloud_resource_manager.Service.Reserve.{
  build_lines, build_holds, hold_of, reserve_one, reserve_each, store_reserved, reserve_body,
}
use cloud_resource_manager.Ledger.Sums.{Ledger, Balanced, nothing, on_pool}
use cloud_resource_manager.Ledger.Steps.{plus, Ledger-cong, try_reserve-Ledger}
use cloud_resource_manager.Ledger.Holds.{hold_sum, insert_holds-Ledger}
use cloud_resource_manager.Ledger.Quiet.{
  Quiet, Quiet-bind, Quiet-pure, Quiet-new_uuid, Ensures-Quiet-Ledger, quiet_rules,
  ensure_and_try_consume-Quiet, insert_request-Quiet, insert_lines-Quiet, insert_event-Quiet,
}

-- What a list of plans asks of a pool.
unfoldable pub plan_sum : Uuid → List ReservationPlan → ℤ
plan_sum p [] = pos 0
plan_sum p (x ∷ xs) = on_pool p x.pool_id x.amount +ℤ plan_sum p xs

no_more : (k : ℤ) → k ≡ k +ℤ pos 0
no_more k = omega int_laws

regroup : (k o s : ℤ) → (k +ℤ o) +ℤ s ≡ k +ℤ (o +ℤ s)
regroup k o s = omega int_laws

settled : (s t : ℤ) → t ≡ s → (pos 0 +ℤ s) -ℤ t ≡ pos 0
settled s t h = rw h (omega int_laws)

not-false : (b : Bool) → not b ≡ false → b ≡ true
not-false b h = ground arith

-- The holds that are built for plans are ACTIVE, and ask what the plans ask.
abbrev Built : List ReservationPlan → List Hold → Type 0
Built plans hs =
    All (λ h. hold_is h.status hold_active ≡ true) hs
    × ((p : Uuid) → hold_sum p hs ≡ plan_sum p plans)

no_holds : (p : Uuid) → hold_sum p [] ≡ plan_sum p []
unfolding hold_sum plan_sum
no_holds p = refl

Built-cons :
    (id req_id : Uuid) (now : Time) (x : ReservationPlan) (xs : List ReservationPlan)
    (hs : List Hold)
    → Built xs hs
    → Built (x ∷ xs) (hold_of id req_id now x ∷ hs)
unfolding hold_sum plan_sum
Built-cons id req_id now x xs hs (act, same) =
    ((refl, act), λ p. ap (λ z. on_pool p x.pool_id x.amount +ℤ z) (same p))

module _ {F R : Type 0} where
  create_reserved-Ledger :
      (k : Uuid → ℤ) (req : CapacityRequest) (ls : List RequestLine) (hs : List Hold)
      (ev : RequestEvent)
      → All (λ h. hold_is h.status hold_active ≡ true) hs
      → Ensures {F = F} {R = R}
          (Ledger k)
          (create_reserved req ls hs ev)
          (λ _. Ledger (λ p. k p -ℤ hold_sum p hs))
  unfolding create_reserved
  create_reserved-Ledger k req ls hs ev act =
      Ensures-bind (λ _. Ledger k) _ _ (Ensures-Quiet-Ledger k _ (insert_request-Quiet _ _))
        (λ _.
          Ensures-bind (λ _. Ledger k) _ _ (Ensures-Quiet-Ledger k _ (insert_lines-Quiet ls))
            (λ _.
              Ensures-bind (λ _. Ledger (λ p. k p -ℤ hold_sum p hs)) _ _
                (insert_holds-Ledger k hs act)
                (λ _. Ensures-Quiet-Ledger (λ p. k p -ℤ hold_sum p hs) _ (insert_event-Quiet ev))))

module _ {F R : Type 0} (D : Doubles F) (text_le : String → String → Bool) (server : Server R) where
  reserve_one-Ledger :
      (k : Uuid → ℤ) (c : String) (x : ReservationPlan)
      → Ensures
          (Ledger k)
          (reserve_one (production D text_le server) c x)
          (λ _. Ledger (plus k x.pool_id x.amount))
  unfolding reserve_one
  reserve_one-Ledger k c x =
      Ensures-bind (λ got d. got ≡ true → Ledger (plus k x.pool_id x.amount) d) _ _
        (try_reserve-Ledger D k x.pool_id x.amount)
        (λ got.
          Ensures-bind (λ _. Ledger (plus k x.pool_id x.amount)) _ _
            (Ensures-result
              (λ _ d. (got ≡ true → Ledger (plus k x.pool_id x.amount) d) × (not got ≡ false)) _
              (λ _ d p. p.0 (not-false got p.1)) (Ensures-fail_if (not got) _))
            (λ _.
              Ensures-Quiet-Ledger (plus k x.pool_id x.amount) _
                (search (quiet_rules, ensure_and_try_consume-Quiet) depth 8)))

  reserve_each-Ledger :
      (k : Uuid → ℤ) (c : String) (xs : List ReservationPlan)
      → Ensures
          (Ledger k)
          (reserve_each (production D text_le server) c xs)
          (λ _. Ledger (λ p. k p +ℤ plan_sum p xs))
  unfolding reserve_each plan_sum
  reserve_each-Ledger k c [] = Ensures-pure tt (λ d l. Ledger-cong k _ (λ p. no_more (k p)) l)
  reserve_each-Ledger k c (x ∷ xs) =
      Ensures-bind (λ _. Ledger (plus k x.pool_id x.amount)) _ _ (reserve_one-Ledger k c x)
        (λ _.
          Ensures-result (λ _. Ledger (λ p. plus k x.pool_id x.amount p +ℤ plan_sum p xs)) _
            (λ _ d l. Ledger-cong _ _ (λ p. regroup (k p) _ (plan_sum p xs)) l)
            (reserve_each-Ledger (plus k x.pool_id x.amount) c xs))

  pub build_lines-Quiet :
      (req_id : Uuid) (xs : List ReservationPlan)
      → Quiet (build_lines (production D text_le server) req_id xs)
  unfolding build_lines
  build_lines-Quiet req_id [] = Quiet-pure []
  build_lines-Quiet req_id (x ∷ xs) =
      Quiet-bind _ _ Quiet-new_uuid
        (λ id. Quiet-bind _ _ (build_lines-Quiet req_id xs) (λ ls. Quiet-pure _))

  build_holds-Built :
      (k : Uuid → ℤ) (req_id : Uuid) (now : Time) (xs : List ReservationPlan)
      → Ensures
          (Ledger k)
          (build_holds (production D text_le server) req_id now xs)
          (λ hs d. Ledger k d × Built xs hs)
  unfolding build_holds
  build_holds-Built k req_id now [] = Ensures-pure [] (λ d l. (l, nothing_built))
    where
      nothing_built : Built [] []
      nothing_built = (tt, λ p. no_holds p)
  build_holds-Built k req_id now (x ∷ xs) =
      Ensures-bind (λ _. Ledger k) _ _ Ensures-new_uuid
        (λ id.
          Ensures-bind (λ hs d. Ledger k d × Built xs hs) _ _ (build_holds-Built k req_id now xs)
            (λ hs. Ensures-pure _ (λ d p. (p.0, Built-cons id req_id now x xs hs p.1))))

  store_reserved-Balanced :
      (plans : List ReservationPlan) (req : CapacityRequest) (req_id : Uuid) (now : Time)
      → Ensures
          (Ledger (λ p. pos 0 +ℤ plan_sum p plans))
          (store_reserved (production D text_le server) plans req req_id now)
          (λ _. Balanced)
  unfolding store_reserved
  store_reserved-Balanced plans req req_id now =
      let asked = λ (p : Uuid). pos 0 +ℤ plan_sum p plans in
      Ensures-bind (λ _. Ledger asked) _ _
        (Ensures-Quiet-Ledger asked _ (build_lines-Quiet req_id plans))
        (λ ls.
          Ensures-bind (λ hs d. Ledger asked d × Built plans hs) _ _
            (build_holds-Built asked req_id now plans)
            (λ hs.
              Ensures-given (Built plans hs) _ (λ d p. p.1)
                (λ b.
                  Ensures-bind (λ _. Ledger asked) _ _
                    (Ensures-weaken (Ledger asked) _ (λ d p. p.0) Ensures-new_uuid)
                    (λ ev_id.
                      Ensures-bind (λ _. Balanced) _ _
                        (Ensures-result (λ _. Ledger (λ p. asked p -ℤ hold_sum p hs)) _
                          (λ _ d l.
                            Ledger-cong _ nothing
                              (λ p. settled (plan_sum p plans) (hold_sum p hs) (b.1 p)) l)
                          (create_reserved-Ledger asked req ls hs _ b.0))
                        (λ _. Ensures-pure req (λ d l. l))))))

  -- From tables in balance the transaction's body leads to tables in balance.
  pub reserve_body-Balanced :
      (plans : List ReservationPlan) (product : Option Product) (i : CreateInput) (req_id : Uuid)
      (now expires : Time) (body_hash : String)
      → Ensures Balanced
          (reserve_body (production D text_le server) plans product i req_id now expires body_hash)
          (λ _. Balanced)
  unfolding reserve_body
  reserve_body-Balanced plans product i req_id now expires body_hash =
      Ensures-bind (λ _. Ledger (λ p. pos 0 +ℤ plan_sum p plans)) _ _
        (reserve_each-Ledger nothing i.customer_id plans)
        (λ _. store_reserved-Balanced plans _ req_id now)
