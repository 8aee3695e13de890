-- ===== src/Behaviour/Sweeping.antt =====
-- internal/service/capacity.go and internal/repository/postgres/locker.go: the sweeper's lock, and
-- which requests a sweep takes.
use cloud_resource_manager.Base.{
  ℕ, Bool, true, ◌&&◌, ◌≡◌, ◌⊎◌, refl, sym, ap, ◌∙◌, Option, none, some, leb, if◌then◌else◌, List,
  [], ◌∷◌, String, inl, inr, Bool-cases, arith, length, zero, suc,
}
use cloud_resource_manager.Base.Action.{ok}
use cloud_resource_manager.Base.Table.{select, limit, insert_by, order_by, All}
use cloud_resource_manager.Base.Table.Laws.{All-map, All-limit, All-order_by}
use cloud_resource_manager.External.{Doubles}
use cloud_resource_manager.Domain.Types.{
  Uuid, Time, CapacityRequest, RequestStatus, status_is, status_reserved,
}
use cloud_resource_manager.Base.Int.{◌<ℤ◌, ltb→<ℤ, <ℤ→ltb}
use mathlib.Core.Bool.{false≢true}
use cloud_resource_manager.Postgres.Db.{World}
use cloud_resource_manager.Postgres.Requests.{
  is_due, expires_before, expires_le, due_requests, ids_of, list_expired_ids,
}
use cloud_resource_manager.Behaviour.Reading.{query-ok}
use cloud_resource_manager.Postgres.Locker.{try_lock}
use cloud_resource_manager.Redis.{Server}
use cloud_resource_manager.Deployment.{production, count}
use cloud_resource_manager.Service.Sweep.{expire_due}

-- A request that the sweeper is to expire: RESERVED, with an expiry before the time.
pub record Expired (t : Time) (r : CapacityRequest) : Type 0 where
  pub is_reserved : r.status ≡ status_reserved
  pub deadline : Time
  pub expires : r.expires_at ≡ some deadline
  pub passed : deadline <ℤ t

-- A row with the id that is one of those.
abbrev pub Listed : Time → Uuid → List CapacityRequest → Type 0
Listed t id [] = ⊥
Listed t id (r ∷ rs) = ((r.id ≡ id) × Expired t r) ⊎ Listed t id rs

-- The number of rows that are.
abbrev pub Tally : Time → List CapacityRequest → ℕ → Type 0
Tally t [] n = n ≡ 0
Tally t (r ∷ rs) n =
    (Expired t r × ((m : ℕ) × (n ≡ suc m) × Tally t rs m)) ⊎ ((¬ Expired t r) × Tally t rs n)

status_same : (s : RequestStatus) → status_is s status_reserved ≡ true → s ≡ status_reserved
status_same s e = ground arith

both : (a b : Bool) → (a && b) ≡ true → (a ≡ true) × (b ≡ true)
both a b h = (ground arith, ground arith)

before-Option :
    (t : Time) (o : Option Time) → expires_before t o ≡ true → (d : Time) × (o ≡ some d) × (d <ℤ t)
before-Option t none h = cc
before-Option t (some d) h = (d, refl, ltb→<ℤ d t h)

is_due-Expired : (t : Time) (r : CapacityRequest) → is_due t r ≡ true → Expired t r
is_due-Expired t r h =
    let (s, e) = both (status_is r.status status_reserved) (expires_before t r.expires_at) h in
    let (d, o, l) = before-Option t r.expires_at e in
    record { is_reserved = status_same r.status s; deadline = d; expires = o; passed = l }

Expired-is_due : (t : Time) (r : CapacityRequest) → Expired t r → is_due t r ≡ true
Expired-is_due t r x = rw (x.is_reserved, x.expires) (<ℤ→ltb x.deadline t x.passed)

select-Listed :
    (t : Time) (rs : List CapacityRequest) → All (λ r. Listed t r.id rs) (select (is_due t) rs)
select-Listed t [] = tt
select-Listed t (r ∷ rs) =
    let rest =
      All-map (λ x. Listed t x.id rs) (λ x. Listed t x.id (r ∷ rs)) (λ x h. inr h) _
        (select-Listed t rs) in
    elim (Bool-cases (is_due t r)) [
      | inl e ↦ rw e (inl (refl, is_due-Expired t r e), rest)
      | inr e ↦ rw e rest
    ]

select-Tally : (t : Time) (rs : List CapacityRequest) → Tally t rs (length (select (is_due t) rs))
select-Tally t [] = refl
select-Tally t (r ∷ rs) = elim (Bool-cases (is_due t r)) [
  | inl e ↦
      rw e (inl (is_due-Expired t r e, (length (select (is_due t) rs), refl, select-Tally t rs)))
  | inr e ↦ rw e (inr ((λ x. false≢true (sym e ∙ Expired-is_due t r x)), select-Tally t rs))
]

All-ids : (Q : Uuid → Type 0) (xs : List CapacityRequest) → All (λ r. Q r.id) xs → All Q (ids_of xs)
All-ids Q [] a = tt
All-ids Q (x ∷ xs) a = (a.0, All-ids Q xs a.1)

abbrev pub least : ℕ → ℕ → ℕ
least a b = if leb a b then a else b

least-suc : (a b : ℕ) → suc (least a b) ≡ least (suc a) (suc b)
least-suc a b = ground arith

least-zero : (n : ℕ) → 0 ≡ least (suc n) 0
least-zero n = ground arith

zero-least : (n : ℕ) → 0 ≡ least 0 n
zero-least n = ground arith

length-limit :
    (n : ℕ) (xs : List CapacityRequest) → length (ids_of (limit n xs)) ≡ least n (length xs)
length-limit zero xs = zero-least (length xs)
length-limit (suc n) [] = least-zero n
length-limit (suc n) (x ∷ xs) = ap suc (length-limit n xs) ∙ least-suc n (length xs)

module _ (le : CapacityRequest → CapacityRequest → Bool) where
  length-insert_by :
      (x : CapacityRequest) (xs : List CapacityRequest)
      → length (insert_by le x xs) ≡ suc (length xs)
  length-insert_by x [] = refl
  length-insert_by x (y ∷ ys) = elim (Bool-cases (le x y)) [
    | inl e ↦ rw e refl
    | inr e ↦ rw e (ap suc (length-insert_by x ys))
  ]

  length-order_by : (xs : List CapacityRequest) → length (order_by le xs) ≡ length xs
  length-order_by [] = refl
  length-order_by (x ∷ xs) = length-insert_by x (order_by le xs) ∙ ap suc (length-order_by xs)

module _ {F R : Type 0} where
  -- Where ListExpiredIDs returns, each identifier is that of a row that is RESERVED and whose expiry
  -- lies before the time given, and it returns as many as there are such rows, or as the limit where
  -- there are more.
  pub list_expired_ids-due :
      (t : Time) (n : ℕ) (w : World F R) {ids : List Uuid}
      → (list_expired_ids t n w).0 ≡ ok ids
      → All (λ id. Listed t id w.db.requests) ids
        × ((k : ℕ) × Tally t w.db.requests k × (length ids ≡ least n k))
  unfolding list_expired_ids
  list_expired_ids-due t n w {ids} h =
      let le = λ (p q : CapacityRequest). expires_le p.expires_at q.expires_at in
      let rows = select (is_due t) w.db.requests in
      let listed = λ (r : CapacityRequest). Listed t r.id w.db.requests in
      rw (← query-ok "list expired" (λ d. ids_of (due_requests t n d)) w h) (
        All-ids (λ id. Listed t id w.db.requests) (limit n (order_by le rows))
            (All-limit listed n (order_by le rows)
              (All-order_by listed le rows (select-Listed t w.db.requests))),
        (
          length rows,
          select-Tally t w.db.requests,
          length-limit n (order_by le rows) ∙ ap (least n) (length-order_by le rows),
        ),
      )

module _ {F R : Type 0} (D : Doubles F) (text_le : String → String → Bool) (server : Server R) where
  -- While another session holds the sweeper's advisory lock, a run of the sweeper leaves the tables
  -- as they are.
  pub expire_due-locked :
      (w : World F R)
      → w.taken_elsewhere ≡ true
      → (expire_due (production D text_le server) w).1.db ≡ w.db
  unfolding expire_due try_lock count
  expire_due-locked w h = ground arith
