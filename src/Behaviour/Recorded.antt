-- ===== src/Behaviour/Recorded.antt =====
-- internal/service/capacity.go: the request that CreateRequest returns is a row of the tables. What
-- the transaction, the insert of a rejection and the lookups of a replay say of it.
pub mod Creating
pub mod Replaying
use cloud_resource_manager.Base.{
  Bool, true, false, ◌≡◌, refl, sym, ◌⊎◌, inl, inr, Option, none, some, List, [], ◌∷◌, String,
  subst, if◌then◌else◌, Bool-cases,
}
use cloud_resource_manager.Base.Action.{Result, ok, err, lift, ◌>>=◌}
use cloud_resource_manager.Base.Table.{find, exists}
use cloud_resource_manager.Domain.Types.{
  Uuid, Time, CapacityRequest, RequestLine, RequestEvent, Hold, RequestStatus,
}
use cloud_resource_manager.Domain.Errors.{Error, duplicate_request}
use cloud_resource_manager.Ports.{M}
use cloud_resource_manager.Postgres.Db.{Db, World, insert_row}
use cloud_resource_manager.Postgres.Logic.{
  Post, Ensures, Ensures-bind, Ensures-query, Ensures-statement, Ensures-result, Keeps, kept,
}
use cloud_resource_manager.Postgres.Requests.{
  request_clash, insert_request, create_reserved, create_rejected, find_by_idempotency, get_request,
}
use cloud_resource_manager.Service.Input.{Codecs}
use cloud_resource_manager.Service.Create.{match_idempotent_body, other_body}
use cloud_resource_manager.Behaviour.RowWrites.{
  insert_lines-Rows, insert_holds-Rows, insert_event-Rows,
}

-- The row that stands for a request: its key, its body and its status are the request's.
pub record StandsFor (r x : CapacityRequest) : Type 0 where
  pub same_id : x.id ≡ r.id
  pub same_customer : x.customer_id ≡ r.customer_id
  pub same_key : x.idempotency_key ≡ r.idempotency_key
  pub same_body : x.body_hash ≡ r.body_hash
  pub same_status : x.status ≡ r.status

abbrev pub Recorded : CapacityRequest → List CapacityRequest → Type 0
Recorded r [] = ⊥
Recorded r (x ∷ xs) = StandsFor r x ⊎ Recorded r xs

abbrev pub Anything : {F : Type 0} → Db F → Type 0
Anything d = Unit

abbrev pub IsRow : {F : Type 0} → CapacityRequest → Db F → Type 0
IsRow r d = Recorded r d.requests

-- What a lookup found, if it found anything, is a row.
abbrev pub Found : {F : Type 0} → Option CapacityRequest → Db F → Type 0
Found none d = Unit
Found (some r) d = Recorded r d.requests

find-Recorded :
    (p : CapacityRequest → Bool) (xs : List CapacityRequest) {r : CapacityRequest}
    → find p xs ≡ some r
    → Recorded r xs
find-Recorded p [] e = cc
find-Recorded p (x ∷ xs) {r} e = elim (Bool-cases (p x)) [
  | inl t ↦
      let found : some x ≡ some r = rw t at e in
      let same : x ≡ r = cc in
      inl (
        subst (λ y. StandsFor y x) same
          (record {
            same_id = refl;
            same_customer = refl;
            same_key = refl;
            same_body = refl;
            same_status = refl;
          }))
  | inr t ↦ inr (find-Recorded p xs (rw t at e))
]

find-Found :
    {F : Type 0} (p : CapacityRequest → Bool) (d : Db F) (o : Option CapacityRequest)
    → o ≡ find p d.requests
    → Found o d
find-Found p d none e = tt
find-Found p d (some r) e = find-Recorded p d.requests (sym e)

module _ {F R A : Type 0} where
  pub anything : (P : Db F → Type 0) (m : M (World F R) A) → Ensures P m (λ _. Anything)
  anything P m = record { at = λ w p. of (m w).0 (m w).1.db }
    where
      of : (r : Result Error A) (d : Db F) → Post (λ _. Anything) r d
      of (ok a) d = tt
      of (err e) d = tt

  pub Ensures-if :
      {P : Db F → Type 0} {Q : A → Db F → Type 0} (b : Bool) (m n : M (World F R) A)
      → Ensures P m Q
      → Ensures P n Q
      → Ensures P (if b then m else n) Q
  Ensures-if true m n h k = h
  Ensures-if false m n h k = k

module _ {F R A B : Type 0} {Q' : B → Db F → Type 0} where
  -- What follows needs nothing of what came before.
  pub after :
      (m : M (World F R) A) (f : A → M (World F R) B)
      → ((a : A) → Ensures Anything (f a) Q')
      → Ensures Anything (m >>= f) Q'
  after m f h = Ensures-bind (λ _. Anything) m f (anything Anything m) h

  -- A call whose error the code looks at itself.
  pub Ensures-handled :
      {P : Db F → Type 0} (Q : A → Db F → Type 0) (m : M (World F R) A)
      (k : Result Error A → M (World F R) B)
      → Ensures P m Q
      → ((a : A) → Ensures (Q a) (k (ok a)) Q')
      → ((e : Error) → Ensures Anything (k (err e)) Q')
      → Ensures P (λ w. k (m w).0 (m w).1) Q'
  Ensures-handled Q m k t h g = record { at = λ w p. of (m w).0 (m w).1 (t.at w p) }
    where
      of : (r : Result Error A) (w : World F R) → Post Q r w.db → Post Q' (k r w).0 (k r w).1.db
      of (ok a) w q = (h a).at w q
      of (err e) w q = (g e).at w tt

module _ {F R : Type 0} where
  pub find_by_idempotency-Found :
      (c key : String) → Ensures {F = F} {R = R} Anything (find_by_idempotency c key) Found
  unfolding find_by_idempotency
  find_by_idempotency-Found c key =
      Ensures-result _ _ (λ o d q. find-Found _ d o q.1) (Ensures-query _ _)

  pub get_request-Found : (id : Uuid) → Ensures {F = F} {R = R} Anything (get_request id) Found
  unfolding get_request
  get_request-Found id = Ensures-result _ _ (λ o d q. find-Found _ d o q.1) (Ensures-query _ _)

  insert_request-IsRow :
      (label : String) (r x : CapacityRequest)
      → StandsFor r x
      → Ensures {F = F} {R = R} Anything (insert_request label x) (λ _. IsRow r)
  unfolding insert_request
  insert_request-IsRow label r x s = Ensures-statement _ label _ (λ d _. stored d)
    where
      stored :
          (d : Db F)
          → Post
              (λ _. IsRow r)
              (insert_row
                (exists (request_clash x) d.requests)
                duplicate_request
                d
                (record d { requests = x ∷ d.requests })).0
              (insert_row
                (exists (request_clash x) d.requests)
                duplicate_request
                d
                (record d { requests = x ∷ d.requests })).1
      stored d = elim (Bool-cases (exists (request_clash x) d.requests)) [
        | inl e ↦ rw e tt
        | inr e ↦ rw e (inl s)
      ]

  pub create_reserved-IsRow :
      (r : CapacityRequest) (ls : List RequestLine) (hs : List Hold) (ev : RequestEvent)
      → Ensures {F = F} {R = R} Anything (create_reserved r ls hs ev) (λ _. IsRow r)
  unfolding create_reserved
  create_reserved-IsRow r ls hs ev =
      Ensures-bind (λ _. IsRow r) _ _
        (insert_request-IsRow "insert reserved request" r _ (record {
          same_id = refl;
          same_customer = refl;
          same_key = refl;
          same_body = refl;
          same_status = refl;
        }))
        (λ _.
          Ensures-bind (λ _. IsRow r) _ _ (kept _ (insert_lines-Rows (Recorded r) ls))
            (λ _.
              Ensures-bind (λ _. IsRow r) _ _ (kept _ (insert_holds-Rows (Recorded r) hs))
                (λ _. kept _ (insert_event-Rows (Recorded r) ev))))

  pub create_rejected-IsRow :
      (r : CapacityRequest) (ls : List RequestLine) (ev : RequestEvent)
      → Ensures {F = F} {R = R} Anything (create_rejected r ls ev) (λ _. IsRow r)
  unfolding create_rejected
  create_rejected-IsRow r ls ev =
      Ensures-bind (λ _. IsRow r) _ _
        (insert_request-IsRow "insert rejected request" r _ (record {
          same_id = refl;
          same_customer = refl;
          same_key = refl;
          same_body = refl;
          same_status = refl;
        }))
        (λ _.
          Ensures-bind (λ _. IsRow r) _ _ (kept _ (insert_lines-Rows (Recorded r) ls))
            (λ _. kept _ (insert_event-Rows (Recorded r) ev)))

module _ {F : Type 0} (C : Codecs F) where
  -- A replay hands out the row that it found.
  pub match_idempotent_body-same :
      (r m : CapacityRequest) (h : String) → match_idempotent_body C r h ≡ ok m → r ≡ m
  unfolding match_idempotent_body
  match_idempotent_body-same r m h e = elim (Bool-cases (other_body r h)) [
    | inl t ↦ let no : err _ ≡ ok m = rw t at e in cc
    | inr t ↦ let yes' : ok r ≡ ok m = rw t at e in cc
  ]
