-- ===== src/Behaviour/Permanence.antt =====
-- internal/repository/postgres: what no statement changes of a request that is stored.
use cloud_resource_manager.Base.{
  Bool, true, false, ◌||◌, ◌≡◌, refl, sym, ◌∙◌, ap, none, List, [], ◌∷◌, ◌==◌, arith, inl, inr,
  Bool-cases, ==-ne, ==→ne, if◌then◌else◌,
}
use mathlib.Core.Bool.{false≢true}
use cloud_resource_manager.Base.Int.{pos}
use cloud_resource_manager.Base.Table.{update, exists, All}
use cloud_resource_manager.Base.Table.Laws.{All-map, All-update, exists-All}
use cloud_resource_manager.Domain.Types.{Uuid, CapacityRequest, status_is, status_reserved}
use cloud_resource_manager.Postgres.Requests.{request_clash, reserved_row, set_status, extending}
use cloud_resource_manager.Behaviour.Settled.{not_reserved}
use cloud_resource_manager.Behaviour.Rows.{Closed}

-- A request but for its status, its expiry, its count of extensions and its time of update: its id,
-- customer, key, body hash, product, quantity, reject reason, correlation id and creation.
abbrev pub core : CapacityRequest → CapacityRequest
core r = record r {
  status = status_reserved;
  expires_at = none;
  extension_count = pos 0;
  updated_at = pos 0;
}

abbrev pub Continues : CapacityRequest → CapacityRequest → Type 0
Continues r x =
    x.id ≡ r.id
    → (core x ≡ core r) × (status_is r.status status_reserved ≡ false → x.status ≡ r.status)

-- The rows have the request still, with its status if that is not RESERVED.
abbrev pub Stored : CapacityRequest → List CapacityRequest → Type 0
Stored r rs = (exists (λ x. x.id == r.id) rs ≡ true) × All (Continues r) rs

module _ {A : Type 0} (p b : A → Bool) (f : A → A) (same : (x : A) → p (f x) ≡ p x) where
  exists-update : (xs : List A) → exists p (update b f xs) ≡ exists p xs
  exists-update [] = refl
  exists-update (x ∷ xs) =
      ap (λ t. if t then true else exists p (update b f xs)) (written x)
      ∙ ap (λ t. if p x then true else t) (exists-update xs)
    where
      written : (x : A) → p (if b x then f x else x) ≡ p x
      written x = elim (Bool-cases (b x)) [ inl e ↦ rw e (same x) | inr e ↦ rw e refl ]

none_there :
    (id : Uuid) (rs : List CapacityRequest)
    → All (λ x. (x.id == id) ≡ false) rs
    → exists (λ x. x.id == id) rs ≡ false
none_there id [] a = refl
none_there id (r ∷ rs) a = rw a.0 (none_there id rs a.1)

apart : (a b : Bool) → (a || b) ≡ false → a ≡ false
apart a b h = ground arith

module _ (r : CapacityRequest) where
  -- A new row clashes with no row, so it has another id.
  other_id :
      (new : CapacityRequest) (rs : List CapacityRequest)
      → exists (request_clash new) rs ≡ false
      → exists (λ x. x.id == r.id) rs ≡ true
      → (new.id == r.id) ≡ false
  other_id new rs free there = ==-ne new.id r.id (λ same. false≢true (
      sym (
        none_there r.id rs (
          All-map (λ x. request_clash new x ≡ false) (λ x. (x.id == r.id) ≡ false)
            (λ x h. ap (λ k. x.id == k) (sym same) ∙ apart _ _ h) rs
            (exists-All (request_clash new) rs free)))
      ∙ there))

  behind :
      (row : Uuid) (f : CapacityRequest → CapacityRequest)
      → ((x : CapacityRequest) → core (f x) ≡ core x)
      → ((x : CapacityRequest)
          → reserved_row row x ≡ true
          → Continues r x
          → x.id ≡ r.id
          → status_is r.status status_reserved ≡ false
          → (f x).status ≡ r.status)
      → (rs : List CapacityRequest) → Stored r rs
      → Stored r (update (reserved_row row) f rs)
  behind row f same status rs (there, all) = (
    exists-update (λ x. x.id == r.id) (reserved_row row) f
          (λ x. ap (λ (y : CapacityRequest). y.id == r.id) (same x)) rs
        ∙ there,
    All-update (Continues r) (Continues r) (reserved_row row) f
        (λ x m h e.
          let e' : x.id ≡ r.id = sym (ap (λ (y : CapacityRequest). y.id) (same x)) ∙ e in
          (same x ∙ (h e').0, λ n. status x m h e' n))
        (λ x m h. h) rs all,
  )

  pub Stored-Closed : Closed (Stored r)
  Stored-Closed = record {
    inserted = λ new rs free (there, all).
        let apart' = other_id new rs free there in
        (rw apart' there, (λ e. absurd (==→ne new.id r.id apart' e), all));
    restated = λ row s t rs a.
        behind row (set_status s t) (λ x. refl)
          (λ x m h e n. not_reserved r.id row r.status s x n (λ e'. (h e').1 n) m e) rs a;
    postponed =
        λ row e n t rs a. behind row (extending e n t) (λ x. refl) (λ x m h e' k. (h e').1 k) rs a;
  }
