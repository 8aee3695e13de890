-- ===== src/Behaviour/Unique.antt =====
-- UNIQUE (customer_id, idempotency_key) and the primary key of requests, through the statements.
use cloud_resource_manager.Base.{
  Bool, false, ◌≡◌, refl, ◌∙◌, List, [], ◌∷◌, if◌then◌else◌, inl, inr, Bool-cases,
}
use cloud_resource_manager.Base.Int.{ℤ}
use cloud_resource_manager.Base.Table.{update, All}
use cloud_resource_manager.Base.Table.Laws.{All-update, exists-All}
use cloud_resource_manager.Domain.Types.{Uuid, Time, CapacityRequest, RequestStatus}
use cloud_resource_manager.Postgres.Db.{Db}
use cloud_resource_manager.Postgres.Requests.{request_clash, reserved_row, set_status, extending}
use cloud_resource_manager.Behaviour.Rows.{Closed}

-- No two requests have one id, or one customer and key.
abbrev pub AllDifferent : List CapacityRequest → Type 0
AllDifferent [] = Unit
AllDifferent (r ∷ rs) = All (λ x. request_clash r x ≡ false) rs × AllDifferent rs

abbrev pub UniqueKeys : {F : Type 0} → Db F → Type 0
UniqueKeys d = AllDifferent d.requests

-- An update that changes neither ids nor keys.
module _ (b : CapacityRequest → Bool) (f : CapacityRequest → CapacityRequest)
    (left : (r x : CapacityRequest) → request_clash (f r) x ≡ request_clash r x)
    (right : (r x : CapacityRequest) → request_clash r (f x) ≡ request_clash r x) where
  same_clash :
      (r x : CapacityRequest) → request_clash (if b r then f r else r) x ≡ request_clash r x
  same_clash r x = elim (Bool-cases (b r)) [ inl e ↦ rw e (left r x) | inr e ↦ rw e refl ]

  pub update-AllDifferent :
      (rs : List CapacityRequest) → AllDifferent rs → AllDifferent (update b f rs)
  update-AllDifferent [] a = tt
  update-AllDifferent (r ∷ rs) a = (
    All-update (λ x. request_clash r x ≡ false)
        (λ x. request_clash (if b r then f r else r) x ≡ false) b f
        (λ x e h. same_clash r (f x) ∙ right r x ∙ h) (λ x e h. same_clash r x ∙ h) rs a.0,
    update-AllDifferent rs a.1,
  )

module _ (rs : List CapacityRequest) where
  same_status :
      (row : Uuid) (s : RequestStatus) (t : Time)
      → AllDifferent rs
      → AllDifferent (update (reserved_row row) (set_status s t) rs)
  same_status row s t a =
      update-AllDifferent (reserved_row row) (set_status s t) (λ r x. refl) (λ r x. refl) rs a

  same_expiry :
      (row : Uuid) (e : Time) (n : ℤ) (t : Time)
      → AllDifferent rs
      → AllDifferent (update (reserved_row row) (extending e n t) rs)
  same_expiry row e n t a =
      update-AllDifferent (reserved_row row) (extending e n t) (λ r x. refl) (λ r x. refl) rs a

pub AllDifferent-Closed : Closed AllDifferent
AllDifferent-Closed = record {
  inserted = λ r rs e a. (exists-All (request_clash r) rs e, a);
  restated = λ row s t rs a. same_status rs row s t a;
  postponed = λ row e n t rs a. same_expiry rs row e n t a;
}
