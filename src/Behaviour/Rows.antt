-- ===== src/Behaviour/Rows.antt =====
-- Predicates on the rows of requests that survive each statement: an INSERT that no unique constraint
-- stops, and the UPDATEs of a RESERVED row.
use cloud_resource_manager.Base.{false, ◌≡◌, List, ◌∷◌, String, inl, inr, Bool-cases}
use cloud_resource_manager.Base.Int.{ℤ}
use cloud_resource_manager.Base.Action.{ok}
use cloud_resource_manager.Base.Table.{update, affected, exists}
use cloud_resource_manager.Domain.Types.{Uuid, Time, CapacityRequest, RequestStatus}
use cloud_resource_manager.Domain.Errors.{duplicate_request}
use cloud_resource_manager.Ports.{M}
use cloud_resource_manager.Postgres.Db.{Db, World, insert_row}
use cloud_resource_manager.Postgres.Logic.{Keeps, Keeps-statement}
use cloud_resource_manager.Behaviour.Reading.{update_expiry-Keeps}
use cloud_resource_manager.Postgres.Requests.{
  request_clash, insert_request, reserved_row, update_reserved, update_expiry, set_status,
  extending,
}

-- The unique constraints let an INSERT of a request through only where nothing clashes with it.
pub record Closed (Q : List CapacityRequest → Type 0) : Type 0 where
  pub inserted :
      (r : CapacityRequest) (rs : List CapacityRequest)
      → exists (request_clash r) rs ≡ false
      → Q rs
      → Q (r ∷ rs)
  pub restated :
      (row : Uuid) (s : RequestStatus) (t : Time) (rs : List CapacityRequest)
      → Q rs
      → Q (update (reserved_row row) (set_status s t) rs)
  pub postponed :
      (row : Uuid) (e : Time) (n : ℤ) (t : Time) (rs : List CapacityRequest)
      → Q rs
      → Q (update (reserved_row row) (extending e n t) rs)

abbrev pub OnRequests : {F : Type 0} → (List CapacityRequest → Type 0) → Db F → Type 0
OnRequests Q d = Q d.requests

module _ {F R : Type 0} {Q : List CapacityRequest → Type 0} (law : Closed Q) where
  update_reserved-Rows :
      (label : String) (row : Uuid) (f : Time → CapacityRequest → CapacityRequest)
      → ((t : Time) (rs : List CapacityRequest) → Q rs → Q (update (reserved_row row) (f t) rs))
      → Keeps {F = F} {R = R} (OnRequests Q) (update_reserved label row f)
  unfolding update_reserved
  update_reserved-Rows label row f h = record {
    at = λ w p.
        (Keeps-statement {F = F} {R = R} {P = OnRequests Q} label
            (λ (d : Db F). (
              ok (affected (reserved_row row) d.requests),
              record d { requests = update (reserved_row row) (f w.db_clock) d.requests },
            ))
            (λ d a. h w.db_clock d.requests a)).at
          w p;
  }

  pub status-Rows :
      (label : String) (row : Uuid) (s : RequestStatus)
      → Keeps {F = F} {R = R} (OnRequests Q) (update_reserved label row (set_status s))
  status-Rows label row s = update_reserved-Rows label row (set_status s) (law.restated row s)

  pub expiry-Rows :
      (row : Uuid) (e : Time) (n : ℤ) → Keeps {F = F} {R = R} (OnRequests Q) (update_expiry row e n)
  expiry-Rows row e n =
      update_expiry-Keeps (OnRequests Q) row e n (λ t d. law.postponed row e n t d.requests)

  pub insert_request-Rows :
      (label : String) (r : CapacityRequest)
      → Keeps {F = F} {R = R} (OnRequests Q) (insert_request label r)
  unfolding insert_request
  insert_request-Rows label r = Keeps-statement label _ (λ d a. stored d a)
    where
      stored :
          (d : Db F)
          → Q d.requests
          → OnRequests Q
              (insert_row
                (exists (request_clash r) d.requests)
                duplicate_request
                d
                (record d { requests = r ∷ d.requests })).1
      stored d a = elim (Bool-cases (exists (request_clash r) d.requests)) [
        | inl e ↦ rw e a
        | inr e ↦ rw e (law.inserted r d.requests e a)
      ]

module _ {F R A : Type 0} (Q : List CapacityRequest → Type 0) where
  -- An action that leaves the table of requests.
  pub Rows-elsewhere :
      (m : M (World F R) A)
      → ((w : World F R) → (m w).1.db.requests ≡ w.db.requests)
      → Keeps (OnRequests Q) m
  Rows-elsewhere m h = record { at = λ w p. rw (h w) p }
