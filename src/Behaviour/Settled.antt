-- ===== src/Behaviour/Settled.antt =====
-- internal/repository/postgres: the statements, against the status of a request that has left
-- RESERVED. No WHERE clause of an UPDATE on requests matches such a row.
use cloud_resource_manager.Base.{
  Bool, true, false, ◌&&◌, ◌≡◌, sym, ◌∙◌, List, [], ◌∷◌, String, ◌==◌, arith,
}
use mathlib.Core.Bool.{false≢true}
use cloud_resource_manager.Base.Int.{ℤ}
use cloud_resource_manager.Base.Action.{Result, ok, err}
use cloud_resource_manager.Base.Table.{update, affected, All}
use cloud_resource_manager.Base.Table.Laws.{All-update}
use cloud_resource_manager.Domain.Types.{
  Uuid, Time, ResourcePool, CapacityRequest, RequestEvent, Dedication, HoldStatus, RequestStatus,
  status_is, status_reserved,
}
use cloud_resource_manager.Domain.Errors.{Error}
use cloud_resource_manager.Ports.{M}
use cloud_resource_manager.Postgres.Db.{Db, World, within_tx}
use cloud_resource_manager.Postgres.Logic.{
  Post, Keeps, Keeps-bind, Keeps-pure, Keeps-statement, Keeps-within_tx, Keeps-query,
}
use cloud_resource_manager.Postgres.Pools.{
  release_reserved, move_reserved_to_dedicated, update_pools, covers, releasing, dedicating,
}
use cloud_resource_manager.Postgres.Quotas.{release_quota}
use cloud_resource_manager.Behaviour.Reading.{update_expiry-Keeps}
use cloud_resource_manager.Postgres.Requests.{
  update_expiry, reserved_row, update_reserved, set_status, extending, insert_event,
  insert_dedication, insert_dedications, update_hold_status, list_active_holds, list_lines,
}

-- The request of an id has a status, wherever the table has it.
abbrev pub Settled : {F : Type 0} → Uuid → RequestStatus → Db F → Type 0
Settled id s d = All (λ r. r.id ≡ id → r.status ≡ s) d.requests

module _ {F R A : Type 0} {P : Db F → Type 0} where
  -- A transaction whose body keeps `P` in any case keeps it.
  pub Keeps-tx : (m : M (World F R) A) → Keeps P m → Keeps P (within_tx m)
  Keeps-tx m h = Keeps-within_tx m (record { at = λ w p. after (m w).0 (h.at w p) })
    where
      after : (r : Result Error A) {d : Db F} → P d → Post (λ _. P) r d
      after (ok a) p = p
      after (err e) p = tt

pub not_reserved :
    (id row : Uuid) (s t : RequestStatus) (x : CapacityRequest)
    → status_is s status_reserved ≡ false
    → (x.id ≡ id → x.status ≡ s)
    → reserved_row row x ≡ true
    → x.id ≡ id
    → t ≡ s
not_reserved id row s t x n h m e =
    absurd (clash (both_right (x.id == row) (status_is x.status status_reserved) m))
  where
    both_right : (a b : Bool) → (a && b) ≡ true → b ≡ true
    both_right a b h = ground arith

    clash : status_is x.status status_reserved ≡ true → ⊥
    clash q = false≢true (sym n ∙ rw (h e) at q)

module _ {F R : Type 0} (id : Uuid) (s : RequestStatus)
    (n : status_is s status_reserved ≡ false) where
  pub update_status-Settled :
      (label : String) (row : Uuid) (t : RequestStatus)
      → Keeps {F = F} {R = R} (Settled id s) (update_reserved label row (set_status t))
  unfolding update_reserved
  update_status-Settled label row t = record {
    at = λ w p.
        (Keeps-statement {F = F} {R = R} {P = Settled id s} label
            (λ (d : Db F). (
              ok (affected (reserved_row row) d.requests),
              record d {
                requests = update (reserved_row row) (set_status t w.db_clock) d.requests;
              },
            ))
            (λ d a.
              All-update (λ r. r.id ≡ id → r.status ≡ s) (λ r. r.id ≡ id → r.status ≡ s)
                (reserved_row row) (set_status t w.db_clock)
                (λ x m h e. not_reserved id row s t x n h m e) (λ x m h. h) d.requests a)).at
          w p;
  }

  pub update_expiry-Settled :
      (row : Uuid) (e : Time) (k : ℤ) → Keeps {F = F} {R = R} (Settled id s) (update_expiry row e k)
  update_expiry-Settled row e k = update_expiry-Keeps (Settled id s) row e k (λ t d a.
      All-update (λ r. r.id ≡ id → r.status ≡ s) (λ r. r.id ≡ id → r.status ≡ s) (reserved_row row)
        (extending e k t) (λ x m h. h) (λ x m h. h) d.requests a)

module _ {F R A : Type 0} {id : Uuid} {s : RequestStatus} where
  -- An action that leaves the table of requests.
  Keeps-elsewhere :
      (m : M (World F R) A)
      → ((w : World F R) → (m w).1.db.requests ≡ w.db.requests)
      → Keeps (Settled id s) m
  Keeps-elsewhere m h = record { at = λ w p. rw (h w) p }

module _ {F R : Type 0} {id : Uuid} {s : RequestStatus} where
  pub insert_event-Settled :
      (e : RequestEvent) → Keeps {F = F} {R = R} (Settled id s) (insert_event e)
  unfolding insert_event
  insert_event-Settled e = Keeps-elsewhere _ (λ w. ground arith)

  pub insert_dedication-Settled :
      (x : Dedication) → Keeps {F = F} {R = R} (Settled id s) (insert_dedication x)
  unfolding insert_dedication
  insert_dedication-Settled x = Keeps-elsewhere _ (λ w. ground arith)

  pub insert_dedications-Settled :
      (xs : List Dedication) → Keeps {F = F} {R = R} (Settled id s) (insert_dedications xs)
  unfolding insert_dedications
  insert_dedications-Settled [] = Keeps-pure tt
  insert_dedications-Settled (x ∷ xs) =
      Keeps-bind _ _ (insert_dedication-Settled x) (λ _. insert_dedications-Settled xs)

  pub update_hold_status-Settled :
      (h : Uuid) (from to : HoldStatus)
      → Keeps {F = F} {R = R} (Settled id s) (update_hold_status h from to)
  unfolding update_hold_status
  update_hold_status-Settled h from to = Keeps-elsewhere _ (λ w. ground arith)

  pub update_pools-Settled :
      (label : String) (b : ResourcePool F → Bool) (f : Time → ResourcePool F → ResourcePool F)
      → Keeps {F = F} {R = R} (Settled id s) (update_pools label b f)
  unfolding update_pools
  update_pools-Settled label b f = Keeps-elsewhere _ (λ w. ground arith)

  pub release_reserved-Settled :
      (p : Uuid) (a : ℤ) → Keeps {F = F} {R = R} (Settled id s) (release_reserved p a)
  unfolding release_reserved
  release_reserved-Settled p a =
      Keeps-bind _ _ (update_pools-Settled "release reserved pool" (covers p a) (releasing a))
        (λ k. Keeps-pure tt)

  pub move_reserved_to_dedicated-Settled :
      (p : Uuid) (a : ℤ) → Keeps {F = F} {R = R} (Settled id s) (move_reserved_to_dedicated p a)
  unfolding move_reserved_to_dedicated
  move_reserved_to_dedicated-Settled p a =
      Keeps-bind _ _
        (update_pools-Settled "move reserved to dedicated pool" (covers p a) (dedicating a))
        (λ k. Keeps-pure tt)

  pub list_active_holds-Settled :
      (r : Uuid) → Keeps {F = F} {R = R} (Settled id s) (list_active_holds r)
  unfolding list_active_holds
  list_active_holds-Settled r = Keeps-query _ _

  pub list_lines-Settled : (r : Uuid) → Keeps {F = F} {R = R} (Settled id s) (list_lines r)
  unfolding list_lines
  list_lines-Settled r = Keeps-query _ _

  pub release_quota-Settled :
      (c k : String) (a : ℤ) → Keeps {F = F} {R = R} (Settled id s) (release_quota c k a)
  unfolding release_quota
  release_quota-Settled c k a = Keeps-elsewhere _ (λ w. ground arith)
