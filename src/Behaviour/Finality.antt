-- ===== src/Behaviour/Finality.antt =====
-- internal/service/capacity.go: a request that has left RESERVED keeps its status.
use cloud_resource_manager.Base.{Bool, true, false, ◌≡◌, Option, none, some, List, [], ◌∷◌, String}
use cloud_resource_manager.Base.Int.{ℤ, ◌+ℤ◌}
use cloud_resource_manager.Base.Action.{Result, ok, err}
use cloud_resource_manager.Config.{Config}
use cloud_resource_manager.External.{Doubles}
use cloud_resource_manager.Domain.Types.{
  Uuid, Time, CapacityRequest, RequestLine, RequestEvent, Dedication, Hold, HoldStatus,
  RequestStatus, status_is, status_reserved, status_expired, status_completed, status_cancelled,
}
use cloud_resource_manager.Domain.Errors.{Error}
use cloud_resource_manager.Postgres.Db.{World}
use cloud_resource_manager.Postgres.Logic.{Keeps, Keeps-bind, Keeps-pure, Keeps-fail}
use cloud_resource_manager.Postgres.Requests.{
  confirm_request, mark_cancelled, mark_expired, extend_request,
}
use cloud_resource_manager.Redis.{Server}
use cloud_resource_manager.Deployment.{production}
use cloud_resource_manager.Service.Input.{Codecs, sweeper_lock_key}
use cloud_resource_manager.Service.Release
use cloud_resource_manager.Service.Lifecycle
use cloud_resource_manager.Service.Sweep
use cloud_resource_manager.Ledger.Calls.{
  keeps_rules, Keeps-handled, get_request-Keeps, try_lock-Keeps, unlock-Keeps,
}
use cloud_resource_manager.Behaviour.Settled.{
  Settled, Keeps-tx, update_status-Settled, update_expiry-Settled, insert_event-Settled,
  insert_dedications-Settled, update_hold_status-Settled, release_reserved-Settled,
  move_reserved_to_dedicated-Settled, list_active_holds-Settled, list_lines-Settled,
  release_quota-Settled,
}

module _ {F R : Type 0} (D : Doubles F) (text_le : String → String → Bool) (server : Server R)
    (C : Codecs F) (cfg : Config) (id : Uuid) (s : RequestStatus)
    (n : status_is s status_reserved ≡ false) where
  confirm_request-Settled :
      (row : Uuid) (ds : List Dedication) (e : RequestEvent)
      → Keeps {F = F} {R = R} (Settled id s) (confirm_request row ds e)
  unfolding confirm_request
  confirm_request-Settled row ds e =
      Keeps-bind _ _ (update_status-Settled id s n "confirm request" row status_completed)
        (λ k. search (keeps_rules, insert_dedications-Settled, insert_event-Settled) depth 10)

  mark_cancelled-Settled :
      (row : Uuid) (e : RequestEvent) → Keeps {F = F} {R = R} (Settled id s) (mark_cancelled row e)
  unfolding mark_cancelled
  mark_cancelled-Settled row e =
      Keeps-bind _ _ (update_status-Settled id s n "mark terminal" row status_cancelled)
        (λ k. search (keeps_rules, insert_event-Settled) depth 10)

  mark_expired-Settled :
      (row : Uuid) (e : RequestEvent) → Keeps {F = F} {R = R} (Settled id s) (mark_expired row e)
  unfolding mark_expired
  mark_expired-Settled row e =
      Keeps-bind _ _ (update_status-Settled id s n "mark terminal" row status_expired)
        (λ k. search (keeps_rules, insert_event-Settled) depth 10)

  extend_request-Settled :
      (row : Uuid) (t : Time) (k : ℤ) (e : RequestEvent)
      → Keeps {F = F} {R = R} (Settled id s) (extend_request row t k e)
  unfolding extend_request
  extend_request-Settled row t k e =
      Keeps-bind _ _ (update_expiry-Settled id s n row t k)
        (λ k. search (keeps_rules, insert_event-Settled) depth 10)

  release_hold-Settled :
      (c : String) (lines : List RequestLine) (to : HoldStatus) (h : Hold)
      → Keeps (Settled id s) (Release.release_hold (production D text_le server) c lines to h)
  unfolding Release.release_hold
  release_hold-Settled c lines to h =
      search
        (keeps_rules, release_reserved-Settled, release_quota-Settled, update_hold_status-Settled)
        depth 12

  release_holds-Settled :
      (c : String) (lines : List RequestLine) (to : HoldStatus) (hs : List Hold)
      → Keeps (Settled id s) (Release.release_holds (production D text_le server) c lines to hs)
  unfolding Release.release_holds
  release_holds-Settled c lines to [] = Keeps-pure tt
  release_holds-Settled c lines to (h ∷ hs) =
      Keeps-bind _ _ (release_hold-Settled c lines to h) (λ _. release_holds-Settled c lines to hs)

  release_reserved_all-Settled :
      (r : CapacityRequest) (t : RequestStatus)
      → Keeps (Settled id s) (Release.release_reserved (production D text_le server) r t)
  unfolding Release.release_reserved
  release_reserved_all-Settled r t =
      search
        (
          keeps_rules, Keeps-tx, list_active_holds-Settled, list_lines-Settled,
          release_holds-Settled, mark_cancelled-Settled, mark_expired-Settled,
        )
        depth 16

  dedicate_hold-Settled :
      (row : Uuid) (now : Time) (h : Hold)
      → Keeps (Settled id s) (Lifecycle.dedicate_hold (production D text_le server) row now h)
  unfolding Lifecycle.dedicate_hold
  dedicate_hold-Settled row now h =
      search (keeps_rules, move_reserved_to_dedicated-Settled, update_hold_status-Settled) depth 12

  dedicate_holds-Settled :
      (row : Uuid) (now : Time) (hs : List Hold)
      → Keeps (Settled id s) (Lifecycle.dedicate_holds (production D text_le server) row now hs)
  unfolding Lifecycle.dedicate_holds
  dedicate_holds-Settled row now [] = Keeps-pure []
  dedicate_holds-Settled row now (h ∷ hs) =
      Keeps-bind _ _ (dedicate_hold-Settled row now h)
        (λ x. Keeps-bind _ _ (dedicate_holds-Settled row now hs) (λ xs. Keeps-pure (x ∷ xs)))

  confirm_found-Settled :
      (row : Uuid) (found : Option CapacityRequest)
      → Keeps (Settled id s) (Lifecycle.confirm_found (production D text_le server) C row found)
  unfolding Lifecycle.confirm_reserved
  confirm_found-Settled row none = Keeps-fail _
  confirm_found-Settled row (some r) =
      search
        (
          keeps_rules, Keeps-tx, list_active_holds-Settled, dedicate_holds-Settled,
          confirm_request-Settled,
        )
        depth 20

  cancel_found-Settled :
      (row : Uuid) (found : Option CapacityRequest)
      → Keeps (Settled id s) (Lifecycle.cancel_found (production D text_le server) row found)
  unfolding Lifecycle.cancel_reserved
  cancel_found-Settled row none = Keeps-fail _
  cancel_found-Settled row (some r) = search (keeps_rules, release_reserved_all-Settled) depth 14

  extend_found-Settled :
      (row : Uuid) (found : Option CapacityRequest)
      → Keeps (Settled id s) (Lifecycle.extend_found (production D text_le server) cfg row found)
  unfolding Lifecycle.extend_reserved
  extend_found-Settled row none = Keeps-fail _
  extend_found-Settled row (some r) = search (keeps_rules, extend_request-Settled) depth 20

  released-Settled :
      (r : Result Error (Unit {0}))
      → Keeps (Settled id s) (Sweep.released (production D text_le server) r)
  released-Settled (ok _) = search keeps_rules depth 8
  released-Settled (err e) = Keeps-pure _

  expire_found-Settled :
      (found : Result Error (Option CapacityRequest))
      → Keeps (Settled id s) (Sweep.expire_found (production D text_le server) found)
  expire_found-Settled (err e) = record { at = λ w p. p }
  expire_found-Settled (ok none) = record { at = λ w p. p }
  expire_found-Settled (ok (some r)) =
      Keeps-handled _ (Sweep.released (production D text_le server))
        (release_reserved_all-Settled r status_expired) released-Settled

  expire_each-Settled :
      (k : ℤ) (ids : List Uuid)
      → Keeps (Settled id s) (Sweep.expire_each (production D text_le server) k ids)
  unfolding Sweep.expire_each
  expire_each-Settled k [] = Keeps-pure k
  expire_each-Settled k (x ∷ xs) =
      Keeps-bind _ _
        (Keeps-handled _ (Sweep.expire_found (production D text_le server)) (get_request-Keeps x)
          expire_found-Settled)
        (λ j. expire_each-Settled (k +ℤ j) xs)

  sweep-Settled : Keeps (Settled id s) (Sweep.sweep (production D text_le server))
  unfolding Sweep.sweep
  sweep-Settled = search (keeps_rules, expire_each-Settled) depth 16

  with_lock-Settled :
      (got : Bool) → Keeps (Settled id s) (Sweep.with_lock (production D text_le server) got)
  with_lock-Settled true = record {
    at = λ w p.
        (unlock-Keeps {P = Settled id s} sweeper_lock_key).at
          (Sweep.sweep (production D text_le server) w).1 (sweep-Settled.at w p);
  }
  with_lock-Settled false = search keeps_rules depth 8

  -- Where a request has a status other than RESERVED, it has that status still behind Confirm,
  -- Cancel and Extend of any request and behind a run of the sweeper, whether they return or fail.
  pub operations-Settled :
      (row : Uuid) (w : World F R)
      → Settled id s w.db
      → Settled id s (Lifecycle.confirm (production D text_le server) C row w).1.db
        × Settled id s (Lifecycle.cancel (production D text_le server) row w).1.db
        × Settled id s (Lifecycle.extend (production D text_le server) cfg row w).1.db
        × Settled id s (Sweep.expire_due (production D text_le server) w).1.db
  unfolding Lifecycle.confirm Lifecycle.cancel Lifecycle.extend Sweep.expire_due
  operations-Settled row w p = (
    (Keeps-bind _ _ (get_request-Keeps row) (confirm_found-Settled row)).at w p,
    (Keeps-bind _ _ (get_request-Keeps row) (cancel_found-Settled row)).at w p,
    (Keeps-bind _ _ (get_request-Keeps row) (extend_found-Settled row)).at w p,
    (Keeps-bind _ _ (try_lock-Keeps sweeper_lock_key) with_lock-Settled).at w p,
  )
