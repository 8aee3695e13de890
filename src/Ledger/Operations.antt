-- ===== src/Ledger/Operations.antt =====
-- Confirm, Cancel, Extend and the sweeper keep an invariant of the tables: whatever statements fail, and
-- whether they return or not.
use cloud_resource_manager.Base.{Bool, true, false, Option, none, some, List, [], ◌∷◌, String}
use cloud_resource_manager.Base.Int.{ℤ, ◌+ℤ◌}
use cloud_resource_manager.Base.Action.{Result, ok, err}
use cloud_resource_manager.Config.{Config}
use cloud_resource_manager.External.{Doubles}
use cloud_resource_manager.Domain.Types.{Uuid, Time, CapacityRequest, RequestStatus, status_expired}
use cloud_resource_manager.Domain.Errors.{Error}
use cloud_resource_manager.Postgres.Db.{Db}
use cloud_resource_manager.Postgres.Logic.{
  Keeps, Keeps-bind, Keeps-pure, Keeps-fail, Keeps-within_tx,
}
use cloud_resource_manager.Redis.{Server}
use cloud_resource_manager.Deployment.{production}
use cloud_resource_manager.Service.Input.{Codecs, sweeper_lock_key}
use cloud_resource_manager.Service.Release
use cloud_resource_manager.Service.Lifecycle
use cloud_resource_manager.Service.Sweep
use cloud_resource_manager.Ledger.Invariant.{Invariant}
use cloud_resource_manager.Ledger.Calls.{
  keeps_rules, Keeps-handled, get_request-Keeps, try_lock-Keeps, unlock-Keeps,
}

module _ {F R : Type 0} (D : Doubles F) (text_le : String → String → Bool) (server : Server R)
    (C : Codecs F) (cfg : Config) {P : Db F → Type 0} (v : Invariant D text_le server P) where
  extend_reserved-Keeps :
      (id : Uuid) (r : CapacityRequest) (now : Time)
      → Keeps P (Lifecycle.extend_reserved (production D text_le server) cfg id r now)
  unfolding Lifecycle.extend_reserved
  extend_reserved-Keeps id r now = search (keeps_rules, v.extending) depth 12

  confirm_reserved-Keeps :
      (id : Uuid) (r : CapacityRequest)
      → Keeps P (Lifecycle.confirm_reserved (production D text_le server) C id r)
  unfolding Lifecycle.confirm_reserved
  confirm_reserved-Keeps id r = search (keeps_rules, Keeps-within_tx, v.confirming) depth 12

  release_reserved-Keeps :
      (r : CapacityRequest) (terminal : RequestStatus)
      → Keeps P (Release.release_reserved (production D text_le server) r terminal)
  unfolding Release.release_reserved
  release_reserved-Keeps r terminal = search (keeps_rules, Keeps-within_tx, v.releasing) depth 12

  confirm_found-Keeps :
      (id : Uuid) (found : Option CapacityRequest)
      → Keeps P (Lifecycle.confirm_found (production D text_le server) C id found)
  confirm_found-Keeps id none = Keeps-fail _
  confirm_found-Keeps id (some r) = search (keeps_rules, confirm_reserved-Keeps) depth 8

  -- Confirm keeps an invariant of the tables.
  pub confirm-Invariant :
      (id : Uuid) → Keeps P (Lifecycle.confirm (production D text_le server) C id)
  unfolding Lifecycle.confirm
  confirm-Invariant id = Keeps-bind _ _ (get_request-Keeps id) (confirm_found-Keeps id)

  cancel_found-Keeps :
      (id : Uuid) (found : Option CapacityRequest)
      → Keeps P (Lifecycle.cancel_found (production D text_le server) id found)
  unfolding Lifecycle.cancel_reserved
  cancel_found-Keeps id none = Keeps-fail _
  cancel_found-Keeps id (some r) = search (keeps_rules, release_reserved-Keeps) depth 12

  -- So does Cancel.
  pub cancel-Invariant : (id : Uuid) → Keeps P (Lifecycle.cancel (production D text_le server) id)
  unfolding Lifecycle.cancel
  cancel-Invariant id = Keeps-bind _ _ (get_request-Keeps id) (cancel_found-Keeps id)

  extend_found-Keeps :
      (id : Uuid) (found : Option CapacityRequest)
      → Keeps P (Lifecycle.extend_found (production D text_le server) cfg id found)
  extend_found-Keeps id none = Keeps-fail _
  extend_found-Keeps id (some r) = search (keeps_rules, extend_reserved-Keeps) depth 8

  -- So does Extend.
  pub extend-Invariant :
      (id : Uuid) → Keeps P (Lifecycle.extend (production D text_le server) cfg id)
  unfolding Lifecycle.extend
  extend-Invariant id = Keeps-bind _ _ (get_request-Keeps id) (extend_found-Keeps id)

  released-Keeps :
      (r : Result Error (Unit {0})) → Keeps P (Sweep.released (production D text_le server) r)
  released-Keeps (ok _) = search keeps_rules depth 8
  released-Keeps (err e) = Keeps-pure _

  expire_found-Keeps :
      (found : Result Error (Option CapacityRequest))
      → Keeps P (Sweep.expire_found (production D text_le server) found)
  expire_found-Keeps (err e) = record { at = λ w p. p }
  expire_found-Keeps (ok none) = record { at = λ w p. p }
  expire_found-Keeps (ok (some r)) =
      Keeps-handled _ (Sweep.released (production D text_le server))
        (release_reserved-Keeps r status_expired) released-Keeps

  expire_each-Keeps :
      (n : ℤ) (ids : List Uuid) → Keeps P (Sweep.expire_each (production D text_le server) n ids)
  unfolding Sweep.expire_each
  expire_each-Keeps n [] = Keeps-pure n
  expire_each-Keeps n (id ∷ ids) =
      Keeps-bind _ _
        (Keeps-handled _ (Sweep.expire_found (production D text_le server)) (get_request-Keeps id)
          expire_found-Keeps)
        (λ k. expire_each-Keeps (n +ℤ k) ids)

  sweep-Keeps : Keeps P (Sweep.sweep (production D text_le server))
  unfolding Sweep.sweep
  sweep-Keeps = search (keeps_rules, expire_each-Keeps) depth 16

  with_lock-Keeps : (got : Bool) → Keeps P (Sweep.with_lock (production D text_le server) got)
  with_lock-Keeps true = record {
    at = λ w p.
        (unlock-Keeps {P = P} sweeper_lock_key).at (Sweep.sweep (production D text_le server) w).1
          (sweep-Keeps.at w p);
  }
  with_lock-Keeps false = search keeps_rules depth 8

  -- So does a run of the sweeper, with or without the lock.
  pub expire_due-Invariant : Keeps P (Sweep.expire_due (production D text_le server))
  unfolding Sweep.expire_due
  expire_due-Invariant = Keeps-bind _ _ (try_lock-Keeps _) with_lock-Keeps
