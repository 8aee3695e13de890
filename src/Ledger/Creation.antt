-- ===== src/Ledger/Creation.antt =====
-- CreateRequest keeps an invariant of the tables, whether it reserves, rejects, replays or fails.
use cloud_resource_manager.Base.{Bool, ◌≡◌, refl, Option, none, some, List, String, ◌=ₛ◌}
use cloud_resource_manager.Base.Action.{Result, ok, err, fail}
use cloud_resource_manager.Config.{Config}
use cloud_resource_manager.External.{Doubles}
use cloud_resource_manager.Domain.Types.{
  Uuid, Time, Product, CapacityRequest, missing_idempotency, conflict,
}
use cloud_resource_manager.Domain.Errors.{
  Error, Rejection, app, new_app_error, duplicate_request, invalid_transition, rejected, dependency,
}
use cloud_resource_manager.Postgres.Db.{Db, within_tx}
use cloud_resource_manager.Postgres.Logic.{
  Keeps, Keeps-bind, Keeps-pure, Keeps-fail, Keeps-lift, Keeps-if, Keeps-now, Keeps-new_uuid,
  Keeps-within_tx,
}
use cloud_resource_manager.Redis.{Server}
use cloud_resource_manager.Deployment.{production}
use cloud_resource_manager.Service.Input.{CreateInput, ReservationPlan, Codecs}
use cloud_resource_manager.Service.Validate
use cloud_resource_manager.Service.Reserve.{Outcome, reserved, refused, settle}
use cloud_resource_manager.Service.Reserve
use cloud_resource_manager.Service.Create
use cloud_resource_manager.Ledger.Invariant.{Invariant}
use cloud_resource_manager.Ledger.Calls.{keeps_rules, Keeps-handled}
use cloud_resource_manager.Ledger.Recording.{
  build_reservation_plan-Keeps, on_error-Keeps, stored_or_replayed-Keeps, build_lines-Keeps,
  remember-Keeps, enforce-Keeps, record_outcome-Keeps, correlated-Keeps,
}

pub settle-state : {S : Type 0} (r : Result Error CapacityRequest) (s : S) → (settle (r, s)).1 ≡ s
settle-state (ok req) s = refl
settle-state (err (rejected x)) s = refl
settle-state (err (app e)) s = refl
settle-state (err duplicate_request) s = refl
settle-state (err (invalid_transition a b)) s = refl
settle-state (err (dependency e)) s = refl

module _ {F R : Type 0} (D : Doubles F) (text_le : String → String → Bool) (server : Server R)
    (C : Codecs F) (cfg : Config) {P : Db F → Type 0} (v : Invariant D text_le server P) where
  reserve_within_tx-Keeps :
      (plans : List ReservationPlan) (product : Option Product) (i : CreateInput) (req_id : Uuid)
      (now expires : Time) (body_hash : String)
      → Keeps P (
          Reserve.reserve_within_tx
            (production D text_le server)
            plans
            product
            i
            req_id
            now
            expires
            body_hash)
  unfolding Reserve.reserve_within_tx
  reserve_within_tx-Keeps plans product i req_id now expires body_hash = record {
    at = λ w p.
        let m =
          Reserve.reserve_body (production D text_le server) plans product i req_id now expires
            body_hash in
        rw (settle-state (within_tx m w).0 (within_tx m w).1)
          ((Keeps-within_tx m (v.reserving plans product i req_id now expires body_hash)).at w p);
  }

  persist_rejected-Keeps :
      (i : CreateInput) (req_id : Uuid) (now : Time) (plans : List ReservationPlan)
      (product : Option Product) (rej : Rejection) (h : String)
      → Keeps P (
          Create.persist_rejected
            (production D text_le server)
            C
            cfg
            i
            req_id
            now
            plans
            product
            rej
            h)
  unfolding Create.persist_rejected
  persist_rejected-Keeps i req_id now plans product rej h =
      Keeps-bind _ _ (build_lines-Keeps D text_le server C cfg req_id plans) (λ ls.
        Keeps-bind _ _ Keeps-new_uuid (λ ev_id.
          Keeps-handled _ (Create.stored_or_replayed (production D text_le server) C cfg i h _)
            (v.recording _ ls _) (stored_or_replayed-Keeps D text_le server C cfg i h _)))

  finish_create-Keeps :
      (i : CreateInput) (req_id : Uuid) (now : Time) (plans : List ReservationPlan)
      (product : Option Product) (h : String) (r : Result Error Outcome)
      → Keeps P
          (Create.finish_create (production D text_le server) C cfg i req_id now plans product h r)
  unfolding Create.finish_create
  finish_create-Keeps i req_id now plans product h (err e) =
      on_error-Keeps D text_le server C cfg i h e
  finish_create-Keeps i req_id now plans product h (ok (refused rej)) =
      search (keeps_rules, persist_rejected-Keeps, record_outcome-Keeps D text_le server C cfg)
        depth 8
  finish_create-Keeps i req_id now plans product h (ok (reserved req)) =
      search (keeps_rules, record_outcome-Keeps D text_le server C cfg) depth 8

  create_fresh-Keeps :
      (i : CreateInput) (h : String)
      → Keeps P (Create.create_fresh (production D text_le server) C cfg i h)
  unfolding Create.create_fresh
  create_fresh-Keeps i h = Keeps-bind _ _ (enforce-Keeps D text_le server C cfg i) (λ _.
      Keeps-bind _ _ (build_reservation_plan-Keeps D text_le server C cfg i) (λ planned.
        Keeps-bind _ _ Keeps-now (λ now. Keeps-bind _ _ Keeps-new_uuid (λ req_id.
          Keeps-handled _
            (Create.finish_create (production D text_le server) C cfg i req_id now planned.0
              planned.1 h)
            (reserve_within_tx-Keeps planned.0 planned.1 i req_id now _ h)
            (finish_create-Keeps i req_id now planned.0 planned.1 h)))))

  matched-Keeps :
      (i : CreateInput) (h : String) (found : Option CapacityRequest)
      → Keeps P (Create.matched (production D text_le server) C cfg i h found)
  matched-Keeps i h none = Keeps-pure none
  matched-Keeps i h (some r) = search (keeps_rules, remember-Keeps D text_le server C cfg) depth 8

  check_by_key-Keeps :
      (i : CreateInput) (h : String)
      → Keeps P (Create.check_by_key (production D text_le server) C cfg i h)
  unfolding Create.check_by_key
  check_by_key-Keeps i h = search (keeps_rules, matched-Keeps) depth 8

  by_id-Keeps :
      (i : CreateInput) (h : String) (found : Option CapacityRequest)
      → Keeps P (Create.by_id (production D text_le server) C cfg i h found)
  by_id-Keeps i h none = check_by_key-Keeps i h
  by_id-Keeps i h (some r) = search keeps_rules depth 8

  parsed-Keeps :
      (i : CreateInput) (h : String) (id : Option Uuid)
      → Keeps P (Create.parsed (production D text_le server) C cfg i h id)
  parsed-Keeps i h none = check_by_key-Keeps i h
  parsed-Keeps i h (some id) = search (keeps_rules, by_id-Keeps) depth 8

  cached-Keeps :
      (i : CreateInput) (h : String) (id : Option String)
      → Keeps P (Create.cached (production D text_le server) C cfg i h id)
  cached-Keeps i h none = check_by_key-Keeps i h
  cached-Keeps i h (some id) = parsed-Keeps i h (C.uuid_parse id)

  check_idempotent_replay-Keeps :
      (i : CreateInput) (h : String)
      → Keeps P (Create.check_idempotent_replay (production D text_le server) C cfg i h)
  unfolding Create.check_idempotent_replay
  check_idempotent_replay-Keeps i h = search (keeps_rules, cached-Keeps) depth 8

  or_create-Keeps :
      (i : CreateInput) (h : String) (found : Option CapacityRequest)
      → Keeps P (Create.or_create (production D text_le server) C cfg i h found)
  or_create-Keeps i h none = create_fresh-Keeps i h
  or_create-Keeps i h (some r) = Keeps-pure r

  -- CreateRequest keeps an invariant of the tables.
  pub create_request-Invariant :
      (i : CreateInput) → Keeps P (Create.create_request (production D text_le server) C cfg i)
  unfolding Create.create_request
  create_request-Invariant i =
      Keeps-if (i.idempotency_key =ₛ "")
        (fail (new_app_error missing_idempotency "Idempotency-Key is required" none)) _
        (Keeps-fail (new_app_error missing_idempotency "Idempotency-Key is required" none))
        (Keeps-if (i.customer_id =ₛ "")
          (fail (new_app_error conflict "customer_id is required" none)) _
          (Keeps-fail (new_app_error conflict "customer_id is required" none))
          (Keeps-bind {A = Unit {0}} _ _ (Keeps-lift (Validate.validate_create_input i)) (λ _.
            Keeps-bind _ _ (correlated-Keeps D text_le server C cfg i) (λ i'.
              Keeps-bind _ _ (check_idempotent_replay-Keeps i' (Validate.compute_body_hash C i'))
                (or_create-Keeps i' (Validate.compute_body_hash C i'))))))
