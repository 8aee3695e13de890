-- ===== src/Ledger/Recording.antt =====
-- The steps of CreateRequest outside the reservation keep every predicate on the tables: they read,
-- count and reach the caches.
use cloud_resource_manager.Base.{Bool, Option, none, some, List, [], ◌∷◌, String}
use cloud_resource_manager.Base.Action.{Result, ok, err}
use cloud_resource_manager.Config.{Config}
use cloud_resource_manager.External.{Doubles}
use cloud_resource_manager.Domain.Types.{Uuid, CapacityRequest, Reason}
use cloud_resource_manager.Domain.Errors.{Error}
use cloud_resource_manager.Postgres.Db.{Db}
use cloud_resource_manager.Postgres.Logic.{
  Keeps, Keeps-bind, Keeps-pure, Keeps-lift, Keeps-new_uuid,
}
use cloud_resource_manager.Redis.{Server}
use cloud_resource_manager.Deployment.{production}
use cloud_resource_manager.Service.Input.{CreateInput, ReservationPlan, Codecs}
use cloud_resource_manager.Service.Plan.{Amounts}
use cloud_resource_manager.Service.Plan
use cloud_resource_manager.Service.Reserve.{Outcome, reserved, refused, settle}
use cloud_resource_manager.Service.Reserve
use cloud_resource_manager.Service.Create
use cloud_resource_manager.Ledger.Calls.{keeps_rules, get_by_kind-Keeps}

module _ {F R : Type 0} (D : Doubles F) (text_le : String → String → Bool) (server : Server R)
    (C : Codecs F) (cfg : Config) {P : Db F → Type 0} where
  resolve_lines-Keeps :
      (i : CreateInput) → Keeps P (Plan.resolve_lines (production D text_le server) i)
  unfolding Plan.resolve_lines
  resolve_lines-Keeps i = search keeps_rules depth 8

  plan_lines-Keeps : (xs : Amounts) → Keeps P (Plan.plan_lines (production D text_le server) xs)
  unfolding Plan.plan_lines
  plan_lines-Keeps [] = Keeps-pure []
  plan_lines-Keeps ((k, a) ∷ xs) = Keeps-bind _ _ (get_by_kind-Keeps k) (λ pool.
      Keeps-bind _ _ (Keeps-lift _)
        (λ p. Keeps-bind _ _ (plan_lines-Keeps xs) (λ ps. Keeps-pure _)))

  pub build_reservation_plan-Keeps :
      (i : CreateInput) → Keeps P (Plan.build_reservation_plan (production D text_le server) i)
  unfolding Plan.build_reservation_plan
  build_reservation_plan-Keeps i =
      search (keeps_rules, resolve_lines-Keeps, plan_lines-Keeps) depth 10

  pub on_error-Keeps :
      (i : CreateInput) (h : String) (e : Error)
      → Keeps P (Create.on_error (production D text_le server) C cfg i h e)
  unfolding Create.on_error
  on_error-Keeps i h e = search keeps_rules depth 8

  pub stored_or_replayed-Keeps :
      (i : CreateInput) (h : String) (req : CapacityRequest) (r : Result Error (Unit {0}))
      → Keeps P (Create.stored_or_replayed (production D text_le server) C cfg i h req r)
  stored_or_replayed-Keeps i h req (ok _) = Keeps-pure req
  stored_or_replayed-Keeps i h req (err e) = on_error-Keeps i h e

  pub build_lines-Keeps :
      (req_id : Uuid) (plans : List ReservationPlan)
      → Keeps P (Reserve.build_lines (production D text_le server) req_id plans)
  unfolding Reserve.build_lines
  build_lines-Keeps req_id [] = Keeps-pure []
  build_lines-Keeps req_id (x ∷ xs) =
      Keeps-bind _ _ Keeps-new_uuid
        (λ id. Keeps-bind _ _ (build_lines-Keeps req_id xs) (λ ls. Keeps-pure _))

  count_reject-Keeps :
      (reason : Option Reason) (result : String)
      → Keeps P (Create.count_reject (production D text_le server) C cfg reason result)
  count_reject-Keeps none result = Keeps-pure tt
  count_reject-Keeps (some r) result = search keeps_rules depth 8

  pub remember-Keeps :
      (i : CreateInput) (id : Uuid)
      → Keeps P (Create.remember (production D text_le server) C cfg i id)
  unfolding Create.remember
  remember-Keeps i id = search keeps_rules depth 8

  pub enforce-Keeps :
      (i : CreateInput)
      → Keeps P (Create.enforce_active_holds_limit (production D text_le server) C cfg i)
  unfolding Create.enforce_active_holds_limit
  enforce-Keeps i = search keeps_rules depth 8

  pub record_outcome-Keeps :
      (i : CreateInput) (req : CapacityRequest) (result : String)
      → Keeps P (Create.record_outcome (production D text_le server) C cfg i req result)
  unfolding Create.record_outcome
  record_outcome-Keeps i req result =
      search (keeps_rules, count_reject-Keeps, remember-Keeps) depth 14

  pub correlated-Keeps :
      (i : CreateInput) → Keeps P (Create.correlated (production D text_le server) C cfg i)
  correlated-Keeps i = search keeps_rules depth 8
