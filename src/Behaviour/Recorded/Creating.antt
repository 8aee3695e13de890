-- ===== src/Behaviour/Recorded/Creating.antt =====
-- internal/service/capacity.go: the request that CreateRequest returns, on each path that returns one.
use cloud_resource_manager.Base.{Bool, ◌≡◌, Option, none, some, List, String, subst}
use cloud_resource_manager.Base.Action.{Result, ok, err}
use cloud_resource_manager.Config.{Config}
use cloud_resource_manager.External.{Doubles}
use cloud_resource_manager.Domain.Types.{Uuid, Time, Product, CapacityRequest}
use cloud_resource_manager.Domain.Errors.{
  Error, Rejection, app, duplicate_request, invalid_transition, rejected, dependency, is_duplicate,
}
use cloud_resource_manager.Postgres.Db.{Db, within_tx}
use cloud_resource_manager.Postgres.Logic.{
  kept, Post, Ensures, Ensures-bind, Ensures-pure, Ensures-fail, Ensures-lift, Ensures-within_tx,
}
use cloud_resource_manager.Redis.{Server}
use cloud_resource_manager.Deployment.{production}
use cloud_resource_manager.Deployment
use cloud_resource_manager.Service.Input.{CreateInput, ReservationPlan, Codecs}
use cloud_resource_manager.Service.Plan
use cloud_resource_manager.Service.Reserve.{Outcome, reserved, refused, settle}
use cloud_resource_manager.Service.Reserve
use cloud_resource_manager.Service.Create
use cloud_resource_manager.Ledger.Creation.{settle-state}
use cloud_resource_manager.Ledger.Recording.{record_outcome-Keeps}
use cloud_resource_manager.Behaviour.Recorded.{
  Anything, IsRow, Found, after, Ensures-if, Ensures-handled, find_by_idempotency-Found,
  create_reserved-IsRow, create_rejected-IsRow, match_idempotent_body-same,
}

-- A transaction that reserved has stored the request.
Decided : {F : Type 0} → Outcome → Db F → Type 0
Decided (reserved r) d = IsRow r d
Decided (refused x) d = Unit

settle-Decided :
    {F S : Type 0} (d : Db F) (s : S) (r : Result Error CapacityRequest)
    → Post IsRow r d
    → Post Decided (settle (r, s)).0 d
unfolding Decided
settle-Decided d s (ok r) p = p
settle-Decided d s (err (rejected x)) p = tt
settle-Decided d s (err (app e)) p = tt
settle-Decided d s (err duplicate_request) p = tt
settle-Decided d s (err (invalid_transition a b)) p = tt
settle-Decided d s (err (dependency e)) p = tt

module _ {F R : Type 0} (D : Doubles F) (text_le : String → String → Bool) (server : Server R)
    (C : Codecs F) (cfg : Config) where
  store_reserved-IsRow :
      (plans : List ReservationPlan) (r : CapacityRequest) (req_id : Uuid) (now : Time)
      → Ensures Anything
          (Reserve.store_reserved (production D text_le server) plans r req_id now)
          IsRow
  unfolding Reserve.store_reserved
  store_reserved-IsRow plans r req_id now =
      after (Reserve.build_lines (production D text_le server) req_id plans) _ (λ ls.
        after (Reserve.build_holds (production D text_le server) req_id now plans) _ (λ hs.
          after Deployment.new_uuid _ (λ ev_id.
            Ensures-bind {A = Unit {0}} (λ _. IsRow r) _ _ (create_reserved-IsRow r ls hs _)
              (λ _. Ensures-pure r (λ d p. p)))))

  reserve_body-IsRow :
      (plans : List ReservationPlan) (product : Option Product) (i : CreateInput) (req_id : Uuid)
      (now expires : Time) (h : String)
      → Ensures Anything
          (Reserve.reserve_body (production D text_le server) plans product i req_id now expires h)
          IsRow
  unfolding Reserve.reserve_body
  reserve_body-IsRow plans product i req_id now expires h =
      after (Reserve.reserve_each (production D text_le server) i.customer_id plans) _
        (λ _. store_reserved-IsRow plans _ req_id now)

  reserve_within_tx-Decided :
      (plans : List ReservationPlan) (product : Option Product) (i : CreateInput) (req_id : Uuid)
      (now expires : Time) (h : String)
      → Ensures Anything
          (Reserve.reserve_within_tx
            (production D text_le server)
            plans
            product
            i
            req_id
            now
            expires
            h)
          Decided
  unfolding Reserve.reserve_within_tx
  reserve_within_tx-Decided plans product i req_id now expires h = record {
    at = λ w p.
        let m =
          Reserve.reserve_body (production D text_le server) plans product i req_id now expires h in
        let done =
          (Ensures-within_tx m (reserve_body-IsRow plans product i req_id now expires h)).at w p in
        rw (settle-state (within_tx m w).0 (within_tx m w).1)
          (settle-Decided _ (within_tx m w).1 (within_tx m w).0 done);
  }

  -- What a replay hands out is the row that the lookup found.
  pub match-IsRow :
      (r : CapacityRequest) (h : String) (m : CapacityRequest) (d : Db F)
      → Create.match_idempotent_body C r h ≡ ok m
      → IsRow r d
      → IsRow m d
  match-IsRow r h m d e p = subst (λ x. IsRow x d) (match_idempotent_body-same C r m h e) p

  replayed-IsRow :
      (h : String) (found : Option CapacityRequest) (m : CapacityRequest) (d : Db F)
      → Create.replayed (production D text_le server) C cfg h found ≡ ok m
      → Found found d
      → IsRow m d
  replayed-IsRow h none m d e p = cc
  replayed-IsRow h (some r) m d e p = match-IsRow r h m d e p

  on_error-IsRow :
      (i : CreateInput) (h : String) (e : Error)
      → Ensures Anything (Create.on_error (production D text_le server) C cfg i h e) IsRow
  unfolding Create.on_error Create.replay_after_duplicate
  on_error-IsRow i h e =
      Ensures-if (is_duplicate e) _ _
        (Ensures-bind Found _ _ (find_by_idempotency-Found _ _)
          (λ found. Ensures-lift _ (replayed-IsRow h found)))
        (Ensures-fail e)

  persist_rejected-IsRow :
      (i : CreateInput) (req_id : Uuid) (now : Time) (plans : List ReservationPlan)
      (product : Option Product) (rej : Rejection) (h : String)
      → Ensures Anything
          (Create.persist_rejected
            (production D text_le server)
            C
            cfg
            i
            req_id
            now
            plans
            product
            rej
            h)
          IsRow
  unfolding Create.persist_rejected
  persist_rejected-IsRow i req_id now plans product rej h =
      let r = Create.rejected_request req_id product i now h rej in
      after (Reserve.build_lines (production D text_le server) req_id plans) _ (λ ls.
        after Deployment.new_uuid _ (λ ev_id.
          Ensures-handled (λ _. IsRow r) _
            (Create.stored_or_replayed (production D text_le server) C cfg i h r)
            (create_rejected-IsRow r ls _) (λ _. Ensures-pure r (λ d p. p)) (on_error-IsRow i h)))

  -- The counters and the caches behind the decision leave the row.
  recorded_outcome-IsRow :
      (i : CreateInput) (r : CapacityRequest) (result : String)
      → Ensures
          (IsRow r)
          (Create.record_outcome (production D text_le server) C cfg i r result)
          (λ _. IsRow r)
  recorded_outcome-IsRow i r result =
      kept _ (record_outcome-Keeps D text_le server C cfg i r result)

  finish_create-IsRow :
      (i : CreateInput) (req_id : Uuid) (now : Time) (plans : List ReservationPlan)
      (product : Option Product) (h : String) (o : Outcome)
      → Ensures
          (Decided o)
          (Create.finish_create
            (production D text_le server)
            C
            cfg
            i
            req_id
            now
            plans
            product
            h
            (ok o))
          IsRow
  unfolding Create.finish_create Decided
  finish_create-IsRow i req_id now plans product h (refused rej) =
      Ensures-bind IsRow _ _ (persist_rejected-IsRow i req_id now plans product rej h) (λ r.
        Ensures-bind (λ _. IsRow r) _ _ (recorded_outcome-IsRow i r "rejected")
          (λ _. Ensures-pure r (λ d p. p)))
  finish_create-IsRow i req_id now plans product h (reserved r) =
      Ensures-bind (λ _. IsRow r) _ _ (recorded_outcome-IsRow i r "reserved")
        (λ _. Ensures-pure r (λ d p. p))

  finish_failed-IsRow :
      (i : CreateInput) (req_id : Uuid) (now : Time) (plans : List ReservationPlan)
      (product : Option Product) (h : String) (e : Error)
      → Ensures Anything
          (Create.finish_create
            (production D text_le server)
            C
            cfg
            i
            req_id
            now
            plans
            product
            h
            (err e))
          IsRow
  unfolding Create.finish_create
  finish_failed-IsRow i req_id now plans product h e = on_error-IsRow i h e

  pub create_fresh-IsRow :
      (i : CreateInput) (h : String)
      → Ensures Anything (Create.create_fresh (production D text_le server) C cfg i h) IsRow
  unfolding Create.create_fresh
  create_fresh-IsRow i h =
      after (Create.enforce_active_holds_limit (production D text_le server) C cfg i) _ (λ _.
        after (Plan.build_reservation_plan (production D text_le server) i) _ (λ planned.
          after Deployment.now _ (λ t. after Deployment.new_uuid _ (λ req_id.
            Ensures-handled Decided _
              (Create.finish_create (production D text_le server) C cfg i req_id t planned.0
                planned.1 h)
              (reserve_within_tx-Decided planned.0 planned.1 i req_id t _ h)
              (finish_create-IsRow i req_id t planned.0 planned.1 h)
              (finish_failed-IsRow i req_id t planned.0 planned.1 h)))))
