-- ===== src/Behaviour/RowOperations.antt =====
-- internal/service/capacity.go: a predicate on the rows of requests that every statement keeps is
-- kept by every operation.
use cloud_resource_manager.Base.{Bool, Option, List, [], ◌∷◌, String}
use cloud_resource_manager.External.{Doubles}
use cloud_resource_manager.Domain.Types.{
  Uuid, Time, Product, CapacityRequest, RequestLine, Hold, HoldStatus, RequestStatus,
}
use cloud_resource_manager.Postgres.Logic.{kept, Keeps, Keeps-bind, Keeps-pure, Keeps-new_uuid}
use cloud_resource_manager.Redis.{Server}
use cloud_resource_manager.Deployment.{production}
use cloud_resource_manager.Service.Input.{CreateInput, ReservationPlan}
use cloud_resource_manager.Service.Reserve
use cloud_resource_manager.Service.Release
use cloud_resource_manager.Service.Lifecycle
use cloud_resource_manager.Ledger.Calls.{keeps_rules}
use cloud_resource_manager.Ledger.Invariant.{Invariant}
use cloud_resource_manager.Behaviour.Rows.{Closed, OnRequests}
use cloud_resource_manager.Behaviour.RowWrites.{
  update_hold_status-Rows, try_reserve-Rows, release_reserved-Rows, move_reserved_to_dedicated-Rows,
  release_quota-Rows, consume-Rows, list_active_holds-Rows, list_lines-Rows, confirm_request-Rows,
  mark_cancelled-Rows, mark_expired-Rows, extend_request-Rows, create_rejected-Rows,
  create_reserved-Rows,
}

module _ {F R : Type 0} (D : Doubles F) (text_le : String → String → Bool) (server : Server R)
    {Q : List CapacityRequest → Type 0} (law : Closed Q) where
  reserve_one-Rows :
      (c : String) (x : ReservationPlan)
      → Keeps (OnRequests Q) (Reserve.reserve_one (production D text_le server) c x)
  unfolding Reserve.reserve_one
  reserve_one-Rows c x = search (keeps_rules, try_reserve-Rows Q, consume-Rows Q) depth 12

  reserve_each-Rows :
      (c : String) (xs : List ReservationPlan)
      → Keeps (OnRequests Q) (Reserve.reserve_each (production D text_le server) c xs)
  unfolding Reserve.reserve_each
  reserve_each-Rows c [] = Keeps-pure tt
  reserve_each-Rows c (x ∷ xs) = Keeps-bind _ _ (reserve_one-Rows c x) (λ _. reserve_each-Rows c xs)

  build_lines-Rows :
      (id : Uuid) (xs : List ReservationPlan)
      → Keeps (OnRequests Q) (Reserve.build_lines (production D text_le server) id xs)
  unfolding Reserve.build_lines
  build_lines-Rows id [] = Keeps-pure []
  build_lines-Rows id (x ∷ xs) =
      Keeps-bind _ _ Keeps-new_uuid
        (λ l. Keeps-bind _ _ (build_lines-Rows id xs) (λ ls. Keeps-pure _))

  build_holds-Rows :
      (id : Uuid) (now : Time) (xs : List ReservationPlan)
      → Keeps (OnRequests Q) (Reserve.build_holds (production D text_le server) id now xs)
  unfolding Reserve.build_holds
  build_holds-Rows id now [] = Keeps-pure []
  build_holds-Rows id now (x ∷ xs) =
      Keeps-bind _ _ Keeps-new_uuid
        (λ l. Keeps-bind _ _ (build_holds-Rows id now xs) (λ hs. Keeps-pure _))

  store_reserved-Rows :
      (plans : List ReservationPlan) (req : CapacityRequest) (id : Uuid) (now : Time)
      → Keeps (OnRequests Q) (Reserve.store_reserved (production D text_le server) plans req id now)
  unfolding Reserve.store_reserved
  store_reserved-Rows plans req id now =
      search (keeps_rules, build_lines-Rows, build_holds-Rows, create_reserved-Rows law) depth 12

  reserve_body-Rows :
      (plans : List ReservationPlan) (product : Option Product) (i : CreateInput) (id : Uuid)
      (now expires : Time) (body_hash : String)
      → Keeps (OnRequests Q) (
          Reserve.reserve_body
            (production D text_le server)
            plans
            product
            i
            id
            now
            expires
            body_hash)
  unfolding Reserve.reserve_body
  reserve_body-Rows plans product i id now expires body_hash =
      Keeps-bind _ _ (reserve_each-Rows i.customer_id plans)
        (λ _. store_reserved-Rows plans _ id now)

  release_hold-Rows :
      (c : String) (lines : List RequestLine) (to : HoldStatus) (h : Hold)
      → Keeps (OnRequests Q) (Release.release_hold (production D text_le server) c lines to h)
  unfolding Release.release_hold
  release_hold-Rows c lines to h =
      search (keeps_rules, release_reserved-Rows Q, release_quota-Rows Q, update_hold_status-Rows Q)
        depth 12

  release_holds-Rows :
      (c : String) (lines : List RequestLine) (to : HoldStatus) (hs : List Hold)
      → Keeps (OnRequests Q) (Release.release_holds (production D text_le server) c lines to hs)
  unfolding Release.release_holds
  release_holds-Rows c lines to [] = Keeps-pure tt
  release_holds-Rows c lines to (h ∷ hs) =
      Keeps-bind _ _ (release_hold-Rows c lines to h) (λ _. release_holds-Rows c lines to hs)

  release_body-Rows :
      (r : CapacityRequest) (t : RequestStatus) (now : Time)
      → Keeps (OnRequests Q) (Release.release_body (production D text_le server) r t now)
  unfolding Release.release_body
  release_body-Rows r t now =
      search
        (
          keeps_rules,
          list_active_holds-Rows Q,
          list_lines-Rows Q,
          release_holds-Rows,
          mark_cancelled-Rows law,
          mark_expired-Rows law,
        )
        depth 16

  dedicate_hold-Rows :
      (row : Uuid) (now : Time) (h : Hold)
      → Keeps (OnRequests Q) (Lifecycle.dedicate_hold (production D text_le server) row now h)
  unfolding Lifecycle.dedicate_hold
  dedicate_hold-Rows row now h =
      search (keeps_rules, move_reserved_to_dedicated-Rows Q, update_hold_status-Rows Q) depth 12

  dedicate_holds-Rows :
      (row : Uuid) (now : Time) (hs : List Hold)
      → Keeps (OnRequests Q) (Lifecycle.dedicate_holds (production D text_le server) row now hs)
  unfolding Lifecycle.dedicate_holds
  dedicate_holds-Rows row now [] = Keeps-pure []
  dedicate_holds-Rows row now (h ∷ hs) =
      Keeps-bind _ _ (dedicate_hold-Rows row now h)
        (λ x. Keeps-bind _ _ (dedicate_holds-Rows row now hs) (λ xs. Keeps-pure (x ∷ xs)))

  confirm_body-Rows :
      (id : Uuid) (now : Time)
      → Keeps (OnRequests Q) (Lifecycle.confirm_body (production D text_le server) id now)
  unfolding Lifecycle.confirm_body
  confirm_body-Rows id now =
      search (keeps_rules, list_active_holds-Rows Q, dedicate_holds-Rows, confirm_request-Rows law)
        depth 14

  pub Rows-Invariant : Invariant D text_le server (OnRequests Q)
  Rows-Invariant = record {
    recording = create_rejected-Rows law;
    extending = extend_request-Rows law;
    reserving = λ plans product i id now expires h.
        kept _ (reserve_body-Rows plans product i id now expires h);
    releasing = λ r t now. kept _ (release_body-Rows r t now);
    confirming = λ id now. kept _ (confirm_body-Rows id now);
  }
