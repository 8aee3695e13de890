-- ===== src/Ledger/Invariant.antt =====
-- What a predicate on the tables must do to hold through the operations of the service: survive the
-- calls that write neither pools nor holds, and the three transactions that do.
use cloud_resource_manager.Base.{String, Bool, Option, List}
use cloud_resource_manager.External.{Doubles}
use cloud_resource_manager.Base.Int.{ℤ}
use cloud_resource_manager.Postgres.Requests.{create_rejected, extend_request}
use cloud_resource_manager.Domain.Types.{
  RequestLine, RequestEvent, Uuid, Time, Product, CapacityRequest, RequestStatus,
}
use cloud_resource_manager.Postgres.Db.{Db}
use cloud_resource_manager.Postgres.Logic.{Ensures, Keeps}
use cloud_resource_manager.Redis.{Server}
use cloud_resource_manager.Deployment.{production}
use cloud_resource_manager.Service.Input.{CreateInput, ReservationPlan}
use cloud_resource_manager.Service.Reserve.{reserve_body}
use cloud_resource_manager.Service.Release.{release_body}
use cloud_resource_manager.Service.Lifecycle.{confirm_body}
use cloud_resource_manager.Ledger.Quiet.{
  create_rejected-Quiet, extend_request-Quiet, Keeps-Quiet-Ledger,
}
use cloud_resource_manager.Ledger.Sums.{Balanced, nothing}
use cloud_resource_manager.Ledger.Reserve.{reserve_body-Balanced}
use cloud_resource_manager.Ledger.Release.{release_body-Balanced, confirm_body-Balanced}

pub record Invariant {F R : Type 0} (D : Doubles F) (text_le : String → String → Bool)
    (server : Server R) (P : Db F → Type 0) : Type 1 where
  pub recording :
      (req : CapacityRequest) (ls : List RequestLine) (ev : RequestEvent)
      → Keeps {R = R} P (create_rejected req ls ev)
  pub extending :
      (id : Uuid) (t : Time) (n : ℤ) (ev : RequestEvent)
      → Keeps {R = R} P (extend_request id t n ev)
  pub reserving :
      (plans : List ReservationPlan) (product : Option Product) (i : CreateInput) (req_id : Uuid)
      (now expires : Time) (body_hash : String)
      → Ensures P
          (reserve_body (production D text_le server) plans product i req_id now expires body_hash)
          (λ _. P)
  pub releasing :
      (req : CapacityRequest) (terminal : RequestStatus) (now : Time)
      → Ensures P (release_body (production D text_le server) req terminal now) (λ _. P)
  pub confirming :
      (id : Uuid) (now : Time)
      → Ensures P (confirm_body (production D text_le server) id now) (λ _. P)

pub Balanced-Invariant :
    {F R : Type 0} (D : Doubles F) (text_le : String → String → Bool) (server : Server R)
    → Invariant D text_le server Balanced
Balanced-Invariant D text_le server = record {
  recording = λ r ls e. Keeps-Quiet-Ledger nothing _ (create_rejected-Quiet r ls e);
  extending = λ id t n e. Keeps-Quiet-Ledger nothing _ (extend_request-Quiet id t n e);
  reserving = reserve_body-Balanced D text_le server;
  releasing = release_body-Balanced D text_le server;
  confirming = confirm_body-Balanced D text_le server;
}
