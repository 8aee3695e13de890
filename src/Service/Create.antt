-- ===== src/Service/Create.antt =====
-- internal/service/capacity.go: CreateRequest and the steps that it takes outside the transaction.
use cloud_resource_manager.Base.{
  Bool, ◌&&◌, not, Option, none, some, List, [], ◌∷◌, String, ◌=ₛ◌, if◌then◌else◌,
}
use cloud_resource_manager.Base.Int.{ℤ, pos, ◌+ℤ◌, ◌*ℤ◌, leb_ℤ}
use cloud_resource_manager.Base.Action.{Result, ok, err, pure, fail, fail_if, lift, ◌>>=◌, ◌>>◌}
use cloud_resource_manager.Config.{Config}
use cloud_resource_manager.Domain.Types.{
  Uuid, Time, Product, CapacityRequest, RequestEvent, Reason, status_rejected, event_rejected,
  missing_idempotency, conflict, too_many_active_holds, idempotency_key_reused,
}
use cloud_resource_manager.Domain.Errors.{
  Error, Rejection, new_app_error, is_duplicate, text, number,
}
use cloud_resource_manager.Ports.{M, Ports, reservation_attempts, reservation_rejects}
use cloud_resource_manager.Service.Input.{CreateInput, ReservationPlan, Codecs, capacity_cache_key}
use cloud_resource_manager.Service.Validate.{
  validate_create_input, compute_body_hash, resolved_quantity,
}
use cloud_resource_manager.Service.Plan.{build_reservation_plan}
use cloud_resource_manager.Service.Reserve.{
  Outcome, reserved, refused, product_ref, build_lines, reserve_within_tx,
}
use Prim.Native.String.{◌++◌}

-- `_ = f(…)` and `v, ok, _ := f(…)`: the error is dropped.
abbrev pub ignored : {S : Type 0} → M S (Unit {0}) → M S (Unit {0})
ignored m s = (ok tt, (m s).1)

abbrev pub or_missing : {A : Type 0} → Result Error (Option A) → Result Error (Option A)
or_missing (ok v) = ok v
or_missing (err e) = ok none

abbrev pub missing_if_failed : {S A : Type 0} → M S (Option A) → M S (Option A)
missing_if_failed m s = (or_missing (m s).0, (m s).1)

abbrev pub rejected_request :
    Uuid → Option Product → CreateInput → Time → String → Rejection → CapacityRequest
rejected_request req_id product i now body_hash rej = record {
  id = req_id;
  customer_id = i.customer_id;
  idempotency_key = i.idempotency_key;
  body_hash = body_hash;
  product_id = product_ref product;
  quantity = resolved_quantity i;
  status = status_rejected;
  reject_reason = some rej.reason;
  expires_at = none;
  extension_count = pos 0;
  correlation_id = i.correlation_id;
  created_at = now;
  updated_at = now;
}

abbrev pub with_details : String → Option String → String
with_details message none = message
with_details message (some b) = message ++ ": " ++ b

abbrev pub key_reused : {F : Type 0} → Codecs F → CapacityRequest → Error
key_reused C r =
    new_app_error idempotency_key_reused "idempotency key reused with different body"
      (some (("request_id", text (C.uuid_text r.id)) ∷ []))

-- `existing.BodyHash != "" && existing.BodyHash != bodyHash`.
abbrev pub other_body : CapacityRequest → String → Bool
other_body r body_hash = not (r.body_hash =ₛ "") && not (r.body_hash =ₛ body_hash)

unfoldable pub match_idempotent_body :
    {F : Type 0} → Codecs F → CapacityRequest → String → Result Error CapacityRequest
match_idempotent_body C r body_hash = if other_body r body_hash then err (key_reused C r) else ok r

module _ {F S : Type 0} (P : Ports F S) (C : Codecs F) (cfg : Config) where
  unfoldable pub remember : CreateInput → Uuid → M S (Unit {0})
  remember i id =
      ignored (
        P.set_idempotent i.customer_id i.idempotency_key (C.uuid_text id)
          (cfg.reserve_ttl *ℤ pos 2))

  -- The lookup by the unique key, which also fills the fast path.
  abbrev pub matched : CreateInput → String → Option CapacityRequest → M S (Option CapacityRequest)
  matched i body_hash none = pure none
  matched i body_hash (some r) = do
    m ← lift (match_idempotent_body C r body_hash)
    remember i r.id
    pure (some m)

  unfoldable pub check_by_key : CreateInput → String → M S (Option CapacityRequest)
  unfolding match_idempotent_body remember
  check_by_key i body_hash = do
    existing ← P.find_by_idempotency i.customer_id i.idempotency_key
    matched i body_hash existing

  abbrev pub by_id : CreateInput → String → Option CapacityRequest → M S (Option CapacityRequest)
  by_id i body_hash none = check_by_key i body_hash
  by_id i body_hash (some r) = do m ← lift (match_idempotent_body C r body_hash); pure (some m)

  abbrev pub parsed : CreateInput → String → Option Uuid → M S (Option CapacityRequest)
  parsed i body_hash none = check_by_key i body_hash
  parsed i body_hash (some id) = do existing ← P.get_request id; by_id i body_hash existing

  abbrev pub cached : CreateInput → String → Option String → M S (Option CapacityRequest)
  cached i body_hash none = check_by_key i body_hash
  cached i body_hash (some id) = parsed i body_hash (C.uuid_parse id)

  unfoldable pub check_idempotent_replay : CreateInput → String → M S (Option CapacityRequest)
  unfolding check_by_key match_idempotent_body
  check_idempotent_replay i body_hash = do
    id ← missing_if_failed (P.get_idempotent i.customer_id i.idempotency_key)
    cached i body_hash id

  abbrev pub replayed : String → Option CapacityRequest → Result Error CapacityRequest
  replayed body_hash none =
      err (new_app_error conflict "duplicate key race but request not found" none)
  replayed body_hash (some r) = match_idempotent_body C r body_hash

  unfoldable pub replay_after_duplicate : CreateInput → String → M S CapacityRequest
  unfolding match_idempotent_body
  replay_after_duplicate i body_hash = do
    existing ← P.find_by_idempotency i.customer_id i.idempotency_key
    lift (replayed body_hash existing)

  abbrev pub too_many : CreateInput → ℤ → Error
  too_many i n = new_app_error too_many_active_holds "too many active holds for customer" (
      some (
        ("customer_id", text i.customer_id)
        ∷ ("active", number n)
        ∷ ("limit", number cfg.max_active_holds_per_customer)
        ∷ []))

  unfoldable pub enforce_active_holds_limit : CreateInput → M S (Unit {0})
  enforce_active_holds_limit i =
      if leb_ℤ cfg.max_active_holds_per_customer (pos 0) then pure tt else do
        n ← P.count_active_holds i.customer_id
        fail_if (leb_ℤ cfg.max_active_holds_per_customer n) (too_many i n)

  -- `errors.Is(err, domain.ErrDuplicateRequest)` behind a write that failed.
  unfoldable pub on_error : CreateInput → String → Error → M S CapacityRequest
  unfolding replay_after_duplicate
  on_error i body_hash e = if is_duplicate e then replay_after_duplicate i body_hash else fail e

  abbrev pub stored_or_replayed :
      CreateInput → String → CapacityRequest → Result Error (Unit {0}) → M S CapacityRequest
  stored_or_replayed i body_hash req (ok _) = pure req
  stored_or_replayed i body_hash req (err e) = on_error i body_hash e

  -- The insert of the rejected request is in no transaction: each statement stands for itself.
  unfoldable pub persist_rejected :
      CreateInput
      → Uuid
      → Time
      → List ReservationPlan
      → Option Product
      → Rejection
      → String
      → M S CapacityRequest
  unfolding build_lines resolved_quantity on_error
  persist_rejected i req_id now plans product rej body_hash = do
    ls ← build_lines P req_id plans
    ev_id ← P.new_uuid
    let req = rejected_request req_id product i now body_hash rej
    let ev : RequestEvent = record {
      id = ev_id;
      request_id = req_id;
      event_type = event_rejected;
      reason = with_details rej.message (C.marshal_details rej.details);
      at = now;
    }
    λ s. let (r, s') = P.create_rejected req ls ev s in stored_or_replayed i body_hash req r s'

  abbrev pub count_reject : Option Reason → String → M S (Unit {0})
  count_reject none result = pure tt
  count_reject (some r) result =
      if result =ₛ "rejected" then P.count (reservation_rejects r) else pure tt

  unfoldable pub record_outcome : CreateInput → CapacityRequest → String → M S (Unit {0})
  unfolding remember
  record_outcome i req result = do
    P.count (reservation_attempts result)
    count_reject req.reject_reason result
    remember i req.id
    ignored (P.invalidate_capacity capacity_cache_key)
    ignored (P.invalidate_capacity ("cust:" ++ i.customer_id))

  unfoldable pub finish_create :
      CreateInput
      → Uuid
      → Time
      → List ReservationPlan
      → Option Product
      → String
      → Result Error Outcome
      → M S CapacityRequest
  unfolding record_outcome persist_rejected on_error
  finish_create i req_id now plans product body_hash (err e) = on_error i body_hash e
  finish_create i req_id now plans product body_hash (ok (refused rej)) = do
    req ← persist_rejected i req_id now plans product rej body_hash
    record_outcome i req "rejected"
    pure req
  finish_create i req_id now plans product body_hash (ok (reserved req)) = do
    record_outcome i req "reserved"
    pure req

  abbrev pub attempt :
      List ReservationPlan
      → Option Product
      → CreateInput
      → Uuid
      → Time
      → Time
      → String
      → M S CapacityRequest
  attempt plans product i req_id now expires body_hash s =
      let (r, s') = reserve_within_tx P plans product i req_id now expires body_hash s in
      finish_create i req_id now plans product body_hash r s'

  -- The steps of CreateRequest behind the replay check.
  unfoldable pub create_fresh : CreateInput → String → M S CapacityRequest
  unfolding enforce_active_holds_limit build_reservation_plan reserve_within_tx finish_create
  create_fresh i body_hash = do
    enforce_active_holds_limit i
    planned ← build_reservation_plan P i
    now ← P.now
    req_id ← P.new_uuid
    attempt planned.0 planned.1 i req_id now (now +ℤ cfg.reserve_ttl) body_hash

  abbrev pub or_create : CreateInput → String → Option CapacityRequest → M S CapacityRequest
  or_create i body_hash none = create_fresh i body_hash
  or_create i body_hash (some r) = pure r

  -- `if in.CorrelationID == "" { in.CorrelationID = uuid.NewString() }`.
  abbrev pub correlated : CreateInput → M S CreateInput
  correlated i =
      if i.correlation_id =ₛ ""
      then (do id ← P.new_uuid; pure (record i { correlation_id = C.uuid_text id }))
      else pure i

  unfoldable pub create_request : CreateInput → M S CapacityRequest
  unfolding validate_create_input compute_body_hash check_idempotent_replay create_fresh
  create_request i =
      if i.idempotency_key =ₛ ""
      then fail (new_app_error missing_idempotency "Idempotency-Key is required" none)
      else (if i.customer_id =ₛ ""
          then fail (new_app_error conflict "customer_id is required" none)
          else do
            lift (validate_create_input i)
            i' ← correlated i
            existing ← check_idempotent_replay i' (compute_body_hash C i')
            or_create i' (compute_body_hash C i') existing)
