-- ===== src/Behaviour/Recorded/Replaying.antt =====
-- internal/service/capacity.go: what checkIdempotentReplay hands out is a row, and CreateRequest with it.
use cloud_resource_manager.Base.{Bool, ◌≡◌, Option, none, some, String, ◌=ₛ◌, subst}
use cloud_resource_manager.Base.Action.{ok, lift}
use cloud_resource_manager.Config.{Config}
use cloud_resource_manager.External.{Doubles}
use cloud_resource_manager.Domain.Types.{Uuid, CapacityRequest}
use cloud_resource_manager.Postgres.Db.{World}
use cloud_resource_manager.Postgres.Logic.{
  kept, Post, Ensures, Ensures-bind, Ensures-pure, Ensures-fail, Ensures-lift,
}
use cloud_resource_manager.Redis.{Server}
use cloud_resource_manager.Deployment.{production}
use cloud_resource_manager.Service.Input.{CreateInput, Codecs}
use cloud_resource_manager.Service.Validate
use cloud_resource_manager.Service.Create
use cloud_resource_manager.Ledger.Recording.{remember-Keeps}
use cloud_resource_manager.Behaviour.Recorded.{
  Anything, IsRow, Found, Recorded, after, Ensures-if, find_by_idempotency-Found, get_request-Found,
}
use cloud_resource_manager.Behaviour.Recorded.Creating.{match-IsRow, create_fresh-IsRow}

module _ {F R : Type 0} (D : Doubles F) (text_le : String → String → Bool) (server : Server R)
    (C : Codecs F) (cfg : Config) where
  matched-Found :
      (i : CreateInput) (h : String) (found : Option CapacityRequest)
      → Ensures (Found found) (Create.matched (production D text_le server) C cfg i h found) Found
  matched-Found i h none = Ensures-pure none (λ d p. tt)
  matched-Found i h (some r) =
      Ensures-bind IsRow (lift (Create.match_idempotent_body C r h)) _
        (Ensures-lift _ (match-IsRow D text_le server C cfg r h))
        (λ m.
          Ensures-bind {A = Unit {0}} (λ _. IsRow m) _ _
            (kept _ (remember-Keeps D text_le server C cfg i r.id))
            (λ _. Ensures-pure (some m) (λ d p. p)))

  check_by_key-Found :
      (i : CreateInput) (h : String)
      → Ensures Anything (Create.check_by_key (production D text_le server) C cfg i h) Found
  unfolding Create.check_by_key
  check_by_key-Found i h =
      Ensures-bind Found _ _ (find_by_idempotency-Found _ _) (λ found. matched-Found i h found)

  by_id-Found :
      (i : CreateInput) (h : String) (found : Option CapacityRequest)
      → Ensures (Found found) (Create.by_id (production D text_le server) C cfg i h found) Found
  by_id-Found i h none = check_by_key-Found i h
  by_id-Found i h (some r) =
      Ensures-bind IsRow (lift (Create.match_idempotent_body C r h)) _
        (Ensures-lift _ (match-IsRow D text_le server C cfg r h))
        (λ m. Ensures-pure (some m) (λ d p. p))

  parsed-Found :
      (i : CreateInput) (h : String) (id : Option Uuid)
      → Ensures Anything (Create.parsed (production D text_le server) C cfg i h id) Found
  parsed-Found i h none = check_by_key-Found i h
  parsed-Found i h (some id) = Ensures-bind Found _ _ (get_request-Found id) (by_id-Found i h)

  cached-Found :
      (i : CreateInput) (h : String) (id : Option String)
      → Ensures Anything (Create.cached (production D text_le server) C cfg i h id) Found
  cached-Found i h none = check_by_key-Found i h
  cached-Found i h (some id) = parsed-Found i h (C.uuid_parse id)

  check_idempotent_replay-Found :
      (i : CreateInput) (h : String)
      → Ensures Anything
          (Create.check_idempotent_replay (production D text_le server) C cfg i h)
          Found
  unfolding Create.check_idempotent_replay
  check_idempotent_replay-Found i h =
      after
        (Create.missing_if_failed
          ((production D text_le server).get_idempotent i.customer_id i.idempotency_key))
        _ (cached-Found i h)

  or_create-IsRow :
      (i : CreateInput) (h : String) (found : Option CapacityRequest)
      → Ensures (Found found) (Create.or_create (production D text_le server) C cfg i h found) IsRow
  or_create-IsRow i h none = create_fresh-IsRow D text_le server C cfg i h
  or_create-IsRow i h (some r) = Ensures-pure r (λ d p. p)

  create_request-IsRow :
      (i : CreateInput)
      → Ensures Anything (Create.create_request (production D text_le server) C cfg i) IsRow
  unfolding Create.create_request
  create_request-IsRow i = Ensures-if (i.idempotency_key =ₛ "") _ _ (Ensures-fail _) (
      Ensures-if (i.customer_id =ₛ "") _ _ (Ensures-fail _) (
        after {A = Unit {0}} (lift (Validate.validate_create_input i)) _ (λ _.
          after (Create.correlated (production D text_le server) C cfg i) _ (λ i'.
            Ensures-bind Found _ _
              (check_idempotent_replay-Found i' (Validate.compute_body_hash C i'))
              (or_create-IsRow i' (Validate.compute_body_hash C i'))))))

-- Whatever the tables, the caches and the faults are, a request that CreateRequest returns, newly
-- reserved, newly rejected or replayed, is then in the table of requests: some row has its id, its
-- customer and key, its body's hash and its status.
pub create_request-Recorded :
    {F R : Type 0} (D : Doubles F) (text_le : String → String → Bool) (server : Server R)
    (C : Codecs F) (cfg : Config) (i : CreateInput) (w : World F R) (r : CapacityRequest)
    → (Create.create_request (production D text_le server) C cfg i w).0 ≡ ok r
    → Recorded r (Create.create_request (production D text_le server) C cfg i w).1.db.requests
create_request-Recorded D text_le server C cfg i w r e =
    let result = Create.create_request (production D text_le server) C cfg i w in
    subst (λ x. Post IsRow x result.1.db) e
      ((create_request-IsRow D text_le server C cfg i).at w tt)
