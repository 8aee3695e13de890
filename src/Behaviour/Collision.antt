-- ===== src/Behaviour/Collision.antt =====
-- internal/repository/redisx/redis.go, idemKey, and internal/service/capacity.go,
-- checkIdempotentReplay: two customers whose keys have one text.
use cloud_resource_manager.Base.{Bool, false, ◌≡◌, refl, sym, ◌∙◌, ap, some, String, ◌=ₛ◌, ◌==◌}
use cloud_resource_manager.Base.Action.{ok}
use cloud_resource_manager.Base.Table.{find}
use cloud_resource_manager.Config.{Config}
use cloud_resource_manager.External.{Doubles}
use cloud_resource_manager.Domain.Types.{Uuid, CapacityRequest}
use cloud_resource_manager.Postgres.Db.{World, query, next_fault}
use cloud_resource_manager.Postgres.Requests.{get_request}
use cloud_resource_manager.Redis.{Server, idem_key, get_idempotent, degrading_get_idempotent}
use cloud_resource_manager.Deployment.{production, on_redis}
use cloud_resource_manager.Service.Input.{CreateInput, Codecs}
use cloud_resource_manager.Service.Validate.{validate_create_input, compute_body_hash}
use cloud_resource_manager.Service.Create.{
  match_idempotent_body, check_idempotent_replay, create_request,
}
use Prim.Native.String.{◌++◌}
use text.Mathlib.TextLemmas.{append_assoc}

module _ {R : Type 0} (server : Server R) where
  -- The colon between a customer and a key may also stand inside either.
  idem_key-shift :
      (c x k : String) → idem_key server (c ++ (":" ++ x)) k ≡ idem_key server c (x ++ (":" ++ k))
  unfolding idem_key
  idem_key-shift c x k =
      ap (λ (s : String). "idempotency:" ++ s)
        (append_assoc c (":" ++ x) (":" ++ k)
          ∙ ap (λ (s : String). c ++ s) (append_assoc ":" x (":" ++ k)))

  get-shift :
      (c x k : String) (r : R)
      → get_idempotent server (c ++ (":" ++ x)) k r ≡ get_idempotent server c (x ++ (":" ++ k)) r
  unfolding get_idempotent
  get-shift c x k r = ap (λ s. server.get s r) (idem_key-shift c x k)

module _ {F R : Type 0} (D : Doubles F) (text_le : String → String → Bool) (server : Server R)
    (C : Codecs F) (cfg : Config) where
  replays_cached :
      (i : CreateInput) (r : CapacityRequest) (id : Uuid) (t : String) (w : World F R)
      → (i.idempotency_key =ₛ "") ≡ false
      → (i.customer_id =ₛ "") ≡ false
      → (i.correlation_id =ₛ "") ≡ false
      → validate_create_input i ≡ ok tt
      → (get_idempotent server i.customer_id i.idempotency_key w.redis).0 ≡ ok (some t)
      → C.uuid_parse t ≡ some id
      → next_fault w.faults ≡ false
      → find (λ x. x.id == id) w.db.requests ≡ some r
      → match_idempotent_body C r (compute_body_hash C i) ≡ ok r
      → (create_request (production D text_le server) C cfg i w).0 ≡ ok r
  unfolding create_request check_idempotent_replay get_request query on_redis
      degrading_get_idempotent
  replays_cached i r id t w k c o v g p n f m = rw (k, c, o, v, g, p, n, f, m) refl

  -- A customer `c` with the key `x:k` is given the request of the customer `c:x` with the key `k`:
  -- where Redis knows that other customer's key, the table has the request of the id that it names,
  -- whoever's it is, the bodies match, the input is valid with a correlation id, and the read does
  -- not fail.
  pub create_request-collides :
      (i : CreateInput) (r : CapacityRequest) (id : Uuid) (t x k : String) (w : World F R)
      → i.idempotency_key ≡ x ++ (":" ++ k)
      → (i.idempotency_key =ₛ "") ≡ false
      → (i.customer_id =ₛ "") ≡ false
      → (i.correlation_id =ₛ "") ≡ false
      → validate_create_input i ≡ ok tt
      → (get_idempotent server (i.customer_id ++ (":" ++ x)) k w.redis).0 ≡ ok (some t)
      → C.uuid_parse t ≡ some id
      → next_fault w.faults ≡ false
      → find (λ y. y.id == id) w.db.requests ≡ some r
      → match_idempotent_body C r (compute_body_hash C i) ≡ ok r
      → (create_request (production D text_le server) C cfg i w).0 ≡ ok r
  create_request-collides i r id t x k w same e c o v g p n f m =
      replays_cached i r id t w e c o v
        (ap (λ s. (get_idempotent server i.customer_id s w.redis).0) same
          ∙ sym (ap (λ a. a.0) (get-shift server i.customer_id x k w.redis))
          ∙ g)
        p n f m
