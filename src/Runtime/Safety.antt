-- ===== src/Runtime/Safety.antt =====
-- What holds in every world that the running program reaches.
use cloud_resource_manager.Base.{
  ◌≡◌, sym, subst, Bool, Option, none, some, List, [], ◌∷◌, String, ◌=ₛ◌, inl, inr, Bool-cases,
}
use cloud_resource_manager.Config.{Config}
use cloud_resource_manager.External.{Doubles}
use cloud_resource_manager.Domain.Types.{Uuid, RequestStatus}
use cloud_resource_manager.Postgres.Db.{Db, World}
use cloud_resource_manager.Postgres.Logic.{Keeps, Keeps-new_uuid}
use cloud_resource_manager.Redis.{Server}
use cloud_resource_manager.Deployment.{production}
use cloud_resource_manager.Service.Input.{Codecs}
use cloud_resource_manager.Service.Sweep
use cloud_resource_manager.Http.Messages.{HttpRequest, CreateBody, Wire}
use cloud_resource_manager.Http.Handler
use cloud_resource_manager.Http.Handler.{Checks, Handles}
use cloud_resource_manager.Http.Routes.{
  Route, serve, get_health, get_ready, get_products, get_capacity, post_requests, get_requests,
  get_request_by_id, post_confirm, post_cancel, post_extend,
}
use cloud_resource_manager.Http.Middleware.{middleware}
use cloud_resource_manager.Ledger.Invariant.{Invariant}
use cloud_resource_manager.Ledger.Operations
use cloud_resource_manager.Ledger.Creation
use cloud_resource_manager.Runtime.Loop.{Signal, stop, tick, run_sweeper_loop}
use cloud_resource_manager.Runtime.Steps.{Step, request, sweeper, outside, Reach, here, next}
use cloud_resource_manager.Runtime.Reading.{
  list_products-Keeps, list_requests-Keeps, get_request_rows-Keeps, list_capacity-Keeps,
}

-- The checks of readiness leave the tables.
abbrev pub Harmless : {F R : Type 0} → Checks (World F R) → Type 0
Harmless {F} {R} checks = (w : World F R) → (Handler.ready {F = F} checks w).1.db ≡ w.db

-- A handler that keeps a predicate of the tables.
abbrev Holds : {F R : Type 0} → (Db F → Type 0) → Handles F (World F R) → Type 0
Holds {F} {R} P h = (w : World F R) → P w.db → P (h w).1.db

module _ {F R : Type 0} (D : Doubles F) (text_le : String → String → Bool) (server : Server R)
    (C : Codecs F) (cfg : Config) (W : Wire) (P : Db F → Type 0) where
  with_id-Holds :
      (id : Option Uuid) (k : Uuid → Handles F (World F R))
      → ((i : Uuid) → Holds P (k i))
      → Holds P (Handler.with_id (production D text_le server) C D cfg W id k)
  with_id-Holds none k h w p = p
  with_id-Holds (some id) k h w p = h id w p

  listed-Holds :
      (c : String) (s : Option (Option RequestStatus))
      → Holds P (Handler.listed (production D text_le server) C D cfg W c s)
  listed-Holds c none w p = (list_requests-Keeps {P = P} D text_le server c none).at w p
  listed-Holds c (some none) w p = (list_requests-Keeps {P = P} D text_le server c none).at w p
  listed-Holds c (some (some s)) w p =
      (list_requests-Keeps {P = P} D text_le server c (some s)).at w p

  requests-Holds :
      (r : HttpRequest) → Holds P (Handler.list_requests (production D text_le server) C D cfg W r)
  unfolding Handler.list_requests
  requests-Holds r w p =
      let c = Handler.or_header r.customer_query r.customer_header in
      elim (Bool-cases (c =ₛ "")) [
        | inl e ↦ rw e p
        | inr e ↦ rw e (listed-Holds c (Handler.status_of_text r.status_query) w p)
      ]

  request-Holds :
      (r : HttpRequest) → Holds P (Handler.get_request (production D text_le server) C D cfg W r)
  unfolding Handler.get_request
  request-Holds r w p =
      with_id-Holds (C.uuid_parse r.id) _
        (λ i. (get_request_rows-Keeps {P = P} D text_le server i).at) w p

  products-Holds : Holds P (Handler.list_products (production D text_le server) C D cfg W)
  unfolding Handler.list_products
  products-Holds w p = (list_products-Keeps {P = P} D text_le server).at w p

  capacity-Holds :
      (r : HttpRequest) → Holds P (Handler.list_capacity (production D text_le server) C D cfg W r)
  unfolding Handler.list_capacity
  capacity-Holds r w p =
      (list_capacity-Keeps {P = P} D text_le server C cfg
          (Handler.or_header r.customer_query r.customer_header)).at
        w p

  -- The routes that only read keep any predicate of the tables.
  pub reads-Holds :
      (checks : Checks (World F R)) (r : HttpRequest) (w : World F R)
      → P w.db
      → P (serve (production D text_le server) C D cfg W checks get_products r w).1.db
        × P (serve (production D text_le server) C D cfg W checks get_capacity r w).1.db
        × P (serve (production D text_le server) C D cfg W checks get_requests r w).1.db
        × P (serve (production D text_le server) C D cfg W checks get_request_by_id r w).1.db
  unfolding serve
  reads-Holds checks r w p =
      (products-Holds w p, capacity-Holds r w p, requests-Holds r w p, request-Holds r w p)

module _ {F R : Type 0} (D : Doubles F) (text_le : String → String → Bool) (server : Server R)
    (C : Codecs F) (cfg : Config) (W : Wire) {P : Db F → Type 0}
    (v : Invariant D text_le server P) where
  decoded-Holds :
      (r : HttpRequest) (b : Option CreateBody)
      → Holds P (Handler.create_decoded (production D text_le server) C D cfg W r b)
  decoded-Holds r none w p = p
  decoded-Holds r (some b) w p =
      (Creation.create_request-Invariant D text_le server C cfg v
          (Handler.create_input (production D text_le server) C D cfg W r b)).at
        w p

  serve-Holds :
      (checks : Checks (World F R))
      → Harmless checks
      → (route : Route) (r : HttpRequest)
      → Holds P (serve (production D text_le server) C D cfg W checks route r)
  unfolding serve Handler.health Handler.create_request Handler.confirm Handler.cancel
      Handler.extend
  serve-Holds checks h get_health r w p = p
  serve-Holds checks h get_ready r w p = subst P (sym (h w)) p
  serve-Holds checks h get_products r w p = products-Holds D text_le server C cfg W P w p
  serve-Holds checks h get_capacity r w p = capacity-Holds D text_le server C cfg W P r w p
  serve-Holds checks h get_requests r w p = requests-Holds D text_le server C cfg W P r w p
  serve-Holds checks h get_request_by_id r w p = request-Holds D text_le server C cfg W P r w p
  serve-Holds checks h post_requests r w p = elim (Bool-cases (r.idempotency_key =ₛ "")) [
    | inl e ↦ rw e p
    | inr e ↦ rw e (decoded-Holds r (W.decode_body r.body) w p)
  ]
  serve-Holds checks h post_confirm r w p =
      with_id-Holds D text_le server C cfg W P (C.uuid_parse r.id) _
        (λ i. (Operations.confirm-Invariant D text_le server C cfg v i).at) w p
  serve-Holds checks h post_cancel r w p =
      with_id-Holds D text_le server C cfg W P (C.uuid_parse r.id) _
        (λ i. (Operations.cancel-Invariant D text_le server C cfg v i).at) w p
  serve-Holds checks h post_extend r w p =
      with_id-Holds D text_le server C cfg W P (C.uuid_parse r.id) _
        (λ i. (Operations.extend-Invariant D text_le server C cfg v i).at) w p

  middleware-Holds :
      (h : HttpRequest → Handles F (World F R)) (r : HttpRequest)
      → Holds P (h r)
      → (w : World F R) → P w.db
      → P (middleware (production D text_le server) C h r w).1.db
  unfolding middleware
  middleware-Holds h r k w p = elim (Bool-cases (r.request_id =ₛ "")) [
    | inl e ↦ rw e (k _ (Keeps.at (Keeps-new_uuid {P = P}) w p))
    | inr e ↦ rw e (k w p)
  ]

  loop-Holds :
      (signals : List Signal) (w : World F R)
      → P w.db
      → P (run_sweeper_loop (production D text_le server) signals w).db
  unfolding run_sweeper_loop
  loop-Holds [] w p = p
  loop-Holds (stop ∷ signals) w p = p
  loop-Holds (tick ∷ signals) w p =
      loop-Holds signals (Sweep.expire_due (production D text_le server) w).1
        ((Operations.expire_due-Invariant D text_le server C cfg v).at w p)

module _ {F R : Type 0} (D : Doubles F) (text_le : String → String → Bool) (server : Server R)
    (C : Codecs F) (cfg : Config) (W : Wire) (checks : Checks (World F R))
    (harmless : Harmless checks) {P : Db F → Type 0} (v : Invariant D text_le server P) where
  Step-Invariant : {w w' : World F R} → Step D text_le server C cfg W checks w w' → P w.db → P w'.db
  Step-Invariant (request w route r) p =
      middleware-Holds D text_le server C cfg W v
        (serve (production D text_le server) C D cfg W checks route) r
        (serve-Holds D text_le server C cfg W v checks harmless route r) w p
  Step-Invariant (sweeper w signals) p = loop-Holds D text_le server C cfg W v signals w p
  Step-Invariant (outside w w' same) p = subst P (sym same) p

  -- An invariant of the operations holds in every world that is reached from one where it holds.
  pub Reach-Invariant :
      {w w' : World F R} → Reach D text_le server C cfg W checks w w' → P w.db → P w'.db
  Reach-Invariant here p = p
  Reach-Invariant (next r s) p = Step-Invariant s (Reach-Invariant r p)
