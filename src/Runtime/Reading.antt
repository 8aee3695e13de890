-- ===== src/Runtime/Reading.antt =====
-- internal/service/capacity.go: the operations that read keep any predicate of the tables.
use cloud_resource_manager.Base.{Bool, Option, none, some, List, [], ◌∷◌, String}
use cloud_resource_manager.Config.{Config}
use cloud_resource_manager.External.{Doubles}
use cloud_resource_manager.Domain.Types.{
  Uuid, ResourcePool, CustomerQuota, CapacityRequest, RequestStatus,
}
use cloud_resource_manager.Postgres.Db.{Db}
use cloud_resource_manager.Postgres.Pools
use cloud_resource_manager.Postgres.Quotas
use cloud_resource_manager.Postgres.Products
use cloud_resource_manager.Postgres.Requests
use cloud_resource_manager.Postgres.Logic.{
  Keeps, Keeps-bind, Keeps-pure, Keeps-fail, Keeps-query, Keeps-count,
}
use cloud_resource_manager.Redis.{Server}
use cloud_resource_manager.Deployment.{production}
use cloud_resource_manager.Service.Input.{Codecs, CapacityView}
use cloud_resource_manager.Service.Read
use cloud_resource_manager.Ledger.Calls.{keeps_rules, get_request-Keeps}

module _ {F R : Type 0} {P : Db F → Type 0} (text_le : String → String → Bool) where
  list_pools-Keeps : Keeps {R = R} P (Pools.list_pools text_le)
  unfolding Pools.list_pools
  list_pools-Keeps = Keeps-query _ _

  list_quotas-Keeps : (c : String) → Keeps {R = R} P (Quotas.list_quotas text_le c)
  unfolding Quotas.list_quotas
  list_quotas-Keeps c = Keeps-query _ _

  products-Keeps : Keeps {R = R} P (Products.list_products text_le)
  unfolding Products.list_products
  products-Keeps = Keeps-query _ _

module _ {F R : Type 0} {P : Db F → Type 0} where
  lines-Keeps : (id : Uuid) → Keeps {R = R} P (Requests.list_lines id)
  unfolding Requests.list_lines
  lines-Keeps id = Keeps-query _ _

  events-Keeps : (id : Uuid) → Keeps {R = R} P (Requests.list_events id)
  unfolding Requests.list_events
  events-Keeps id = Keeps-query _ _

  by_customer-Keeps :
      (c : String) (s : Option RequestStatus) → Keeps {R = R} P (Requests.list_by_customer c s)
  unfolding Requests.list_by_customer
  by_customer-Keeps c s = Keeps-query _ _

module _ {F R : Type 0} {P : Db F → Type 0} (D : Doubles F) (text_le : String → String → Bool)
    (server : Server R) where
  pub list_products-Keeps : Keeps P (Read.list_products (production D text_le server))
  unfolding Read.list_products
  list_products-Keeps = products-Keeps text_le

  pub list_requests-Keeps :
      (c : String) (s : Option RequestStatus)
      → Keeps P (Read.list_requests (production D text_le server) c s)
  unfolding Read.list_requests
  list_requests-Keeps c s = by_customer-Keeps c s

  with_rows-Keeps :
      (id : Uuid) (found : Option CapacityRequest)
      → Keeps P (Read.with_rows (production D text_le server) id found)
  with_rows-Keeps id none = Keeps-fail _
  with_rows-Keeps id (some r) = search (keeps_rules, lines-Keeps, events-Keeps) depth 10

  pub get_request_rows-Keeps :
      (id : Uuid) → Keeps P (Read.get_request (production D text_le server) id)
  unfolding Read.get_request
  get_request_rows-Keeps id = Keeps-bind _ _ (get_request-Keeps id) (with_rows-Keeps id)

  module _ (C : Codecs F) (cfg : Config) where
    view_pools-Keeps :
        (qs : List CustomerQuota) (ps : List (ResourcePool F))
        → Keeps P (Read.view_pools (production D text_le server) C D cfg qs ps)
    unfolding Read.view_pools
    view_pools-Keeps qs [] = Keeps-pure []
    view_pools-Keeps qs (p ∷ ps) =
        Keeps-bind _ _ (Keeps-count _)
          (λ _. Keeps-bind _ _ (view_pools-Keeps qs ps) (λ vs. Keeps-pure _))

    store_views-Keeps :
        (key : String) (vs : List (CapacityView F)) (b : Option String)
        → Keeps P (Read.store_views (production D text_le server) C D cfg key vs b)
    store_views-Keeps key vs none = Keeps-pure tt
    store_views-Keeps key vs (some b) = search keeps_rules depth 6

    compute_views-Keeps :
        (c : String) → Keeps P (Read.compute_views (production D text_le server) C D cfg c)
    unfolding Read.compute_views
    compute_views-Keeps c =
        search
          (keeps_rules, list_pools-Keeps, list_quotas-Keeps, view_pools-Keeps, store_views-Keeps)
          depth 14

    decoded-Keeps :
        (c : String) (vs : Option (List (CapacityView F)))
        → Keeps P (Read.decoded (production D text_le server) C D cfg c vs)
    decoded-Keeps c none = compute_views-Keeps c
    decoded-Keeps c (some vs) = Keeps-pure vs

    from_cache-Keeps :
        (c : String) (b : Option String)
        → Keeps P (Read.from_cache (production D text_le server) C D cfg c b)
    from_cache-Keeps c none = compute_views-Keeps c
    from_cache-Keeps c (some b) = decoded-Keeps c (C.unmarshal_views b)

    pub list_capacity-Keeps :
        (c : String) → Keeps P (Read.list_capacity (production D text_le server) C D cfg c)
    unfolding Read.list_capacity
    list_capacity-Keeps c = search (keeps_rules, from_cache-Keeps) depth 10
