-- ===== src/Service/Read.antt =====
-- internal/service/capacity.go: ListCapacity, ListProducts, GetRequest and ListRequests.
use cloud_resource_manager.Base.{Option, none, some, List, [], ◌∷◌, String, ◌=ₛ◌, if◌then◌else◌}
use cloud_resource_manager.Base.Int.{ℤ, ltb_ℤ}
use cloud_resource_manager.Base.Action.{pure, fail, ◌>>=◌, ◌>>◌}
use cloud_resource_manager.Config.{Config}
use cloud_resource_manager.External.{Doubles}
use cloud_resource_manager.Domain.Types.{
  Uuid, ResourcePool, Product, CustomerQuota, CapacityRequest, RequestLine, RequestEvent,
  RequestStatus,
}
use cloud_resource_manager.Domain.Rules.{available, available_ratio, remaining}
use cloud_resource_manager.Ports.{M, Ports, pool_available_ratio}
use cloud_resource_manager.Service.Input.{CapacityView, Codecs, capacity_cache_key}
use cloud_resource_manager.Service.Create.{ignored, missing_if_failed}
use cloud_resource_manager.Service.Lifecycle.{request_not_found}
use Prim.Native.String.{◌++◌}

-- `quotasByKind[kind]`, where a later quota overwrites an earlier one.
abbrev pub quota_by_kind : Option CustomerQuota → List CustomerQuota → String → Option CustomerQuota
quota_by_kind last [] kind = last
quota_by_kind last (q ∷ qs) kind =
    quota_by_kind (if q.resource_kind =ₛ kind then some q else last) qs kind

abbrev pub cache_key : String → String
cache_key customer_id = if customer_id =ₛ "" then capacity_cache_key else "cust:" ++ customer_id

abbrev pub smaller : ℤ → ℤ → ℤ
smaller rem avail = if ltb_ℤ rem avail then rem else avail

module _ {F : Type 0} (D : Doubles F) where
  unfoldable pub view_of : Option CustomerQuota → ResourcePool F → CapacityView F
  unfolding available remaining
  view_of none p = record { pool = p; available = available D p; customer_remaining = none }
  view_of (some q) p = record {
    pool = p;
    available = smaller (remaining q) (available D p);
    customer_remaining = some (remaining q);
  }

module _ {F S : Type 0} (P : Ports F S) (C : Codecs F) (D : Doubles F) (cfg : Config) where
  unfoldable pub view_pools :
      List CustomerQuota → List (ResourcePool F) → M S (List (CapacityView F))
  unfolding view_of available_ratio
  view_pools qs [] = pure []
  view_pools qs (p ∷ ps) = do
    P.count (
        pool_available_ratio p.kind
          (available_ratio D p.total p.dedicated_amount p.reserved_amount p.oversubscribe_factor))
    vs ← view_pools qs ps
    pure (view_of D (quota_by_kind none qs p.kind) p ∷ vs)

  abbrev pub store_views : String → List (CapacityView F) → Option String → M S (Unit {0})
  store_views key vs none = pure tt
  store_views key vs (some b) = ignored (P.set_capacity key b cfg.capacity_cache_ttl)

  unfoldable pub compute_views : String → M S (List (CapacityView F))
  unfolding view_pools
  compute_views customer_id = do
    pools ← P.list_pools
    qs ← if customer_id =ₛ "" then pure [] else P.list_quotas customer_id
    vs ← view_pools qs pools
    store_views (cache_key customer_id) vs (C.marshal_views vs)
    pure vs

  abbrev pub decoded : String → Option (List (CapacityView F)) → M S (List (CapacityView F))
  decoded customer_id none = compute_views customer_id
  decoded customer_id (some vs) = pure vs

  abbrev pub from_cache : String → Option String → M S (List (CapacityView F))
  from_cache customer_id none = compute_views customer_id
  from_cache customer_id (some b) = decoded customer_id (C.unmarshal_views b)

  unfoldable pub list_capacity : String → M S (List (CapacityView F))
  unfolding compute_views
  list_capacity customer_id = do
    b ← missing_if_failed (P.get_capacity (cache_key customer_id))
    from_cache customer_id b

module _ {F S : Type 0} (P : Ports F S) where
  unfoldable pub list_products : M S (List Product)
  list_products = P.list_products

  abbrev pub with_rows :
      Uuid → Option CapacityRequest → M S (CapacityRequest × List RequestLine × List RequestEvent)
  with_rows id none = fail request_not_found
  with_rows id (some r) = do ls ← P.list_lines id; es ← P.list_events id; pure (r, ls, es)

  unfoldable pub get_request : Uuid → M S (CapacityRequest × List RequestLine × List RequestEvent)
  get_request id = do found ← P.get_request id; with_rows id found

  unfoldable pub list_requests : String → Option RequestStatus → M S (List CapacityRequest)
  list_requests customer_id status = P.list_by_customer customer_id status
