-- ===== src/Memory/Store.antt =====
-- internal/repository/memory/memory.go: what the stores of the tests keep, and the clock. A Go map
-- is the list of its entries, in one of the orders in which Go may run through it; an entry whose
-- key is a field of its value is that value. The mutexes let one call through at a time.
use cloud_resource_manager.Base.{ℕ, List, [], ◌∷◌, ◌++◌, String, ◌==◌, suc, if◌then◌else◌}
use cloud_resource_manager.Base.Int.{◌+ℤ◌}
use cloud_resource_manager.Base.Action.{ok}
use cloud_resource_manager.Domain.Types.{
  Uuid, Time, Duration, ResourcePool, Product, CustomerQuota, CapacityRequest, RequestLine, Hold,
  Dedication, RequestEvent,
}
use cloud_resource_manager.Ports.{M, Metric}

-- The rows of each request: map[uuid.UUID][]A.
abbrev pub Groups : Type 0 → Type 0
Groups A = List (Uuid × List A)

-- `pools` has the key Kind, `quotas` the customer and the kind, `products` the code, `requests` the
-- id, and `idem_index` the text of idemKey. `uuids` and `metrics` are what uuid.New and the counters
-- share with the service.
pub record Store (F : Type 0) : Type 0 where
  pub clock : Time
  pub pools : List (ResourcePool F)
  pub quotas : List CustomerQuota
  pub products : List Product
  pub requests : List CapacityRequest
  pub lines : Groups RequestLine
  pub holds : Groups Hold
  pub dedications : Groups Dedication
  pub events : Groups RequestEvent
  pub idem_index : List (String × Uuid)
  pub uuids : ℕ → Uuid
  pub drawn : ℕ
  pub metrics : List (Metric F)

module _ {A : Type 0} where
  -- `m[id]`, the empty slice where the key is missing.
  abbrev pub group : Uuid → Groups A → List A
  group id [] = []
  group id ((j, xs) ∷ m) = if j == id then xs else group id m

  -- `m[id] = append(m[id], ys...)`.
  abbrev pub append_to : Uuid → List A → Groups A → Groups A
  append_to id ys [] = (id, ys) ∷ []
  append_to id ys ((j, xs) ∷ m) = if j == id then (j, xs ++ ys) ∷ m else (j, xs) ∷ append_to id ys m

unfoldable pub now : {F : Type 0} → M (Store F) Time
now m = (ok m.clock, m)

unfoldable pub set_clock : {F : Type 0} → Time → Store F → Store F
set_clock t m = record m { clock = t }

unfoldable pub advance : {F : Type 0} → Duration → Store F → Store F
advance d m = record m { clock = m.clock +ℤ d }

-- uuid.New and the counters, which are the service's own.
unfoldable pub new_uuid : {F : Type 0} → M (Store F) Uuid
new_uuid m = (ok (m.uuids m.drawn), record m { drawn = suc m.drawn })

unfoldable pub count : {F : Type 0} → Metric F → M (Store F) (Unit {0})
count x m = (ok tt, record m { metrics = x ∷ m.metrics })
