-- ===== src/Memory/Products.antt =====
-- internal/repository/memory/memory.go: Products.
use cloud_resource_manager.Base.{Option, List, [], ◌∷◌, String, ◌=ₛ◌}
use cloud_resource_manager.Base.Table.{find, put}
use cloud_resource_manager.Base.Action.{ok}
use cloud_resource_manager.Domain.Types.{Product}
use cloud_resource_manager.Ports.{M}
use cloud_resource_manager.Memory.Store.{Store}

-- NewProducts, from the products that are left to enter.
unfoldable pub new_products : List Product → List Product → List Product
new_products m [] = m
new_products m (p ∷ ps) = new_products (put (λ q. q.code =ₛ p.code) p m) ps

unfoldable pub list_products : {F : Type 0} → M (Store F) (List Product)
list_products m = (ok m.products, m)

unfoldable pub get_by_code : {F : Type 0} → String → M (Store F) (Option Product)
get_by_code code m = (ok (find (λ p. p.code =ₛ code) m.products), m)
