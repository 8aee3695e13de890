-- ===== src/Postgres/Products.antt =====
-- internal/repository/postgres/products.go. The decoding of the JSON columns is left out: a row
-- holds the decoded template.
use cloud_resource_manager.Base.{Bool, Option, List, String, ◌=ₛ◌}
use cloud_resource_manager.Base.Table.{find, order_by}
use cloud_resource_manager.Domain.Types.{Product}
use cloud_resource_manager.Ports.{M}
use cloud_resource_manager.Postgres.Db.{World, query}

unfoldable pub list_products :
    {F R : Type 0} → (String → String → Bool) → M (World F R) (List Product)
unfolding query
list_products text_le =
    query "list products" (λ d. order_by (λ p q. text_le p.code q.code) d.products)

unfoldable pub get_by_code : {F R : Type 0} → String → M (World F R) (Option Product)
unfolding query
get_by_code code = query "get product" (λ d. find (λ p. p.code =ₛ code) d.products)
