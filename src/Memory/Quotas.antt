-- ===== src/Memory/Quotas.antt =====
-- internal/repository/memory/memory.go: Quotas.
use cloud_resource_manager.Base.{
  suc, Bool, true, false, Option, none, some, List, [], ◌∷◌, String, ◌=ₛ◌, if◌then◌else◌,
}
use cloud_resource_manager.Base.Int.{ℤ, pos, ◌+ℤ◌, ◌-ℤ◌, leb_ℤ, ltb_ℤ}
use cloud_resource_manager.Base.Table.{find, select, exists, put, update_first}
use cloud_resource_manager.Base.Action.{ok}
use cloud_resource_manager.Domain.Types.{Uuid, CustomerQuota}
use cloud_resource_manager.Ports.{M}
use cloud_resource_manager.Postgres.Quotas.{quota_of}
use cloud_resource_manager.Memory.Store.{Store}

-- NewQuotas, from the quotas that are left to enter. `quota_of` compares a quotaKey.
unfoldable pub new_quotas : List CustomerQuota → List CustomerQuota → List CustomerQuota
new_quotas m [] = m
new_quotas m (q ∷ qs) = new_quotas (put (quota_of q.customer_id q.resource_kind) q m) qs

unfoldable pub get_quota : {F : Type 0} → String → String → M (Store F) (Option CustomerQuota)
get_quota customer_id kind m = (ok (find (quota_of customer_id kind) m.quotas), m)

unfoldable pub list_quotas : {F : Type 0} → String → M (Store F) (List CustomerQuota)
list_quotas customer_id m = (ok (select (λ q. q.customer_id =ₛ customer_id) m.quotas), m)

abbrev pub using : ℤ → CustomerQuota → CustomerQuota
using amount q = record q { used_amount = q.used_amount +ℤ amount }

abbrev pub freeing : ℤ → CustomerQuota → CustomerQuota
freeing amount q = record q {
  used_amount = if leb_ℤ amount q.used_amount then q.used_amount -ℤ amount else pos 0;
}

-- The entry that `q.quotas[key]` finds, or nil.
abbrev consume_found : {F : Type 0} → String → String → ℤ → Option CustomerQuota → M (Store F) Bool
consume_found customer_id kind amount none m = (ok false, m)
consume_found customer_id kind amount (some q) m =
    if ltb_ℤ (q.limit -ℤ q.used_amount) amount then (ok false, m) else (
      ok true,
      record m { quotas = update_first (quota_of customer_id kind) (using amount) m.quotas },
    )

unfoldable pub try_consume : {F : Type 0} → String → String → ℤ → M (Store F) Bool
try_consume customer_id kind amount m =
    consume_found customer_id kind amount (find (quota_of customer_id kind) m.quotas) m

-- The times are left zero.
abbrev pub fresh_quota : Uuid → String → String → ℤ → CustomerQuota
fresh_quota id customer_id kind default_limit = record {
  id = id;
  customer_id = customer_id;
  resource_kind = kind;
  limit = default_limit;
  used_amount = pos 0;
  created_at = pos 0;
  updated_at = pos 0;
}

-- The entry of a customer with none is made first, with a UUID of its own.
unfoldable pub ensure : {F : Type 0} → String → String → ℤ → Store F → Store F
ensure customer_id kind default_limit m =
    if exists (quota_of customer_id kind) m.quotas then m else record m {
      quotas = fresh_quota (m.uuids m.drawn) customer_id kind default_limit ∷ m.quotas;
      drawn = suc m.drawn;
    }

unfoldable pub ensure_and_try_consume : {F : Type 0} → String → String → ℤ → ℤ → M (Store F) Bool
unfolding ensure try_consume
ensure_and_try_consume customer_id kind amount default_limit m =
    try_consume customer_id kind amount (ensure customer_id kind default_limit m)

unfoldable pub release_quota : {F : Type 0} → String → String → ℤ → M (Store F) (Unit {0})
release_quota customer_id kind amount m = (
  ok tt,
  record m { quotas = update_first (quota_of customer_id kind) (freeing amount) m.quotas },
)
