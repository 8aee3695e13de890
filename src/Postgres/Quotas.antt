-- ===== src/Postgres/Quotas.antt =====
-- internal/repository/postgres/quotas.go.
pub mod Bounds
use cloud_resource_manager.Base.{
  ℕ, suc, Bool, true, false, ◌&&◌, Option, List, ◌∷◌, String, ◌==◌, ◌=ₛ◌, if◌then◌else◌,
}
use cloud_resource_manager.Base.Int.{ℤ, pos, ◌+ℤ◌, ◌-ℤ◌, leb_ℤ}
use cloud_resource_manager.Base.Table.{find, select, update, affected, exists, every, order_by}
use cloud_resource_manager.Base.Action.{ok, err, pure, ◌>>=◌, ◌>>◌}
use cloud_resource_manager.Domain.Types.{Uuid, Time, CustomerQuota}
use cloud_resource_manager.Ports.{M}
use cloud_resource_manager.Postgres.Db.{Db, World, query, statement, checked}

-- WHERE customer_id = $1 AND resource_kind = $2.
abbrev pub quota_of : String → String → CustomerQuota → Bool
quota_of customer_id kind q = q.customer_id =ₛ customer_id && q.resource_kind =ₛ kind

unfoldable pub get_quota : {F R : Type 0} → String → String → M (World F R) (Option CustomerQuota)
unfolding query
get_quota customer_id kind = query "get quota" (λ d. find (quota_of customer_id kind) d.quotas)

unfoldable pub list_quotas :
    {F R : Type 0} → (String → String → Bool) → String → M (World F R) (List CustomerQuota)
unfolding query
list_quotas text_le customer_id = query "list quotas" (λ d.
    order_by (λ p q. text_le p.resource_kind q.resource_kind)
      (select (λ q. q.customer_id =ₛ customer_id) d.quotas))

abbrev pub consumable : String → String → ℤ → CustomerQuota → Bool
consumable customer_id kind amount q =
    quota_of customer_id kind q && leb_ℤ amount (q.limit -ℤ q.used_amount)

abbrev pub consuming : ℤ → Time → CustomerQuota → CustomerQuota
consuming amount now q = record q { used_amount = q.used_amount +ℤ amount; updated_at = now }

abbrev pub greatest : ℤ → ℤ → ℤ
greatest a b = if leb_ℤ b a then a else b

abbrev pub giving_back : ℤ → Time → CustomerQuota → CustomerQuota
giving_back amount now q = record q {
  used_amount = greatest (q.used_amount -ℤ amount) (pos 0);
  updated_at = now;
}

-- CHECK ("limit" >= 0), CHECK (used_amount >= 0) and CHECK (used_amount <= "limit").
abbrev pub within_limit : CustomerQuota → Bool
within_limit q =
    leb_ℤ (pos 0) q.limit && (leb_ℤ (pos 0) q.used_amount && leb_ℤ q.used_amount q.limit)

-- UPDATE customer_quotas SET f WHERE p, with the number of rows.
unfoldable pub update_quotas :
    {F R : Type 0}
    → String
    → (CustomerQuota → Bool)
    → (Time → CustomerQuota → CustomerQuota)
    → M (World F R) ℕ
unfolding statement
update_quotas label p f w =
    statement label
      (λ d.
        checked (every within_limit (update p (f w.db_clock) d.quotas)) d (affected p d.quotas)
          (record d { quotas = update p (f w.db_clock) d.quotas }))
      w

unfoldable pub try_consume : {F R : Type 0} → String → String → ℤ → M (World F R) Bool
unfolding update_quotas
try_consume customer_id kind amount = do
  n ← update_quotas "try consume quota" (consumable customer_id kind amount) (consuming amount)
  pure (n == 1)

-- The row of a customer with none; the database draws its id.
abbrev pub new_quota : Uuid → String → String → ℤ → Time → CustomerQuota
new_quota id customer_id kind default_limit now = record {
  id = id;
  customer_id = customer_id;
  resource_kind = kind;
  limit = default_limit;
  used_amount = pos 0;
  created_at = now;
  updated_at = now;
}

-- INSERT … ON CONFLICT (customer_id, resource_kind) DO NOTHING. The new row's CHECKs come first.
abbrev pub ensured : CustomerQuota → List CustomerQuota → List CustomerQuota
ensured q qs = if exists (quota_of q.customer_id q.resource_kind) qs then qs else q ∷ qs

unfoldable pub ensure_quota : {F R : Type 0} → String → String → ℤ → M (World F R) (Unit {0})
unfolding statement
ensure_quota customer_id kind default_limit w =
    let q = new_quota (w.uuids w.drawn) customer_id kind default_limit w.db_clock in
    statement "ensure quota"
      (λ d. checked (within_limit q) d tt (record d { quotas = ensured q d.quotas }))
      (record w { drawn = suc w.drawn })

unfoldable pub ensure_and_try_consume :
    {F R : Type 0} → String → String → ℤ → ℤ → M (World F R) Bool
unfolding ensure_quota try_consume
ensure_and_try_consume customer_id kind amount default_limit = do
  ensure_quota customer_id kind default_limit
  try_consume customer_id kind amount

unfoldable pub release_quota : {F R : Type 0} → String → String → ℤ → M (World F R) (Unit {0})
unfolding update_quotas
release_quota customer_id kind amount = do
  n ← update_quotas "release quota" (quota_of customer_id kind) (giving_back amount)
  pure tt
