-- ===== src/Ledger/Calls.antt =====
-- The calls between transactions: those that only read, or reach other stores than the tables.
use cloud_resource_manager.Base.{ℕ, ◌≡◌, arith, Option, String}
use cloud_resource_manager.Base.Int.{ℤ}
use cloud_resource_manager.Base.Action.{Result}
use cloud_resource_manager.Domain.Types.{Uuid, Time}
use cloud_resource_manager.Domain.Errors.{Error}
use cloud_resource_manager.Ports.{M}
use cloud_resource_manager.Postgres.Db.{Db, World}
use cloud_resource_manager.Postgres.Logic.{
  Keeps, Keeps-bind, Keeps-pure, Keeps-fail, Keeps-lift, Keeps-if, Keeps-fail_if, Keeps-now,
  Keeps-new_uuid, Keeps-count, Keeps-on_redis, Keeps-query,
}
use cloud_resource_manager.Postgres.Pools.{get_by_kind}
use cloud_resource_manager.Postgres.Products.{get_by_code}
use cloud_resource_manager.Postgres.Requests.{
  get_request, find_by_idempotency, count_active_holds, list_expired_ids,
}
use cloud_resource_manager.Postgres.Locker.{try_lock, unlock}
use cloud_resource_manager.Service.Create.{ignored, missing_if_failed}

module _ {F R : Type 0} {P : Db F → Type 0} where
  pub Keeps-ignored : (m : M (World F R) (Unit {0})) → Keeps P m → Keeps P (ignored m)
  Keeps-ignored m h = record { at = λ w p. h.at w p }

  pub Keeps-missing_if_failed :
      {A : Type 0} (m : M (World F R) (Option A)) → Keeps P m → Keeps P (missing_if_failed m)
  Keeps-missing_if_failed m h = record { at = λ w p. h.at w p }

  pub get_request-Keeps : (id : Uuid) → Keeps {R = R} P (get_request id)
  unfolding get_request
  get_request-Keeps id = Keeps-query _ _

  pub find_by_idempotency-Keeps : (c k : String) → Keeps {R = R} P (find_by_idempotency c k)
  unfolding find_by_idempotency
  find_by_idempotency-Keeps c k = Keeps-query _ _

  pub count_active_holds-Keeps : (c : String) → Keeps {R = R} P (count_active_holds c)
  unfolding count_active_holds
  count_active_holds-Keeps c = Keeps-query _ _

  pub get_by_kind-Keeps : (k : String) → Keeps {R = R} P (get_by_kind k)
  unfolding get_by_kind
  get_by_kind-Keeps k = Keeps-query _ _

  pub get_by_code-Keeps : (k : String) → Keeps {R = R} P (get_by_code k)
  unfolding get_by_code
  get_by_code-Keeps k = Keeps-query _ _

  pub list_expired_ids-Keeps : (t : Time) (n : ℕ) → Keeps {R = R} P (list_expired_ids t n)
  unfolding list_expired_ids
  list_expired_ids-Keeps t n = Keeps-query _ _

  pub try_lock-Keeps : (k : ℤ) → Keeps {R = R} P (try_lock k)
  unfolding try_lock
  try_lock-Keeps k = record { at = λ w p. rw (locked w) p }
    where
      locked : (w : World F R) → (try_lock k w).1.db ≡ w.db
      locked w = ground arith

  pub unlock-Keeps : (k : ℤ) → Keeps {R = R} P (unlock k)
  unfolding unlock
  unlock-Keeps k = record { at = λ w p. rw (unlocked w) p }
    where
      unlocked : (w : World F R) → (unlock k w).1.db ≡ w.db
      unlocked w = ground arith

-- A call whose error the code looks at itself.
pub Keeps-handled :
    {F R A B : Type 0} {P : Db F → Type 0} (m : M (World F R) A)
    (k : Result Error A → M (World F R) B)
    → Keeps P m
    → ((r : Result Error A) → Keeps P (k r))
    → Keeps P (λ w. k (m w).0 (m w).1)
Keeps-handled m k h g = record { at = λ w p. (g (m w).0).at (m w).1 (h.at w p) }

pub ruleset keeps_rules = (
  Keeps-bind, Keeps-pure, Keeps-fail, Keeps-lift, Keeps-if, Keeps-fail_if, Keeps-now,
  Keeps-new_uuid, Keeps-count, Keeps-on_redis, Keeps-ignored, Keeps-missing_if_failed,
  get_request-Keeps, find_by_idempotency-Keeps, count_active_holds-Keeps, get_by_kind-Keeps,
  get_by_code-Keeps, list_expired_ids-Keeps, try_lock-Keeps, unlock-Keeps,
)
