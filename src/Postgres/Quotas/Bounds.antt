-- ===== src/Postgres/Quotas/Bounds.antt =====
-- internal/repository/postgres/quotas.go: what is used of a quota stays between 0 and its limit.
use cloud_resource_manager.Base.{
  Bool, true, ◌&&◌, ◌≡◌, refl, List, String, arith, inl, inr, Bool-cases, if◌then◌else◌, ap,
}
use cloud_resource_manager.Base.Int.{
  ℤ, pos, ◌+ℤ◌, ◌-ℤ◌, ◌≤ℤ◌, leb_ℤ, ltb_ℤ, leb→≤ℤ, ≤ℤ→leb, int_laws,
}
use cloud_resource_manager.Base.Table.{update, exists, every, All}
use cloud_resource_manager.Base.Table.Laws.{All-update, All-every, every-All}
use cloud_resource_manager.Domain.Types.{Uuid, Time, CustomerQuota}
use cloud_resource_manager.Domain.Rules.{remaining}
use cloud_resource_manager.Postgres.Db.{Db}
use cloud_resource_manager.Postgres.Quotas.{
  quota_of, consumable, consuming, giving_back, greatest, new_quota, ensured, within_limit,
}

clamped : (a z : ℤ) → pos 1 ≤ℤ a → leb_ℤ a z ≡ leb_ℤ a (if ltb_ℤ z (pos 0) then pos 0 else z)
clamped a z h = ground arith

-- A positive amount is one that TryConsume's WHERE clause takes from a quota exactly if the quota is
-- the customer's for that kind and the amount is at most what `Remaining` shows of it.
pub consumable-remaining :
    (customer_id kind : String) (a : ℤ) (q : CustomerQuota)
    → pos 1 ≤ℤ a
    → consumable customer_id kind a q ≡ (quota_of customer_id kind q && leb_ℤ a (remaining q))
unfolding remaining
consumable-remaining customer_id kind a q h =
    ap (λ b. quota_of customer_id kind q && b) (clamped a (q.limit -ℤ q.used_amount) h)

abbrev pub Funded : CustomerQuota → Type 0
Funded q = (pos 0 ≤ℤ q.used_amount) × (q.used_amount ≤ℤ q.limit)

abbrev pub QuotasFunded : {F : Type 0} → Db F → Type 0
QuotasFunded d = All Funded d.quotas

more_used : (a u l : ℤ) → pos 0 ≤ℤ a → pos 0 ≤ℤ u → a ≤ℤ l -ℤ u → (pos 0 ≤ℤ u +ℤ a) × (u +ℤ a ≤ℤ l)
more_used a u l h k m = (omega int_laws, omega int_laws)

greatest-nonneg : (z : ℤ) → pos 0 ≤ℤ greatest z (pos 0)
greatest-nonneg z = ground arith

greatest-le : (z u : ℤ) → pos 0 ≤ℤ u → z ≤ℤ u → greatest z (pos 0) ≤ℤ u
greatest-le z u h k = ground arith

less_used : (a u : ℤ) → pos 0 ≤ℤ a → u -ℤ a ≤ℤ u
less_used a u h = omega int_laws

within : (a b c : ℤ) → a ≤ℤ b → b ≤ℤ c → a ≤ℤ c
within a b c h k = omega arith

both_right : (a b : Bool) → (a && b) ≡ true → b ≡ true
both_right a b h = ground arith

consuming-Funded :
    (c k : String) (a : ℤ) (t : Time) (q : CustomerQuota)
    → pos 0 ≤ℤ a
    → consumable c k a q ≡ true
    → Funded q
    → Funded (consuming a t q)
consuming-Funded c k a t q h e f =
    more_used a q.used_amount q.limit h f.0
      (leb→≤ℤ a _ (both_right (quota_of c k q) (leb_ℤ a (q.limit -ℤ q.used_amount)) e))

giving_back-Funded :
    (a : ℤ) (t : Time) (q : CustomerQuota) → pos 0 ≤ℤ a → Funded q → Funded (giving_back a t q)
giving_back-Funded a t q h f = (
  greatest-nonneg (q.used_amount -ℤ a),
  within _ q.used_amount q.limit
      (greatest-le (q.used_amount -ℤ a) q.used_amount f.0 (less_used a q.used_amount h)) f.1,
)

-- The CHECKs of a row say that it is funded.
pub within-Funded : (q : CustomerQuota) → within_limit q ≡ true → Funded q
within-Funded q e = (ground arith, ground arith)

pub Funded-within : (q : CustomerQuota) → Funded q → within_limit q ≡ true
Funded-within q f =
    rw
      (
        ≤ℤ→leb (pos 0) q.limit (within (pos 0) q.used_amount q.limit f.0 f.1),
        ≤ℤ→leb (pos 0) q.used_amount f.0,
        ≤ℤ→leb q.used_amount q.limit f.1,
      )
      refl

pub new_quota-within :
    (id : Uuid) (c k : String) (l : ℤ) (t : Time)
    → pos 0 ≤ℤ l
    → within_limit (new_quota id c k l t) ≡ true
new_quota-within id c k l t h = Funded-within (new_quota id c k l t) (omega arith, h)

pub ensured-within :
    (q : CustomerQuota) (qs : List CustomerQuota)
    → within_limit q ≡ true
    → every within_limit qs ≡ true
    → every within_limit (ensured q qs) ≡ true
ensured-within q qs h a = elim (Bool-cases (exists (quota_of q.customer_id q.resource_kind) qs)) [
  | inl e ↦ rw e a
  | inr e ↦ rw (e, h) a
]

-- The CHECKs of the rows stand behind an UPDATE that keeps funded rows funded.
within-update :
    (p : CustomerQuota → Bool) (f : CustomerQuota → CustomerQuota) (qs : List CustomerQuota)
    → ((q : CustomerQuota) → p q ≡ true → Funded q → Funded (f q))
    → every within_limit qs ≡ true
    → every within_limit (update p f qs) ≡ true
within-update p f qs h e = All-every within_limit _ (
    All-update (λ q. within_limit q ≡ true) (λ q. within_limit q ≡ true) p f
      (λ q m x. Funded-within (f q) (h q m (within-Funded q x))) (λ q m x. x) qs
      (every-All within_limit qs e))

pub consuming-within :
    (c k : String) (a : ℤ) (t : Time) (qs : List CustomerQuota)
    → pos 0 ≤ℤ a
    → every within_limit qs ≡ true
    → every within_limit (update (consumable c k a) (consuming a t) qs) ≡ true
consuming-within c k a t qs h =
    within-update (consumable c k a) (consuming a t) qs (λ q m x. consuming-Funded c k a t q h m x)

pub giving_back-within :
    (c k : String) (a : ℤ) (t : Time) (qs : List CustomerQuota)
    → leb_ℤ (pos 0) a ≡ true
    → every within_limit qs ≡ true
    → every within_limit (update (quota_of c k) (giving_back a t) qs) ≡ true
giving_back-within c k a t qs h =
    within-update (quota_of c k) (giving_back a t) qs
      (λ q m x. giving_back-Funded a t q (leb→≤ℤ (pos 0) a h) x)
