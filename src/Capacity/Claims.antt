-- ===== src/Capacity/Claims.antt =====
-- internal/service/capacity.go: Confirm moves amounts within a pool. What a pool has given out,
-- dedicated and reserved together, stays.
use cloud_resource_manager.Base.{
  Bool, ◌≡◌, refl, ◌∙◌, ap, Option, none, some, List, [], ◌∷◌, String, map, arith, inl, inr,
  Bool-cases,
}
use cloud_resource_manager.Base.Int.{ℤ, ◌+ℤ◌, ◌-ℤ◌, int_laws}
use cloud_resource_manager.Base.Table.{update, affected, every}
use cloud_resource_manager.External.{Doubles}
use cloud_resource_manager.Domain.Types.{
  Uuid, Time, CapacityRequest, Dedication, RequestEvent, Hold, HoldStatus, ResourcePool,
}
use cloud_resource_manager.Ports.{M}
use cloud_resource_manager.Postgres.Db.{Db, World, checked, within_tx}
use cloud_resource_manager.Postgres.Logic.{
  Keeps, Keeps-bind, Keeps-pure, Keeps-fail, Keeps-query, Keeps-statement, Keeps-checked,
  Keeps-within_tx, kept,
}
use cloud_resource_manager.Postgres.Pools.{
  move_reserved_to_dedicated, update_pools, covers, dedicating, nonnegative,
}
use cloud_resource_manager.Postgres.Requests.{
  list_active_holds, update_hold_status, confirm_request,
}
use cloud_resource_manager.Redis.{Server}
use cloud_resource_manager.Deployment.{production}
use cloud_resource_manager.Service.Input.{Codecs}
use cloud_resource_manager.Service.Lifecycle
use cloud_resource_manager.Ledger.Quiet.{Quiet, confirm_request-Quiet}
use cloud_resource_manager.Ledger.Calls.{keeps_rules, get_request-Keeps}

abbrev pub claim : {F : Type 0} → ResourcePool F → Uuid × ℤ
claim p = (p.id, p.dedicated_amount +ℤ p.reserved_amount)

-- Each pool with what it has given out.
abbrev pub claims : {F : Type 0} → Db F → List (Uuid × ℤ)
claims d = map claim d.pools

abbrev pub Claims : {F : Type 0} → List (Uuid × ℤ) → Db F → Type 0
Claims cs d = claims d ≡ cs

moved : (d r a : ℤ) → (d +ℤ a) +ℤ (r -ℤ a) ≡ d +ℤ r
moved d r a = omega int_laws

map-update :
    {A B : Type 0} (f : A → B) (p : A → Bool) (g : A → A)
    → ((x : A) → f (g x) ≡ f x)
    → (xs : List A) → map f (update p g xs) ≡ map f xs
map-update f p g h [] = refl
map-update f p g h (x ∷ xs) = elim (Bool-cases (p x)) [
  | inl e ↦ rw (e, h x, map-update f p g h xs) refl
  | inr e ↦ rw (e, map-update f p g h xs) refl
]

module _ {F R : Type 0} (cs : List (Uuid × ℤ)) where
  update_pools-Claims :
      (label : String) (p : ResourcePool F → Bool) (f : Time → ResourcePool F → ResourcePool F)
      → ((t : Time) (x : ResourcePool F) → claim (f t x) ≡ claim x)
      → Keeps {R = R} (Claims cs) (update_pools label p f)
  unfolding update_pools
  update_pools-Claims label p f h = record {
    at = λ w c.
        let rows = λ (d : Db F). update p (f w.db_clock) d.pools in
        (Keeps-statement {F = F} {R = R} {P = Claims cs} label
            (λ (d : Db F).
              checked (every nonnegative (rows d)) d (affected p d.pools)
                (record d { pools = rows d }))
            (λ d a.
              Keeps-checked (Claims cs) (every nonnegative (rows d)) d (affected p d.pools)
                (record d { pools = rows d }) a
                (map-update claim p (f w.db_clock) (h w.db_clock) d.pools ∙ a))).at
          w c;
  }

  move-Claims :
      (id : Uuid) (a : ℤ) → Keeps {F = F} {R = R} (Claims cs) (move_reserved_to_dedicated id a)
  unfolding move_reserved_to_dedicated
  move-Claims id a =
      Keeps-bind _ _
        (update_pools-Claims "move reserved to dedicated pool" (covers id a) (dedicating a)
          (λ t x. ap (λ z. (x.id, z)) (moved x.dedicated_amount x.reserved_amount a)))
        (λ n. Keeps-pure tt)

  update_hold_status-Claims :
      (h : Uuid) (from to : HoldStatus)
      → Keeps {F = F} {R = R} (Claims cs) (update_hold_status h from to)
  unfolding update_hold_status
  update_hold_status-Claims h from to = record { at = λ w c. ap (map claim) (same w) ∙ c }
    where
      same : (w : World F R) → (update_hold_status h from to w).1.db.pools ≡ w.db.pools
      same w = ground arith

  Quiet-Claims : {A : Type 0} (m : M (World F R) A) → Quiet m → Keeps (Claims cs) m
  Quiet-Claims m q = record { at = λ w c. ap (map claim) (q.at w).pools ∙ c }

module _ {F R : Type 0} (D : Doubles F) (text_le : String → String → Bool) (server : Server R)
    (cs : List (Uuid × ℤ)) where
  dedicate_hold-Claims :
      (row : Uuid) (now : Time) (h : Hold)
      → Keeps (Claims cs) (Lifecycle.dedicate_hold (production D text_le server) row now h)
  unfolding Lifecycle.dedicate_hold
  dedicate_hold-Claims row now h =
      search (keeps_rules, move-Claims cs, update_hold_status-Claims cs) depth 12

  dedicate_holds-Claims :
      (row : Uuid) (now : Time) (hs : List Hold)
      → Keeps (Claims cs) (Lifecycle.dedicate_holds (production D text_le server) row now hs)
  unfolding Lifecycle.dedicate_holds
  dedicate_holds-Claims row now [] = Keeps-pure []
  dedicate_holds-Claims row now (h ∷ hs) =
      Keeps-bind _ _ (dedicate_hold-Claims row now h)
        (λ x. Keeps-bind _ _ (dedicate_holds-Claims row now hs) (λ xs. Keeps-pure (x ∷ xs)))

  list_active_holds-Claims : (id : Uuid) → Keeps {F = F} {R = R} (Claims cs) (list_active_holds id)
  unfolding list_active_holds
  list_active_holds-Claims id = Keeps-query _ _

  confirm_request-Claims :
      (id : Uuid) (ds : List Dedication) (e : RequestEvent)
      → Keeps {F = F} {R = R} (Claims cs) (confirm_request id ds e)
  confirm_request-Claims id ds e = Quiet-Claims cs _ (confirm_request-Quiet id ds e)

  confirm_body-Claims :
      (id : Uuid) (now : Time)
      → Keeps (Claims cs) (Lifecycle.confirm_body (production D text_le server) id now)
  unfolding Lifecycle.confirm_body
  confirm_body-Claims id now =
      search (keeps_rules, list_active_holds-Claims, dedicate_holds-Claims, confirm_request-Claims)
        depth 14

  module _ (C : Codecs F) where
    confirm_reserved-Claims :
        (id : Uuid) (r : CapacityRequest)
        → Keeps (Claims cs) (Lifecycle.confirm_reserved (production D text_le server) C id r)
    unfolding Lifecycle.confirm_reserved
    confirm_reserved-Claims id r = search (keeps_rules, committed) depth 12
      where
        committed :
            (id : Uuid) (now : Time)
            → Keeps
                (Claims cs)
                (within_tx (Lifecycle.confirm_body (production D text_le server) id now))
        committed id now = Keeps-within_tx _ (kept _ (confirm_body-Claims id now))

    confirm_found-Claims :
        (id : Uuid) (found : Option CapacityRequest)
        → Keeps (Claims cs) (Lifecycle.confirm_found (production D text_le server) C id found)
    confirm_found-Claims id none = Keeps-fail _
    confirm_found-Claims id (some r) = search (keeps_rules, confirm_reserved-Claims) depth 8

    pub confirm-Claims :
        (id : Uuid) → Keeps (Claims cs) (Lifecycle.confirm (production D text_le server) C id)
    unfolding Lifecycle.confirm
    confirm-Claims id = Keeps-bind _ _ (get_request-Keeps id) (confirm_found-Claims id)
