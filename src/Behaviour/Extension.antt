-- ===== src/Behaviour/Extension.antt =====
-- internal/service/capacity.go: Extend keeps to the limits on a reservation.
use cloud_resource_manager.Base.{
  Bool, true, false, ◌&&◌, ◌≡◌, ap, Option, Option-cases, inl, inr, none, some, String, ◌==◌, arith,
  ==-eq,
}
use cloud_resource_manager.Base.Int.{ℤ, pos, ◌+ℤ◌, ◌≤ℤ◌, ◌<ℤ◌, leb_ℤ, ltb_ℤ, int_laws}
use cloud_resource_manager.Base.Table.{find, All, Distinct}
use cloud_resource_manager.Base.Table.Laws.{All-map, All-both, All-update}
use cloud_resource_manager.Config.{Config}
use cloud_resource_manager.External.{Doubles}
use cloud_resource_manager.Domain.Types.{
  Uuid, Time, CapacityRequest, RequestEvent, status_is, status_reserved,
}
use cloud_resource_manager.Postgres.Db.{Db, World}
use cloud_resource_manager.Postgres.Logic.{Keeps, Keeps-bind, Keeps-fail, Keeps-new_uuid}
use cloud_resource_manager.Postgres.Requests.{
  update_expiry, extend_request, get_request, extending, reserved_row, insert_event,
}
use cloud_resource_manager.Redis.{Server}
use cloud_resource_manager.Deployment.{production}
use cloud_resource_manager.Service.Lifecycle.{
  base_time, lapsed, extend_reserved, extend_found, extend,
}
use cloud_resource_manager.Ledger.Calls.{keeps_rules}
use cloud_resource_manager.Behaviour.Reading.{
  query-then, Keeps-guard, find-Distinct, update_expiry-Keeps,
}

abbrev ExpiresWithin : Option Time → Time → Type 0
ExpiresWithin none latest = Unit
ExpiresWithin (some e) latest = e ≤ℤ latest

-- A request has been extended at most as often as the configuration allows, and it expires no later
-- than the maximum time behind its creation.
pub record Limited (cfg : Config) (r : CapacityRequest) : Type 0 where
  pub extensions : r.extension_count ≤ℤ cfg.max_extensions
  pub wall_time : ExpiresWithin r.expires_at (r.created_at +ℤ cfg.max_reserve_wall_time)

abbrev pub RequestsLimited : {F : Type 0} → Config → Db F → Type 0
RequestsLimited cfg d = All (Limited cfg) d.requests

below : (a b : ℤ) → leb_ℤ a b ≡ false → b +ℤ pos 1 ≤ℤ a
below a b h = lower (flip a b h)
  where
    flip : (a b : ℤ) → leb_ℤ a b ≡ false → b <ℤ a
    flip a b h = ground arith

    lower : b <ℤ a → b +ℤ pos 1 ≤ℤ a
    lower h = omega int_laws

not_later : (a b : ℤ) → ltb_ℤ a b ≡ false → b ≤ℤ a
not_later a b h = ground arith

left_true : (a b : Bool) → (a && b) ≡ true → a ≡ true
left_true a b h = ground arith

-- What is known of the rows while one is extended: when that row was created.
abbrev Row : Config → Uuid → Time → CapacityRequest → Type 0
Row cfg id created x = Limited cfg x × (x.id ≡ id → x.created_at ≡ created)

abbrev Known : {F : Type 0} → Config → Uuid → Time → Db F → Type 0
Known cfg id created d = All (Row cfg id created) d.requests

extending-Row :
    (cfg : Config) (id : Uuid) (created : Time) (e : Time) (n : ℤ) (t : Time) (x : CapacityRequest)
    → n ≤ℤ cfg.max_extensions
    → e ≤ℤ created +ℤ cfg.max_reserve_wall_time
    → reserved_row id x ≡ true
    → Row cfg id created x
    → Row cfg id created (extending e n t x)
extending-Row cfg id created e n t x h k m (l, c) =
    let own : x.created_at ≡ created =
      c (==-eq x.id id (left_true (x.id == id) (status_is x.status status_reserved) m)) in
    (record { extensions = h; wall_time = rw own k }, c)

module _ {F R : Type 0} (cfg : Config) (id : Uuid) (created : Time) where
  update_expiry-Known :
      (e : Time) (n : ℤ)
      → n ≤ℤ cfg.max_extensions
      → e ≤ℤ created +ℤ cfg.max_reserve_wall_time
      → Keeps {F = F} {R = R} (Known cfg id created) (update_expiry id e n)
  update_expiry-Known e n h k = update_expiry-Keeps (Known cfg id created) id e n (λ t d a.
      All-update (Row cfg id created) (Row cfg id created) (reserved_row id) (extending e n t)
        (λ x m y. extending-Row cfg id created e n t x h k m y) (λ x m y. y) d.requests a)

  insert_event-Known :
      (ev : RequestEvent) → Keeps {F = F} {R = R} (Known cfg id created) (insert_event ev)
  unfolding insert_event
  insert_event-Known ev = record { at = λ w p. rw (untouched w) p }
    where
      untouched : (w : World F R) → (insert_event ev w).1.db.requests ≡ w.db.requests
      untouched w = ground arith

  extend_request-Known :
      (e : Time) (n : ℤ) (ev : RequestEvent)
      → n ≤ℤ cfg.max_extensions
      → e ≤ℤ created +ℤ cfg.max_reserve_wall_time
      → Keeps {F = F} {R = R} (Known cfg id created) (extend_request id e n ev)
  unfolding extend_request
  extend_request-Known e n ev h k =
      Keeps-bind _ _ (update_expiry-Known e n h k)
        (λ m. search (keeps_rules, insert_event-Known) depth 8)

module _ {F R : Type 0} (D : Doubles F) (text_le : String → String → Bool) (server : Server R)
    (cfg : Config) (id : Uuid) (r : CapacityRequest) where
  extend_reserved-Known :
      (now : Time)
      → Keeps
          (Known cfg id r.created_at)
          (extend_reserved (production D text_le server) cfg id r now)
  unfolding extend_reserved
  extend_reserved-Known now =
      let new_expiry = base_time r.expires_at now +ℤ cfg.reserve_ttl in
      Keeps-guard (lapsed r.expires_at now) _ _ (λ _.
        Keeps-guard (leb_ℤ cfg.max_extensions r.extension_count) _ _ (λ more.
          Keeps-guard (ltb_ℤ (r.created_at +ℤ cfg.max_reserve_wall_time) new_expiry) _ _ (λ late.
            Keeps-bind _ _ Keeps-new_uuid (λ ev_id.
              Keeps-bind _ _
                (extend_request-Known cfg id r.created_at new_expiry (r.extension_count +ℤ pos 1) _
                  (below _ _ more)
                  (not_later (r.created_at +ℤ cfg.max_reserve_wall_time) new_expiry late))
                (λ updated. search keeps_rules depth 8)))))

  extend_found-Known :
      Keeps (Known cfg id r.created_at) (extend_found (production D text_le server) cfg id (some r))
  extend_found-Known = search (keeps_rules, extend_reserved-Known) depth 8

module _ {F R : Type 0} (D : Doubles F) (text_le : String → String → Bool) (server : Server R)
    (cfg : Config) where
  -- Where no two requests have one id, and each has been extended at most MaxExtensions times and
  -- expires within MaxReserveWallTime of its creation, this still holds behind Extend, whether it
  -- returns or fails.
  pub extend-Limited :
      (id : Uuid) (w : World F R)
      → Distinct (λ x. x.id) w.db.requests
      → RequestsLimited cfg w.db
      → RequestsLimited cfg (extend (production D text_le server) cfg id w).1.db
  unfolding extend get_request
  extend-Limited id w n l = elim (Option-cases (find (λ x. x.id == id) w.db.requests)) [
    | inl e ↦
        query-then (RequestsLimited cfg) "get request" (λ d. find (λ x. x.id == id) d.requests)
          (extend_found (production D text_le server) cfg id) w l (rw e (Keeps-fail _))
    | inr (r, e) ↦
        let start : Known cfg id r.created_at w.db =
          All-both (Limited cfg) (λ x. x.id ≡ id → x.created_at ≡ r.created_at) w.db.requests l
            (All-map (λ x. x.id ≡ id → x ≡ r) (λ x. x.id ≡ id → x.created_at ≡ r.created_at)
              (λ x h q. ap (λ (y : CapacityRequest). y.created_at) (h q)) w.db.requests
              (find-Distinct (λ x. x.id) id r w.db.requests n e)) in
        All-map (Row cfg id r.created_at) (Limited cfg) (λ x y. y.0) _
          (query-then (Known cfg id r.created_at) "get request"
            (λ d. find (λ x. x.id == id) d.requests)
            (extend_found (production D text_le server) cfg id) w start
            (rw e (extend_found-Known D text_le server cfg id r)))
  ]
