-- ===== src/Behaviour/Completion.antt =====
-- internal/service/capacity.go: the statements of a release, where none is to fail.
pub mod Marks
pub mod Cancelling
use cloud_resource_manager.Base.{
  ◌≡◌, refl, sym, ◌∙◌, ap, subst, Bool, true, false, ◌&&◌, Option, none, some, List, [], ◌∷◌,
  String, ◌==◌, ◌=ₛ◌, inl, inr, Bool-cases, if◌then◌else◌, ℕ, suc, leb,
}
use cloud_resource_manager.Base.Int.{ℤ, pos, leb_ℤ}
use cloud_resource_manager.Base.Action.{ok, continue, pure, ◌>>=◌}
use cloud_resource_manager.Base.Table.{find, update, affected, exists, every, select, order_by, All}
use cloud_resource_manager.Base.Table.Laws.{
  every-All, All-every, All-update, All-select, All-order_by,
}
use cloud_resource_manager.External.{Doubles}
use cloud_resource_manager.Domain.Types.{
  Uuid, Time, CapacityRequest, RequestLine, RequestEvent, Hold, HoldStatus, RequestStatus,
  status_is, status_reserved, status_cancelled, status_expired, hold_active,
}
use cloud_resource_manager.Postgres.Db.{Db, World, query, exec, statement, checked, within_tx}
use cloud_resource_manager.Postgres.Total.{
  Completes, Completes-pure, Completes-bind, Completes-statement, Completes-query, within_tx-quiet,
}
use cloud_resource_manager.Postgres.Pools
use cloud_resource_manager.Postgres.Pools.{covers, releasing, nonnegative, update_pools}
use cloud_resource_manager.Postgres.Pools.Signs.{releasing-nonnegative}
use cloud_resource_manager.Postgres.Quotas.{
  release_quota, update_quotas, quota_of, giving_back, within_limit,
}
use cloud_resource_manager.Postgres.Quotas.Bounds.{giving_back-within}
use cloud_resource_manager.Postgres.Requests.{
  list_active_holds, active_of, list_lines, update_hold_status, reserved_row, set_status,
  update_reserved, insert_event, hold_row, moving_hold, mark_terminal, mark_cancelled, mark_expired,
  unless_none,
}
use cloud_resource_manager.Redis.{Server}
use cloud_resource_manager.Deployment.{production, new_uuid}
use cloud_resource_manager.Service.Release

abbrev pub has_amount : Hold → Bool
has_amount h = leb_ℤ (pos 0) h.amount

-- The CHECKs of the schema that a release meets.
pub record MeetsChecks {F : Type 0} (d : Db F) : Type 0 where
  pub pools_nonneg : every nonnegative d.pools ≡ true
  pub quotas_within : every within_limit d.quotas ≡ true
  pub holds_nonneg : every has_amount d.holds ≡ true

-- No statement is to fail, the tables meet the CHECKs, the requests are these, the database's clock
-- shows this, and no event has this id.
pub record Running {F R : Type 0} (rs : List CapacityRequest) (t : Time) (ev : Uuid) (w : World F R)
    : Type 0 where
  pub quiet : w.faults ≡ []
  pub counters : MeetsChecks w.db
  pub rows : w.db.requests ≡ rs
  pub time : w.db_clock ≡ t
  pub free : exists (λ e. e.id == ev) w.db.events ≡ false

-- And that id is drawn next.
abbrev pub Drawing : {F R : Type 0} → List CapacityRequest → Time → Uuid → World F R → Type 0
Drawing rs t ev w = Running rs t ev w × (w.uuids w.drawn ≡ ev)

moved_amounts :
    (h : Uuid) (from to : HoldStatus) (t : Time) (hs : List Hold)
    → every has_amount hs ≡ true
    → every has_amount (update (hold_row h from) (moving_hold to t) hs) ≡ true
moved_amounts h from to t hs e = All-every has_amount _ (
    All-update (λ x. has_amount x ≡ true) (λ x. has_amount x ≡ true) (hold_row h from)
      (moving_hold to t) (λ x _ m. m) (λ x _ m. m) hs (every-All has_amount hs e))

module _ {F R : Type 0} (rs : List CapacityRequest) (t : Time) (ev : Uuid) where
  abbrev pub Going : World F R → Type 0
  Going = Drawing {F = F} {R = R} rs t ev

  quietly : (w : World F R) → Going w → w.faults ≡ []
  quietly w g = g.0.quiet

  -- The tables may change but for these.
  Going-tables :
      (w : World F R) (d : Db F)
      → Going w
      → MeetsChecks d
      → d.requests ≡ w.db.requests
      → d.events ≡ w.db.events
      → Going (record w { faults = []; db = d })
  Going-tables w d (r, n) c q e = (
    record {
      quiet = refl;
      counters = c;
      rows = q ∙ r.rows;
      time = r.time;
      free = ap (exists (λ (x : RequestEvent). x.id == ev)) e ∙ r.free;
    },
    n,
  )

  Going-reading : (w : World F R) → Going w → Going (record w { faults = [] })
  Going-reading w g = Going-tables w w.db g g.0.counters refl refl

  -- The holds that are listed are rows.
  pub list_active_holds-Completes :
      (id : Uuid)
      → Completes Going (list_active_holds id) (λ hs w. Going w × All (λ h. has_amount h ≡ true) hs)
  unfolding list_active_holds query
  list_active_holds-Completes id =
      let le = λ (p q : Hold). leb p.pool_id q.pool_id in
      Completes-statement quietly (λ hs w. Going w × All (λ h. has_amount h ≡ true) hs) "list holds"
        (λ w d. (ok (order_by le (select (active_of id) d.holds)), d))
        (λ w g.
          let rows = every-All has_amount w.db.holds g.0.counters.holds_nonneg in
          (
            order_by le (select (active_of id) w.db.holds),
            refl,
            (
              Going-reading w g,
              All-order_by (λ h. has_amount h ≡ true) le _
                  (All-select (λ h. has_amount h ≡ true) (active_of id) w.db.holds rows),
            ),
          ))

  pub list_lines-Completes : (id : Uuid) → Completes Going (list_lines id) (λ _. Going)
  unfolding list_lines
  list_lines-Completes id = Completes-query quietly _ _ Going-reading

  release_pool-Completes :
      (id : Uuid) (a : ℤ) → Completes Going (Pools.release_reserved id a) (λ _. Going)
  unfolding Pools.release_reserved update_pools
  release_pool-Completes id a =
      Completes-bind (λ _. Going) _ _
        (Completes-statement quietly (λ _. Going) "release reserved pool"
          (λ w d.
            checked (every nonnegative (update (covers id a) (releasing a w.db_clock) d.pools)) d
              (affected (covers id a) d.pools)
              (record d { pools = update (covers id a) (releasing a w.db_clock) d.pools }))
          (λ w g.
            let c = releasing-nonnegative id a w.db_clock w.db.pools g.0.counters.pools_nonneg in
            rw c (
              affected (covers id a) w.db.pools,
              refl,
              Going-tables w
                  (record w.db { pools = update (covers id a) (releasing a w.db_clock) w.db.pools })
                  g
                  (record {
                    pools_nonneg = c;
                    quotas_within = g.0.counters.quotas_within;
                    holds_nonneg = g.0.counters.holds_nonneg;
                  })
                  refl refl,
            )))
        (λ n. Completes-pure tt)

  release_quota-Completes :
      (c k : String) (a : ℤ)
      → leb_ℤ (pos 0) a ≡ true
      → Completes Going (release_quota c k a) (λ _. Going)
  unfolding release_quota update_quotas
  release_quota-Completes c k a h =
      Completes-bind (λ _. Going) _ _
        (Completes-statement quietly (λ _. Going) "release quota"
          (λ w d.
            checked (every within_limit (update (quota_of c k) (giving_back a w.db_clock) d.quotas))
              d (affected (quota_of c k) d.quotas)
              (record d { quotas = update (quota_of c k) (giving_back a w.db_clock) d.quotas }))
          (λ w g.
            let fit =
              giving_back-within c k a w.db_clock w.db.quotas h g.0.counters.quotas_within in
            rw fit (
              affected (quota_of c k) w.db.quotas,
              refl,
              Going-tables w
                  (record w.db {
                    quotas = update (quota_of c k) (giving_back a w.db_clock) w.db.quotas;
                  })
                  g
                  (record {
                    pools_nonneg = g.0.counters.pools_nonneg;
                    quotas_within = fit;
                    holds_nonneg = g.0.counters.holds_nonneg;
                  })
                  refl refl,
            )))
        (λ n. Completes-pure tt)

  update_hold_status-Completes :
      (h : Uuid) (from to : HoldStatus)
      → Completes Going (update_hold_status h from to) (λ _. Going)
  unfolding update_hold_status exec
  update_hold_status-Completes h from to =
      Completes-statement quietly (λ _. Going) "update hold status"
        (λ w d. (
          ok (affected (hold_row h from) d.holds == 1),
          record d { holds = update (hold_row h from) (moving_hold to w.db_clock) d.holds },
        ))
        (λ w g. (
          affected (hold_row h from) w.db.holds == 1,
          refl,
          Going-tables w
              (record w.db {
                holds = update (hold_row h from) (moving_hold to w.db_clock) w.db.holds;
              })
              g
              (record {
                pools_nonneg = g.0.counters.pools_nonneg;
                quotas_within = g.0.counters.quotas_within;
                holds_nonneg =
                    moved_amounts h from to w.db_clock w.db.holds g.0.counters.holds_nonneg;
              })
              refl refl,
        ))

  module _ (D : Doubles F) (text_le : String → String → Bool) (server : Server R) where
    give_back-Completes :
        (c k : String) (a : ℤ)
        → leb_ℤ (pos 0) a ≡ true
        → Completes Going (Release.give_back (production D text_le server) c k a) (λ _. Going)
    give_back-Completes c k a m = elim (Bool-cases (k =ₛ "")) [
      | inl e ↦ rw e (Completes-pure tt)
      | inr e ↦ rw e (release_quota-Completes c k a m)
    ]

    release_hold-Completes :
        (c : String) (ls : List RequestLine) (to : HoldStatus) (h : Hold)
        → has_amount h ≡ true
        → Completes Going
            (Release.release_hold (production D text_le server) c ls to h)
            (λ _. Going)
    unfolding Release.release_hold
    release_hold-Completes c ls to h m =
        Completes-bind (λ _. Going) _ _ (release_pool-Completes h.pool_id h.amount)
          (λ _.
            Completes-bind (λ _. Going) _ _ (give_back-Completes c _ h.amount m)
              (λ _.
                Completes-bind (λ _. Going) _ _ (update_hold_status-Completes h.id hold_active to)
                  (λ _. Completes-pure tt)))

    pub release_holds-Completes :
        (c : String) (ls : List RequestLine) (to : HoldStatus) (hs : List Hold)
        → All (λ h. has_amount h ≡ true) hs
        → Completes Going
            (Release.release_holds (production D text_le server) c ls to hs)
            (λ _. Going)
    unfolding Release.release_holds
    release_holds-Completes c ls to [] m = Completes-pure tt
    release_holds-Completes c ls to (h ∷ hs) m =
        Completes-bind (λ _. Going) _ _ (release_hold-Completes c ls to h m.0)
          (λ _. release_holds-Completes c ls to hs m.1)
