-- ===== src/Behaviour/Completion/Cancelling.antt =====
-- internal/service/capacity.go: Cancel returns where no statement fails.
use cloud_resource_manager.Base.{
  ◌≡◌, refl, sym, ◌∙◌, ap, Bool, true, false, Option, some, List, [], ◌∷◌, String, ◌==◌, inl, inr,
  Bool-cases, ==-eq,
}
use cloud_resource_manager.Base.Action.{ok, continue}
use cloud_resource_manager.Base.Table.{find, exists, All}
use cloud_resource_manager.External.{Doubles}
use cloud_resource_manager.Domain.Types.{
  Uuid, Time, CapacityRequest, RequestEvent, RequestStatus, status_is, status_reserved,
  status_cancelled,
}
use cloud_resource_manager.Ports.{Metric, reservation_cancels}
use cloud_resource_manager.Postgres.Db.{World, query, next_fault}
use cloud_resource_manager.Postgres.Total.{
  Completes-given, Completes, Completes-pure, Completes-bind, statement-quiet, within_tx-quiet,
}
use cloud_resource_manager.Postgres.Requests.{get_request, set_status}
use cloud_resource_manager.Redis.{Server}
use cloud_resource_manager.Deployment.{production, now, count, on_redis}
use cloud_resource_manager.Service.Release
use cloud_resource_manager.Service.Lifecycle.{cancel, cancel_reserved, cancel_found}
use cloud_resource_manager.Behaviour.Repetition.{cancel-cancelled}
use cloud_resource_manager.Behaviour.Completion.{
  MeetsChecks, has_amount, Running, Going, list_active_holds-Completes, list_lines-Completes,
  release_holds-Completes,
}
use cloud_resource_manager.Behaviour.Completion.Marks.{
  Marked, marked_rows, new_uuid-Completes, mark_cancelled-Completes,
}

module _ {F R : Type 0} (D : Doubles F) (text_le : String → String → Bool) (server : Server R)
    (rs : List CapacityRequest) (t : Time) (ev : Uuid) (r : CapacityRequest) (s : RequestStatus)
    (marks : (e : RequestEvent)
      → e.id ≡ ev
      → Completes {F = F} {R = R}
          (Running rs t ev)
          (Release.mark (production D text_le server) s r.id e)
          (λ _. Marked (marked_rows rs t r.id s))) where
  release_body-Completes :
      (at : Time)
      → Completes
          (Going rs t ev)
          (Release.release_body (production D text_le server) r s at)
          (λ _. Marked (marked_rows rs t r.id s))
  unfolding Release.release_body
  release_body-Completes at =
      Completes-bind (λ hs w. Going rs t ev w × All (λ h. has_amount h ≡ true) hs) _ _
        (list_active_holds-Completes rs t ev r.id)
        (λ hs. Completes-given (All (λ h. has_amount h ≡ true) hs) _ (λ amounts.
          Completes-bind (λ _. Going rs t ev) _ _ (list_lines-Completes rs t ev r.id)
            (λ ls.
              Completes-bind (λ _. Going rs t ev) _ _
                (release_holds-Completes rs t ev D text_le server r.customer_id ls _ hs amounts)
                (λ _.
                  Completes-bind (λ a w. Running rs t ev w × (a ≡ ev)) _ _
                    (new_uuid-Completes rs t ev)
                    (λ a.
                      Completes-bind (λ _. Marked (marked_rows rs t r.id s)) _ _
                        (record { at = λ w (run, e). (marks _ e).at w run })
                        (λ _. Completes-pure tt))))))

  -- The transaction commits.
  release_reserved-Completes :
      Completes
        (Going rs t ev)
        (Release.release_reserved (production D text_le server) r s)
        (λ _. Marked (marked_rows rs t r.id s))
  unfolding Release.release_reserved now
  release_reserved-Completes = record {
    at = λ w (run, n).
        let (a, w', e, m) =
          (release_body-Completes w.clock).at (record w { faults = [] })
            (
              record {
                quiet = refl;
                counters = run.counters;
                rows = run.rows;
                time = run.time;
                free = run.free;
              },
              n,
            ) in
        (
          a,
          record w' { faults = [] },
          within_tx-quiet w run.quiet
              (Release.release_body (production D text_le server) r s w.clock) e m.quiet,
          record { quiet = refl; rows = m.rows },
        );
  }

module _ {F R : Type 0} where
  get_request-quiet :
      (id : Uuid) (w : World F R)
      → w.faults ≡ []
      → {found : Option CapacityRequest} → find (λ x. x.id == id) w.db.requests ≡ found
      → get_request id w ≡ (ok found, record w { faults = [] })
  unfolding get_request query
  get_request-quiet id w quiet e =
      statement-quiet w quiet "get request" (λ d. (ok (find (λ x. x.id == id) d.requests), d))
        (ap (λ (o : Option CapacityRequest). ok o) e)

module _ {F R : Type 0} {rs : List CapacityRequest} where
  count-Completes : (x : Metric F) → Completes {R = R} (Marked rs) (count x) (λ _. Marked rs)
  unfolding count
  count-Completes x = record {
    at = λ w m. (tt, _, refl, record { quiet = m.quiet; rows = m.rows });
  }

  read_back :
      (id : Uuid)
      → Completes {F = F} {R = R}
          (Marked rs)
          (get_request id)
          (λ a w. (a ≡ find (λ x. x.id == id) rs) × Marked rs w)
  unfolding get_request query
  read_back id = record {
    at = λ w m. (
      find (λ x. x.id == id) w.db.requests,
      record w { faults = [] },
      statement-quiet w m.quiet "get request" (λ d. (ok (find (λ x. x.id == id) d.requests), d))
          refl,
      (
        ap (find (λ (x : CapacityRequest). x.id == id)) m.rows,
        record { quiet = refl; rows = m.rows },
      ),
    );
  }

-- The request that is marked is found so.
find_marked :
    (id : Uuid) (s : RequestStatus) (t : Time) (rs : List CapacityRequest) {r : CapacityRequest}
    → r.status ≡ status_reserved
    → find (λ x. x.id == id) rs ≡ some r
    → find (λ x. x.id == id) (marked_rows rs t id s) ≡ some (set_status s t r)
find_marked id s t [] q f = cc
find_marked id s t (x ∷ xs) {r} q f = elim (Bool-cases (x.id == id)) [
  | inl e ↦
      let found : some x ≡ some r = rw e at f in
      let same : x ≡ r = cc in
      let reserved : status_is x.status status_reserved ≡ true =
        ap (λ (y : CapacityRequest). status_is y.status status_reserved) same
        ∙ ap (λ z. status_is z status_reserved) q in
      rw (e, reserved) (rw e (ap (λ y. some (set_status s t y)) same))
  | inr e ↦ rw e (rw e (find_marked id s t xs {r = r} q (rw e at f)))
]

found_id :
    (id : Uuid) (rs : List CapacityRequest) {r : CapacityRequest}
    → find (λ x. x.id == id) rs ≡ some r
    → r.id ≡ id
found_id id [] f = cc
found_id id (x ∷ xs) {r} f = elim (Bool-cases (x.id == id)) [
  | inl e ↦
      let found : some x ≡ some r = rw e at f in
      let same : x ≡ r = cc in sym (ap (λ (y : CapacityRequest). y.id) same) ∙ ==-eq x.id id e
  | inr e ↦ found_id id xs {r = r} (rw e at f)
]

module _ {F R : Type 0} (D : Doubles F) (text_le : String → String → Bool) (server : Server R) where
  cancel_reserved-Completes :
      (rs : List CapacityRequest) (t : Time) (ev : Uuid) (r : CapacityRequest)
      → Completes (Going rs t ev) (cancel_reserved (production D text_le server) r.id r) (λ a w.
        (a ≡ find (λ x. x.id == r.id) (marked_rows rs t r.id status_cancelled))
        × Marked (marked_rows rs t r.id status_cancelled) w)
  unfolding cancel_reserved on_redis
  cancel_reserved-Completes rs t ev r =
      let rs' = marked_rows rs t r.id status_cancelled in
      Completes-bind (λ _. Marked rs') _ _
        (release_reserved-Completes D text_le server rs t ev r status_cancelled
          (λ e same. mark_cancelled-Completes rs t ev r.id e same))
        (λ _.
          Completes-bind (λ _. Marked rs') _ _ (count-Completes reservation_cancels)
            (λ _.
              Completes-bind (λ _. Marked rs') _ _
                (record { at = λ w m. (tt, _, refl, record { quiet = m.quiet; rows = m.rows }) })
                (λ _. read_back r.id)))

  first_read :
      (id : Uuid) (r : CapacityRequest) (w : World F R)
      → w.faults ≡ []
      → find (λ x. x.id == id) w.db.requests ≡ some r
      → r.status ≡ status_reserved
      → cancel (production D text_le server) id w
        ≡ cancel_reserved (production D text_le server) id r (record w { faults = [] })
  unfolding cancel
  first_read id r w quiet found reserved =
      ap (λ x. continue x.0 (cancel_found (production D text_le server) id) x.1)
        (get_request-quiet id w quiet found)
      ∙ rw reserved refl

  cancel_once :
      (id : Uuid) (r : CapacityRequest) (w : World F R)
      → w.faults ≡ []
      → MeetsChecks w.db
      → find (λ x. x.id == id) w.db.requests ≡ some r
      → r.status ≡ status_reserved
      → exists (λ e. e.id == w.uuids w.drawn) w.db.events ≡ false
      → (w' : World F R) × (cancel (production D text_le server) id w
          ≡ (ok (some (set_status status_cancelled w.db_clock r)), w'))
        × (find (λ x. x.id == id) w'.db.requests ≡ some (set_status status_cancelled w.db_clock r))
        × (w'.faults ≡ [])
  cancel_once id r w quiet signs found reserved free =
      let same = found_id id w.db.requests {r = r} found in
      let (a, w', e, (answer, m)) =
        (cancel_reserved-Completes w.db.requests w.db_clock (w.uuids w.drawn) r).at
          (record w { faults = [] })
          (
            record { quiet = refl; counters = signs; rows = refl; time = refl; free = free },
            refl,
          ) in
      let there = find_marked id status_cancelled w.db_clock w.db.requests {r = r} reserved found in
      (
        w',
        first_read id r w quiet found reserved
            ∙ ap (λ k. cancel_reserved (production D text_le server) k r (record w { faults = [] }))
                (sym same)
            ∙ e
            ∙ ap (λ o. (ok o, w'))
                (answer
                  ∙ ap
                      (λ k.
                        find (λ (x : CapacityRequest). x.id == k)
                          (marked_rows w.db.requests w.db_clock k status_cancelled))
                      same
                  ∙ there),
        ap (find (λ (x : CapacityRequest). x.id == id))
              (m.rows ∙ ap (λ k. marked_rows w.db.requests w.db_clock k status_cancelled) same)
            ∙ there,
        m.quiet,
      )

  -- Cancel of a RESERVED request returns it as CANCELLED, and leaves it so in the table, where no
  -- statement is to fail, the pools, quotas and holds meet the CHECKs of the schema, and the next
  -- identifier that is drawn is that of no event.
  pub cancel-Completes :
      (id : Uuid) (r : CapacityRequest) (w : World F R)
      → w.faults ≡ []
      → MeetsChecks w.db
      → find (λ x. x.id == id) w.db.requests ≡ some r
      → r.status ≡ status_reserved
      → exists (λ e. e.id == w.uuids w.drawn) w.db.events ≡ false
      → (w' : World F R) × (cancel (production D text_le server) id w
          ≡ (ok (some (set_status status_cancelled w.db_clock r)), w'))
        × (find (λ x. x.id == id) w'.db.requests ≡ some (set_status status_cancelled w.db_clock r))
  cancel-Completes id r w quiet checks found reserved free =
      let (w', e, there, calm) = cancel_once id r w quiet checks found reserved free in
      (w', e, there)

  -- Cancel of a RESERVED request and Cancel of it once more: the second returns what the first did,
  -- and leaves the tables as the first left them, where no statement is to fail, the pools, quotas
  -- and holds meet the CHECKs of the schema, and the next identifier that is drawn is that of no
  -- event.
  pub cancel-twice :
      (id : Uuid) (r : CapacityRequest) (w : World F R)
      → w.faults ≡ []
      → MeetsChecks w.db
      → find (λ x. x.id == id) w.db.requests ≡ some r
      → r.status ≡ status_reserved
      → exists (λ e. e.id == w.uuids w.drawn) w.db.events ≡ false
      → ((cancel (production D text_le server) id (cancel (production D text_le server) id w).1).0
          ≡ (cancel (production D text_le server) id w).0)
        × ((cancel
              (production D text_le server)
              id
              (cancel (production D text_le server) id w).1).1.db
            ≡ (cancel (production D text_le server) id w).1.db)
  cancel-twice id r w quiet checks found reserved free =
      let (w', e, there, calm) = cancel_once id r w quiet checks found reserved free in
      let (answer, kept) =
        cancel-cancelled D text_le server id (set_status status_cancelled w.db_clock r) w'
          (ap next_fault calm) there refl in
      (
        ap (λ x. (cancel (production D text_le server) id x.1).0) e
            ∙ answer
            ∙ sym (ap (λ x. x.0) e),
        ap (λ x. (cancel (production D text_le server) id x.1).1.db) e
            ∙ kept
            ∙ sym (ap (λ x. x.1.db) e),
      )
