-- ===== src/Behaviour/Completion/Marks.antt =====
-- internal/repository/postgres/requests.go: MarkCancelled and MarkExpired, where no statement is to
-- fail.
use cloud_resource_manager.Base.{
  ◌≡◌, refl, ◌∙◌, ap, true, false, List, [], ◌∷◌, ◌==◌, inl, inr, Bool-cases, ℕ,
}
use cloud_resource_manager.Base.Action.{ok}
use cloud_resource_manager.Base.Table.{update, affected, exists}
use cloud_resource_manager.Domain.Types.{
  Uuid, Time, CapacityRequest, RequestEvent, RequestStatus, status_cancelled, status_expired,
}
use cloud_resource_manager.Domain.Errors.{dependency}
use cloud_resource_manager.Postgres.Db.{World, exec, insert_row}
use cloud_resource_manager.Postgres.Total.{
  Completes, Completes-pure, Completes-bind, Completes-statement,
}
use cloud_resource_manager.Postgres.Requests.{
  reserved_row, set_status, update_reserved, insert_event, mark_terminal, mark_cancelled,
  mark_expired, unless_none,
}
use cloud_resource_manager.Deployment.{new_uuid}
use cloud_resource_manager.Behaviour.Completion.{Running, Going}

-- The requests, where no statement is to fail.
pub record Marked {F R : Type 0} (rs : List CapacityRequest) (w : World F R) : Type 0 where
  pub quiet : w.faults ≡ []
  pub rows : w.db.requests ≡ rs

module _ {F R : Type 0} (rs : List CapacityRequest) (t : Time) (ev : Uuid) where
  pub new_uuid-Completes :
      Completes {F = F} {R = R} (Going rs t ev) new_uuid (λ a w. Running rs t ev w × (a ≡ ev))
  unfolding new_uuid
  new_uuid-Completes = record {
    at = λ w (r, n). (
      w.uuids w.drawn,
      _,
      refl,
      (
        record {
          quiet = r.quiet;
          counters = r.counters;
          rows = r.rows;
          time = r.time;
          free = r.free;
        },
        n,
      ),
    );
  }

  insert_event-Completes :
      (e : RequestEvent)
      → e.id ≡ ev
      → Completes {F = F} {R = R} (Running rs t ev) (insert_event e) (λ _. Marked rs)
  unfolding insert_event
  insert_event-Completes e same =
      Completes-statement (λ w r. Running.quiet r) (λ _. Marked rs) "insert event"
        (λ w d.
          insert_row (exists (λ x. x.id == e.id) d.events) (dependency "insert event") d
            (record d { events = e ∷ d.events }))
        (λ w r.
          let free : exists (λ x. x.id == e.id) w.db.events ≡ false =
            ap (λ k. exists (λ (x : RequestEvent). x.id == k) w.db.events) same ∙ r.free in
          rw free (tt, refl, record { quiet = refl; rows = r.rows }))

  finished :
      (n : ℕ) (e : RequestEvent)
      → e.id ≡ ev
      → Completes {F = F} {R = R}
          (Running rs t ev)
          (unless_none n (insert_event e))
          (λ _. Marked rs)
  finished n e same = elim (Bool-cases (n == 0)) [
    | inl z ↦
        rw z (record { at = λ w r. (false, w, refl, record { quiet = r.quiet; rows = r.rows }) })
    | inr z ↦ rw z (
        Completes-bind (λ _. Marked rs) _ _ (insert_event-Completes e same)
          (λ _. Completes-pure true))
  ]

-- The requests behind the UPDATE.
abbrev pub marked_rows : List CapacityRequest → Time → Uuid → RequestStatus → List CapacityRequest
marked_rows rs t id s = update (reserved_row id) (set_status s t) rs

module _ {F R : Type 0} (rs : List CapacityRequest) (t : Time) (ev : Uuid) (id : Uuid)
    (s : RequestStatus) where
  update_reserved-Completes :
      Completes {F = F} {R = R}
        (Running rs t ev)
        (update_reserved "mark terminal" id (set_status s))
        (λ _. Running (marked_rows rs t id s) t ev)
  unfolding update_reserved exec
  update_reserved-Completes =
      Completes-statement (λ w r. Running.quiet r) (λ _. Running (marked_rows rs t id s) t ev)
        "mark terminal"
        (λ w d. (
          ok (affected (reserved_row id) d.requests),
          record d { requests = update (reserved_row id) (set_status s w.db_clock) d.requests },
        ))
        (λ w r. (
          affected (reserved_row id) w.db.requests,
          refl,
          record {
            quiet = refl;
            counters = record {
              pools_nonneg = r.counters.pools_nonneg;
              quotas_within = r.counters.quotas_within;
              holds_nonneg = r.counters.holds_nonneg;
            };
            rows =
                ap (λ (now : Time). update (reserved_row id) (set_status s now) w.db.requests)
                  r.time
                ∙ ap (λ (xs : List CapacityRequest). update (reserved_row id) (set_status s t) xs)
                    r.rows;
            time = r.time;
            free = r.free;
          },
        ))

  pub mark_terminal-Completes :
      (e : RequestEvent)
      → e.id ≡ ev
      → Completes {F = F} {R = R}
          (Running rs t ev)
          (mark_terminal id s e)
          (λ _. Marked (marked_rows rs t id s))
  unfolding mark_terminal
  mark_terminal-Completes e same =
      Completes-bind (λ _. Running (marked_rows rs t id s) t ev) _ _ update_reserved-Completes
        (λ n. finished (marked_rows rs t id s) t ev n e same)

module _ {F R : Type 0} (rs : List CapacityRequest) (t : Time) (ev : Uuid) (id : Uuid)
    (e : RequestEvent) (same : e.id ≡ ev) where
  pub mark_cancelled-Completes :
      Completes {F = F} {R = R}
        (Running rs t ev)
        (mark_cancelled id e)
        (λ _. Marked (marked_rows rs t id status_cancelled))
  unfolding mark_cancelled
  mark_cancelled-Completes = mark_terminal-Completes rs t ev id status_cancelled e same

  pub mark_expired-Completes :
      Completes {F = F} {R = R}
        (Running rs t ev)
        (mark_expired id e)
        (λ _. Marked (marked_rows rs t id status_expired))
  unfolding mark_expired
  mark_expired-Completes = mark_terminal-Completes rs t ev id status_expired e same
