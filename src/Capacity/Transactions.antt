-- ===== src/Capacity/Transactions.antt =====
-- The three transactions that write pools, from sound tables to sound tables.
use cloud_resource_manager.Base.{Bool, ◌≡◌, Option, List, [], ◌∷◌, String, leb}
use cloud_resource_manager.Base.Int.{pos, ◌≤ℤ◌}
use cloud_resource_manager.Base.Action.{Result, ok, err}
use cloud_resource_manager.Base.Table.{select}
use cloud_resource_manager.Base.Table.Laws.{All-select, All-order_by}
use cloud_resource_manager.External.{Doubles}
use cloud_resource_manager.Domain.Types.{
  Uuid, Time, Product, CapacityRequest, RequestLine, RequestEvent, Hold, HoldStatus, RequestStatus,
  hold_active, hold_dedicated,
}
use cloud_resource_manager.Domain.Errors.{Error}
use cloud_resource_manager.Ports.{M}
use cloud_resource_manager.Postgres.Db.{Db, World}
use cloud_resource_manager.Postgres.Logic.{
  Post, Ensures, Keeps, Ensures-bind, Ensures-pure, Ensures-given, Ensures-weaken, Ensures-result,
  Ensures-query,
}
use cloud_resource_manager.Postgres.Requests.{
  create_reserved, list_active_holds, list_lines, active_of,
}
use cloud_resource_manager.Redis.{Server}
use cloud_resource_manager.Deployment.{production}
use cloud_resource_manager.Service.Input.{CreateInput, ReservationPlan}
use cloud_resource_manager.Service.Reserve.{
  build_holds, reserve_one, reserve_each, store_reserved, reserve_body,
}
use cloud_resource_manager.Service.Release.{kind_by_pool, release_hold, release_holds, release_body}
use cloud_resource_manager.Service.Lifecycle.{dedicate_hold, dedicate_holds, confirm_body}
use cloud_resource_manager.Ledger.Sums.{Positive}
use cloud_resource_manager.Ledger.Quiet.{
  Untouched, Quiet, Quiet-bind, Quiet-if, Quiet-pure, Quiet-query, Quiet-new_uuid, quiet_rules,
  ensure_and_try_consume-Quiet, insert_request-Quiet, insert_lines-Quiet, insert_event-Quiet,
  release_quota-Quiet, mark_expired-Quiet, mark_cancelled-Quiet, confirm_request-Quiet,
  create_rejected-Quiet, extend_request-Quiet,
}
use cloud_resource_manager.Ledger.Reserve.{build_lines-Quiet}
use cloud_resource_manager.Ledger.Release.{listing}
use cloud_resource_manager.Ledger.Invariant.{Invariant}
use cloud_resource_manager.Capacity.Room.{Exact}
use cloud_resource_manager.Capacity.Statements.{
  Sound, try_reserve-Sound, release_reserved-Sound, move_reserved_to_dedicated-Sound,
  insert_holds-Sound, update_hold_status-Sound,
}

Sound-Untouched :
    {F : Type 0} (D : Doubles F) {d d' : Db F} → Untouched d d' → Sound D d → Sound D d'
Sound-Untouched D u s = record {
  fits = rw u.pools s.fits;
  counters = rw u.pools s.counters;
  amounts = rw u.holds s.amounts;
}

module _ {F A : Type 0} (D : Doubles F) where
  Post-Untouched :
      {d : Db F} (r : Result Error A) {d' : Db F}
      → Untouched d d'
      → Sound D d
      → Post (λ _. Sound D) r d'
  Post-Untouched (ok a) u s = Sound-Untouched D u s
  Post-Untouched (err e) u s = tt

module _ {F R A : Type 0} (D : Doubles F) where
  Ensures-Quiet-Sound : (m : M (World F R) A) → Quiet m → Ensures (Sound D) m (λ _. Sound D)
  Ensures-Quiet-Sound m q = record { at = λ w s. Post-Untouched D (m w).0 (q.at w) s }

  Keeps-Quiet-Sound : (m : M (World F R) A) → Quiet m → Keeps (Sound D) m
  Keeps-Quiet-Sound m q = record { at = λ w s. Sound-Untouched D (q.at w) s }

module _ {F R : Type 0} (D : Doubles F) (text_le : String → String → Bool) (server : Server R) where
  build_holds-Quiet :
      (id : Uuid) (now : Time) (xs : List ReservationPlan)
      → Quiet (build_holds (production D text_le server) id now xs)
  unfolding build_holds
  build_holds-Quiet id now [] = Quiet-pure []
  build_holds-Quiet id now (x ∷ xs) =
      Quiet-bind _ _ Quiet-new_uuid
        (λ _. Quiet-bind _ _ (build_holds-Quiet id now xs) (λ hs. Quiet-pure _))

  reserve_one-Sound :
      Exact D
      → (c : String) (x : ReservationPlan)
      → Ensures (Sound D) (reserve_one (production D text_le server) c x) (λ _. Sound D)
  unfolding reserve_one
  reserve_one-Sound X c x =
      Ensures-bind (λ _. Sound D) _ _ (try_reserve-Sound D X x.pool_id x.amount)
        (λ got.
          Ensures-Quiet-Sound D _ (search (quiet_rules, ensure_and_try_consume-Quiet) depth 12))

  reserve_each-Sound :
      Exact D
      → (c : String) (xs : List ReservationPlan)
      → Ensures (Sound D) (reserve_each (production D text_le server) c xs) (λ _. Sound D)
  unfolding reserve_each
  reserve_each-Sound X c [] = Ensures-pure tt (λ d s. s)
  reserve_each-Sound X c (x ∷ xs) =
      Ensures-bind (λ _. Sound D) _ _ (reserve_one-Sound X c x) (λ _. reserve_each-Sound X c xs)

  create_reserved-Sound :
      (req : CapacityRequest) (ls : List RequestLine) (hs : List Hold) (ev : RequestEvent)
      → Ensures {R = R} (Sound D) (create_reserved req ls hs ev) (λ _. Sound D)
  unfolding create_reserved
  create_reserved-Sound req ls hs ev =
      Ensures-bind (λ _. Sound D) _ _ (Ensures-Quiet-Sound D _ (insert_request-Quiet _ _))
        (λ _.
          Ensures-bind (λ _. Sound D) _ _ (Ensures-Quiet-Sound D _ (insert_lines-Quiet ls))
            (λ _.
              Ensures-bind (λ _. Sound D) _ _ (insert_holds-Sound D hs)
                (λ _. Ensures-Quiet-Sound D _ (insert_event-Quiet ev))))

  store_reserved-Sound :
      (plans : List ReservationPlan) (req : CapacityRequest) (id : Uuid) (now : Time)
      → Ensures
          (Sound D)
          (store_reserved (production D text_le server) plans req id now)
          (λ _. Sound D)
  unfolding store_reserved
  store_reserved-Sound plans req id now =
      Ensures-bind (λ _. Sound D) _ _
        (Ensures-Quiet-Sound D _ (build_lines-Quiet D text_le server id plans))
        (λ ls.
          Ensures-bind (λ _. Sound D) _ _ (Ensures-Quiet-Sound D _ (build_holds-Quiet id now plans))
            (λ hs.
              Ensures-bind (λ _. Sound D) _ _ (Ensures-Quiet-Sound D _ Quiet-new_uuid)
                (λ ev_id.
                  Ensures-bind (λ _. Sound D) _ _ (create_reserved-Sound req ls hs _)
                    (λ _. Ensures-pure req (λ d s. s)))))

  reserve_body-Sound :
      Exact D
      → (plans : List ReservationPlan) (product : Option Product) (i : CreateInput) (id : Uuid)
        (now expires : Time) (body_hash : String)
      → Ensures
          (Sound D)
          (reserve_body (production D text_le server) plans product i id now expires body_hash)
          (λ _. Sound D)
  unfolding reserve_body
  reserve_body-Sound X plans product i id now expires body_hash =
      Ensures-bind (λ _. Sound D) _ _ (reserve_each-Sound X i.customer_id plans)
        (λ _. store_reserved-Sound plans _ id now)

  -- The holds that a listing returns have positive amounts.
  list_active_holds-Sound :
      (id : Uuid)
      → Ensures {R = R} (Sound D) (list_active_holds id) (λ hs d. Sound D d × Positive hs)
  unfolding list_active_holds
  list_active_holds-Sound id =
      Ensures-result (λ hs d. Sound D d × (hs ≡ listing id d)) _
        (λ hs d p. (p.0, rw p.1 (positive d p.0))) (Ensures-query "list holds" (listing id))
    where
      positive : (d : Db F) → Sound D d → Positive (listing id d)
      positive d s =
          All-order_by (λ h. pos 1 ≤ℤ h.amount) (λ p q. leb p.pool_id q.pool_id)
            (select (active_of id) d.holds)
            (All-select (λ h. pos 1 ≤ℤ h.amount) (active_of id) d.holds s.amounts)

  list_lines-Quiet : (id : Uuid) → Quiet {F = F} {R = R} (list_lines id)
  unfolding list_lines
  list_lines-Quiet id = Quiet-query "list lines" _

  release_hold-Sound :
      (c : String) (lines : List RequestLine) (to : HoldStatus) (h : Hold)
      → pos 1 ≤ℤ h.amount
      → Ensures (Sound D) (release_hold (production D text_le server) c lines to h) (λ _. Sound D)
  unfolding release_hold
  release_hold-Sound c lines to h a =
      Ensures-bind (λ _. Sound D) _ _ (release_reserved-Sound D h.pool_id h.amount a)
        (λ _.
          Ensures-bind (λ _. Sound D) _ _
            (Ensures-Quiet-Sound D _ (
              Quiet-if _ _ _ (Quiet-pure tt)
                (release_quota-Quiet c (kind_by_pool "" lines h.pool_id) h.amount)))
            (λ _.
              Ensures-bind (λ _. Sound D) _ _ (update_hold_status-Sound D h.id hold_active to)
                (λ _. Ensures-pure tt (λ d s. s))))

  release_holds-Sound :
      (c : String) (lines : List RequestLine) (to : HoldStatus) (hs : List Hold)
      → Positive hs
      → Ensures (Sound D) (release_holds (production D text_le server) c lines to hs) (λ _. Sound D)
  unfolding release_holds
  release_holds-Sound c lines to [] a = Ensures-pure tt (λ d s. s)
  release_holds-Sound c lines to (h ∷ hs) a =
      Ensures-bind (λ _. Sound D) _ _ (release_hold-Sound c lines to h a.0)
        (λ _. release_holds-Sound c lines to hs a.1)

  release_body-Sound :
      (req : CapacityRequest) (terminal : RequestStatus) (now : Time)
      → Ensures
          (Sound D)
          (release_body (production D text_le server) req terminal now)
          (λ _. Sound D)
  unfolding release_body
  release_body-Sound req terminal now =
      Ensures-bind (λ hs d. Sound D d × Positive hs) _ _ (list_active_holds-Sound req.id)
        (λ hs.
          Ensures-given (Positive hs) _ (λ d p. p.1)
            (λ a.
              Ensures-weaken (Sound D) _ (λ d p. p.0)
                (Ensures-bind (λ _. Sound D) _ _ (Ensures-Quiet-Sound D _ (list_lines-Quiet req.id))
                  (λ lines.
                    Ensures-bind (λ _. Sound D) _ _
                      (release_holds-Sound req.customer_id lines _ hs a)
                      (λ _. Ensures-Quiet-Sound D _ (
                        search (quiet_rules, mark_expired-Quiet, mark_cancelled-Quiet) depth 8))))))

  dedicate_hold-Sound :
      (id : Uuid) (now : Time) (h : Hold)
      → Ensures (Sound D) (dedicate_hold (production D text_le server) id now h) (λ _. Sound D)
  unfolding dedicate_hold
  dedicate_hold-Sound id now h =
      Ensures-bind (λ _. Sound D) _ _ (move_reserved_to_dedicated-Sound D h.pool_id h.amount)
        (λ _.
          Ensures-bind (λ _. Sound D) _ _
            (update_hold_status-Sound D h.id hold_active hold_dedicated)
            (λ got. Ensures-Quiet-Sound D _ (search quiet_rules depth 8)))

  dedicate_holds-Sound :
      (id : Uuid) (now : Time) (hs : List Hold)
      → Ensures (Sound D) (dedicate_holds (production D text_le server) id now hs) (λ _. Sound D)
  unfolding dedicate_holds
  dedicate_holds-Sound id now [] = Ensures-pure [] (λ d s. s)
  dedicate_holds-Sound id now (h ∷ hs) =
      Ensures-bind (λ _. Sound D) _ _ (dedicate_hold-Sound id now h)
        (λ x.
          Ensures-bind (λ _. Sound D) _ _ (dedicate_holds-Sound id now hs)
            (λ xs. Ensures-pure (x ∷ xs) (λ d s. s)))

  confirm_body-Sound :
      (id : Uuid) (now : Time)
      → Ensures (Sound D) (confirm_body (production D text_le server) id now) (λ _. Sound D)
  unfolding confirm_body
  confirm_body-Sound id now =
      Ensures-bind (λ _. Sound D) _ _
        (Ensures-result (λ hs d. Sound D d × Positive hs) _ (λ hs d p. p.0)
          (list_active_holds-Sound id))
        (λ hs.
          Ensures-bind (λ _. Sound D) _ _ (dedicate_holds-Sound id now hs)
            (λ xs. Ensures-Quiet-Sound D _ (search (quiet_rules, confirm_request-Quiet) depth 8)))

  -- Soundness is an invariant of the service.
  pub Sound-Invariant : Exact D → Invariant D text_le server (Sound D)
  Sound-Invariant X = record {
    recording = λ r ls e. Keeps-Quiet-Sound D _ (create_rejected-Quiet r ls e);
    extending = λ id t n e. Keeps-Quiet-Sound D _ (extend_request-Quiet id t n e);
    reserving = reserve_body-Sound X;
    releasing = release_body-Sound;
    confirming = confirm_body-Sound;
  }
