-- ===== src/Behaviour/RowWrites.antt =====
-- internal/repository/postgres: every statement keeps a predicate on the rows of requests.
use cloud_resource_manager.Base.{Bool, List, [], ◌∷◌, String, arith}
use cloud_resource_manager.Base.Int.{ℤ}
use cloud_resource_manager.External.{Doubles}
use cloud_resource_manager.Domain.Types.{
  Uuid, Time, CapacityRequest, RequestLine, RequestEvent, Dedication, Hold, HoldStatus,
  ResourcePool,
}
use cloud_resource_manager.Postgres.Logic.{Keeps, Keeps-bind, Keeps-pure, Keeps-query}
use cloud_resource_manager.Postgres.Pools.{
  try_reserve, release_reserved, move_reserved_to_dedicated, update_pools, covers, reservable,
  reserving, releasing, dedicating,
}
use cloud_resource_manager.Postgres.Quotas.{
  release_quota, ensure_quota, try_consume, ensure_and_try_consume,
}
use cloud_resource_manager.Postgres.Requests.{
  insert_line, insert_lines, insert_hold, insert_holds, insert_event, insert_dedication,
  insert_dedications, create_reserved, create_rejected, confirm_request, mark_cancelled,
  mark_expired, extend_request, update_hold_status, list_active_holds, list_lines,
}
use cloud_resource_manager.Ledger.Calls.{keeps_rules}
use cloud_resource_manager.Behaviour.Rows.{
  Closed, OnRequests, status-Rows, expiry-Rows, insert_request-Rows, Rows-elsewhere,
}

module _ {F R : Type 0} (Q : List CapacityRequest → Type 0) where
  pub insert_line-Rows : (l : RequestLine) → Keeps {F = F} {R = R} (OnRequests Q) (insert_line l)
  unfolding insert_line
  insert_line-Rows l = Rows-elsewhere Q _ (λ w. ground arith)

  pub insert_lines-Rows :
      (ls : List RequestLine) → Keeps {F = F} {R = R} (OnRequests Q) (insert_lines ls)
  unfolding insert_lines
  insert_lines-Rows [] = Keeps-pure tt
  insert_lines-Rows (l ∷ ls) = Keeps-bind _ _ (insert_line-Rows l) (λ _. insert_lines-Rows ls)

  pub insert_hold-Rows : (h : Hold) → Keeps {F = F} {R = R} (OnRequests Q) (insert_hold h)
  unfolding insert_hold
  insert_hold-Rows h = Rows-elsewhere Q _ (λ w. ground arith)

  pub insert_holds-Rows : (hs : List Hold) → Keeps {F = F} {R = R} (OnRequests Q) (insert_holds hs)
  unfolding insert_holds
  insert_holds-Rows [] = Keeps-pure tt
  insert_holds-Rows (h ∷ hs) = Keeps-bind _ _ (insert_hold-Rows h) (λ _. insert_holds-Rows hs)

  pub insert_event-Rows : (e : RequestEvent) → Keeps {F = F} {R = R} (OnRequests Q) (insert_event e)
  unfolding insert_event
  insert_event-Rows e = Rows-elsewhere Q _ (λ w. ground arith)

  pub insert_dedication-Rows :
      (x : Dedication) → Keeps {F = F} {R = R} (OnRequests Q) (insert_dedication x)
  unfolding insert_dedication
  insert_dedication-Rows x = Rows-elsewhere Q _ (λ w. ground arith)

  pub insert_dedications-Rows :
      (xs : List Dedication) → Keeps {F = F} {R = R} (OnRequests Q) (insert_dedications xs)
  unfolding insert_dedications
  insert_dedications-Rows [] = Keeps-pure tt
  insert_dedications-Rows (x ∷ xs) =
      Keeps-bind _ _ (insert_dedication-Rows x) (λ _. insert_dedications-Rows xs)

  pub update_hold_status-Rows :
      (h : Uuid) (from to : HoldStatus)
      → Keeps {F = F} {R = R} (OnRequests Q) (update_hold_status h from to)
  unfolding update_hold_status
  update_hold_status-Rows h from to = Rows-elsewhere Q _ (λ w. ground arith)

  pub update_pools-Rows :
      (label : String) (b : ResourcePool F → Bool) (f : Time → ResourcePool F → ResourcePool F)
      → Keeps {F = F} {R = R} (OnRequests Q) (update_pools label b f)
  unfolding update_pools
  update_pools-Rows label b f = Rows-elsewhere Q _ (λ w. ground arith)

  pub try_reserve-Rows :
      (D : Doubles F) (p : Uuid) (a : ℤ) → Keeps {R = R} (OnRequests Q) (try_reserve D p a)
  unfolding try_reserve
  try_reserve-Rows D p a =
      Keeps-bind _ _ (update_pools-Rows "try reserve pool" (reservable D p a) (reserving a))
        (λ k. Keeps-pure _)

  pub release_reserved-Rows :
      (p : Uuid) (a : ℤ) → Keeps {F = F} {R = R} (OnRequests Q) (release_reserved p a)
  unfolding release_reserved
  release_reserved-Rows p a =
      Keeps-bind _ _ (update_pools-Rows "release reserved pool" (covers p a) (releasing a))
        (λ k. Keeps-pure tt)

  pub move_reserved_to_dedicated-Rows :
      (p : Uuid) (a : ℤ) → Keeps {F = F} {R = R} (OnRequests Q) (move_reserved_to_dedicated p a)
  unfolding move_reserved_to_dedicated
  move_reserved_to_dedicated-Rows p a =
      Keeps-bind _ _
        (update_pools-Rows "move reserved to dedicated pool" (covers p a) (dedicating a))
        (λ k. Keeps-pure tt)

  pub release_quota-Rows :
      (c k : String) (a : ℤ) → Keeps {F = F} {R = R} (OnRequests Q) (release_quota c k a)
  unfolding release_quota
  release_quota-Rows c k a = Rows-elsewhere Q _ (λ w. ground arith)

  pub consume-Rows :
      (c k : String) (a l : ℤ)
      → Keeps {F = F} {R = R} (OnRequests Q) (ensure_and_try_consume c k a l)
  unfolding ensure_and_try_consume
  consume-Rows c k a l =
      Keeps-bind _ _ (Rows-elsewhere Q (ensure_quota c k l) (λ w. ground arith))
        (λ _. Rows-elsewhere Q (try_consume c k a) (λ w. ground arith))

  pub list_active_holds-Rows :
      (r : Uuid) → Keeps {F = F} {R = R} (OnRequests Q) (list_active_holds r)
  unfolding list_active_holds
  list_active_holds-Rows r = Keeps-query _ _

  pub list_lines-Rows : (r : Uuid) → Keeps {F = F} {R = R} (OnRequests Q) (list_lines r)
  unfolding list_lines
  list_lines-Rows r = Keeps-query _ _

module _ {F R : Type 0} {Q : List CapacityRequest → Type 0} (law : Closed Q) where
  pub confirm_request-Rows :
      (row : Uuid) (ds : List Dedication) (e : RequestEvent)
      → Keeps {F = F} {R = R} (OnRequests Q) (confirm_request row ds e)
  unfolding confirm_request
  confirm_request-Rows row ds e =
      search (keeps_rules, status-Rows law, insert_dedications-Rows Q, insert_event-Rows Q) depth 12

  pub mark_cancelled-Rows :
      (row : Uuid) (e : RequestEvent) → Keeps {F = F} {R = R} (OnRequests Q) (mark_cancelled row e)
  unfolding mark_cancelled
  mark_cancelled-Rows row e = search (keeps_rules, status-Rows law, insert_event-Rows Q) depth 12

  pub mark_expired-Rows :
      (row : Uuid) (e : RequestEvent) → Keeps {F = F} {R = R} (OnRequests Q) (mark_expired row e)
  unfolding mark_expired
  mark_expired-Rows row e = search (keeps_rules, status-Rows law, insert_event-Rows Q) depth 12

  pub extend_request-Rows :
      (row : Uuid) (t : Time) (k : ℤ) (e : RequestEvent)
      → Keeps {F = F} {R = R} (OnRequests Q) (extend_request row t k e)
  unfolding extend_request
  extend_request-Rows row t k e =
      Keeps-bind _ _ (expiry-Rows law row t k)
        (λ j. search (keeps_rules, insert_event-Rows Q) depth 10)

  pub create_rejected-Rows :
      (r : CapacityRequest) (ls : List RequestLine) (e : RequestEvent)
      → Keeps {F = F} {R = R} (OnRequests Q) (create_rejected r ls e)
  unfolding create_rejected
  create_rejected-Rows r ls e =
      search (keeps_rules, insert_request-Rows law, insert_lines-Rows Q, insert_event-Rows Q) depth
        10

  pub create_reserved-Rows :
      (r : CapacityRequest) (ls : List RequestLine) (hs : List Hold) (e : RequestEvent)
      → Keeps {F = F} {R = R} (OnRequests Q) (create_reserved r ls hs e)
  unfolding create_reserved
  create_reserved-Rows r ls hs e =
      search
        (
          keeps_rules,
          insert_request-Rows law,
          insert_lines-Rows Q,
          insert_holds-Rows Q,
          insert_event-Rows Q,
        )
        depth 12
