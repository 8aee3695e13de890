-- ===== src/Ledger/Quiet.antt =====
-- Actions that write neither pools nor holds, and so leave the ledger alone.
use cloud_resource_manager.Base.{
  Bool, true, false, ◌≡◌, refl, ◌∙◌, List, [], ◌∷◌, String, arith, inl, inr, if◌then◌else◌,
  Bool-cases,
}
use cloud_resource_manager.Base.Int.{ℤ}
use cloud_resource_manager.Base.Action.{
  Result, ok, err, Action, pure, fail, fail_if, lift, continue, ◌>>=◌,
}
use cloud_resource_manager.Domain.Types.{
  Uuid, Time, CapacityRequest, RequestLine, Hold, Dedication, RequestEvent,
}
use cloud_resource_manager.Domain.Errors.{Error}
use cloud_resource_manager.Ports.{M, Metric}
use cloud_resource_manager.Postgres.Db.{Db, World, statement, query, next_fault}
use cloud_resource_manager.Postgres.Logic.{Post, Ensures, Keeps, Ensures-weaken, Ensures-result}
use cloud_resource_manager.Postgres.Quotas.{ensure_and_try_consume, release_quota}
use cloud_resource_manager.Postgres.Requests.{
  insert_request, insert_line, insert_lines, insert_event, insert_dedication, insert_dedications,
  confirm_request, update_reserved, update_expiry, mark_cancelled, mark_expired, extend_request,
  create_rejected,
}
use cloud_resource_manager.Deployment.{now, new_uuid, count, on_redis}
use cloud_resource_manager.Ledger.Sums.{Ledger}
use cloud_resource_manager.Ledger.Steps.{With}

-- The pools and the holds of two states of the tables are the same.
pub record Untouched {F : Type 0} (d d' : Db F) : Type 0 where
  pub pools : d'.pools ≡ d.pools
  pub holds : d'.holds ≡ d.holds

pub record Quiet {F R A : Type 0} (m : M (World F R) A) : Type 0 where
  pub at : (w : World F R) → Untouched w.db (m w).1.db

With-Untouched :
    {F : Type 0} (G : List Hold → Type 0) (k : Uuid → ℤ) {d d' : Db F}
    → Untouched d d'
    → With G k d
    → With G k d'
With-Untouched G k u (l, g) = (
  record {
    pool_ids = rw u.pools l.pool_ids;
    hold_ids = rw u.holds l.hold_ids;
    amounts = rw u.holds l.amounts;
    counters = rw (u.pools, u.holds) l.counters;
  },
  rw u.holds g,
)

module _ {F A : Type 0} (G : List Hold → Type 0) (k : Uuid → ℤ) where
  Post-Quiet :
      (d : Db F) (r : Result Error A) (d' : Db F)
      → Untouched d d'
      → With G k d
      → Post (λ _. With G k) r d'
  Post-Quiet d (ok a) d' u p = With-Untouched G k u p
  Post-Quiet d (err e) d' u p = tt

module _ {F R A : Type 0} (G : List Hold → Type 0) (k : Uuid → ℤ) where
  pub Ensures-Quiet : (m : M (World F R) A) → Quiet m → Ensures (With G k) m (λ _. With G k)
  Ensures-Quiet m q = record { at = λ w p. Post-Quiet G k w.db (m w).0 (m w).1.db (q.at w) p }

module _ {F R A : Type 0} (k : Uuid → ℤ) where
  pub Ensures-Quiet-Ledger : (m : M (World F R) A) → Quiet m → Ensures (Ledger k) m (λ _. Ledger k)
  Ensures-Quiet-Ledger m q =
      Ensures-weaken (With (λ _. Unit) k) m (λ d l. (l, tt))
        (Ensures-result (λ _. With (λ _. Unit) k) m (λ _ d p. p.0)
          (Ensures-Quiet (λ _. Unit) k m q))

  pub Keeps-Quiet-Ledger : (m : M (World F R) A) → Quiet m → Keeps (Ledger k) m
  Keeps-Quiet-Ledger m q = record { at = λ w l. (With-Untouched (λ _. Unit) k (q.at w) (l, tt)).0 }

module _ {F R A : Type 0} where
  pub Quiet-pure : (a : A) → Quiet {F = F} {R = R} (pure a)
  Quiet-pure a = record { at = λ w. record { pools = refl; holds = refl } }

  pub Quiet-fail : (e : Error) → Quiet {F = F} {R = R} {A = A} (fail e)
  Quiet-fail e = record { at = λ w. record { pools = refl; holds = refl } }

  pub Quiet-lift : (r : Result Error A) → Quiet {F = F} {R = R} (lift r)
  Quiet-lift r = record { at = λ w. record { pools = refl; holds = refl } }

  pub Quiet-if : (b : Bool) (m n : M (World F R) A) → Quiet m → Quiet n → Quiet (if b then m else n)
  Quiet-if true m n h k = h
  Quiet-if false m n h k = k

  pub Quiet-statement :
      (label : String) (f : Db F → Result Error A × Db F)
      → ((d : Db F) → Untouched d (f d).1)
      → Quiet {R = R} (statement label f)
  unfolding statement
  Quiet-statement label f h = record { at = λ w. run w }
    where
      run : (w : World F R) → Untouched w.db (statement label f w).1.db
      run w = elim (Bool-cases (next_fault w.faults)) [
        | inl e ↦ rw e (record { pools = refl; holds = refl })
        | inr e ↦ rw e (h w.db)
      ]

  pub Quiet-query : (label : String) (f : Db F → A) → Quiet {R = R} (query label f)
  unfolding query
  Quiet-query label f = Quiet-statement label _ (λ d. record { pools = refl; holds = refl })

module _ {F R A B : Type 0} where
  Quiet-continue :
      (f : A → M (World F R) B)
      → ((a : A) → Quiet (f a))
      → (d : Db F) (r : Result Error A) (w : World F R) → Untouched d w.db
      → Untouched d (continue r f w).1.db
  Quiet-continue f h d (ok a) w u = record {
    pools = ((h a).at w).pools ∙ u.pools;
    holds = ((h a).at w).holds ∙ u.holds;
  }
  Quiet-continue f h d (err e) w u = u

  pub Quiet-bind :
      (m : M (World F R) A) (f : A → M (World F R) B)
      → Quiet m
      → ((a : A) → Quiet (f a))
      → Quiet (m >>= f)
  Quiet-bind m f q h = record { at = λ w. Quiet-continue f h w.db (m w).0 (m w).1 (q.at w) }

module _ {F R : Type 0} where
  pub Quiet-fail_if : (b : Bool) (e : Error) → Quiet {F = F} {R = R} (fail_if b e)
  Quiet-fail_if true e = record { at = λ w. record { pools = refl; holds = refl } }
  Quiet-fail_if false e = record { at = λ w. record { pools = refl; holds = refl } }

  pub Quiet-now : Quiet {F = F} {R = R} now
  unfolding now
  Quiet-now = record { at = λ w. record { pools = refl; holds = refl } }

  pub Quiet-new_uuid : Quiet {F = F} {R = R} new_uuid
  unfolding new_uuid
  Quiet-new_uuid = record { at = λ w. record { pools = refl; holds = refl } }

  pub Quiet-count : (m : Metric F) → Quiet {F = F} {R = R} (count m)
  unfolding count
  Quiet-count m = record { at = λ w. record { pools = refl; holds = refl } }

  pub Quiet-on_redis : {A : Type 0} (m : Action Error R A) → Quiet {F = F} (on_redis m)
  unfolding on_redis
  Quiet-on_redis m = record { at = λ w. record { pools = refl; holds = refl } }

pub ruleset quiet_rules = (
  Quiet-pure, Quiet-fail, Quiet-lift, Quiet-if, Quiet-query, Quiet-bind, Quiet-fail_if, Quiet-now,
  Quiet-new_uuid, Quiet-count, Quiet-on_redis,
)

module _ {F R : Type 0} where
  pub ensure_and_try_consume-Quiet :
      (c kind : String) (a l : ℤ) → Quiet {F = F} {R = R} (ensure_and_try_consume c kind a l)
  unfolding ensure_and_try_consume
  ensure_and_try_consume-Quiet c kind a l = record {
    at = λ w. record { pools = ground arith; holds = ground arith };
  }

  pub release_quota-Quiet :
      (c kind : String) (a : ℤ) → Quiet {F = F} {R = R} (release_quota c kind a)
  unfolding release_quota
  release_quota-Quiet c kind a = record {
    at = λ w. record { pools = ground arith; holds = ground arith };
  }

  pub insert_request-Quiet :
      (label : String) (r : CapacityRequest) → Quiet {F = F} {R = R} (insert_request label r)
  unfolding insert_request
  insert_request-Quiet label r =
      Quiet-statement label _ (λ d. record { pools = ground arith; holds = ground arith })

  insert_line-Quiet : (l : RequestLine) → Quiet {F = F} {R = R} (insert_line l)
  unfolding insert_line
  insert_line-Quiet l =
      Quiet-statement "insert line" _ (λ d. record { pools = ground arith; holds = ground arith })

  pub insert_event-Quiet : (e : RequestEvent) → Quiet {F = F} {R = R} (insert_event e)
  unfolding insert_event
  insert_event-Quiet e =
      Quiet-statement "insert event" _ (λ d. record { pools = ground arith; holds = ground arith })

  insert_dedication-Quiet : (x : Dedication) → Quiet {F = F} {R = R} (insert_dedication x)
  unfolding insert_dedication
  insert_dedication-Quiet x =
      Quiet-statement "insert dedication" _
        (λ d. record { pools = ground arith; holds = ground arith })

  update_reserved-Quiet :
      (label : String) (id : Uuid) (f : Time → CapacityRequest → CapacityRequest)
      → Quiet {F = F} {R = R} (update_reserved label id f)
  unfolding update_reserved
  update_reserved-Quiet label id f = record {
    at = λ w. record { pools = ground arith; holds = ground arith };
  }

  update_expiry-Quiet :
      (id : Uuid) (t : Time) (n : ℤ) → Quiet {F = F} {R = R} (update_expiry id t n)
  unfolding update_expiry
  update_expiry-Quiet id t n = record {
    at = λ w. record { pools = ground arith; holds = ground arith };
  }

  pub insert_lines-Quiet : (ls : List RequestLine) → Quiet {F = F} {R = R} (insert_lines ls)
  unfolding insert_lines
  insert_lines-Quiet [] = Quiet-pure tt
  insert_lines-Quiet (l ∷ ls) = Quiet-bind _ _ (insert_line-Quiet l) (λ _. insert_lines-Quiet ls)

  insert_dedications-Quiet : (xs : List Dedication) → Quiet {F = F} {R = R} (insert_dedications xs)
  unfolding insert_dedications
  insert_dedications-Quiet [] = Quiet-pure tt
  insert_dedications-Quiet (x ∷ xs) =
      Quiet-bind _ _ (insert_dedication-Quiet x) (λ _. insert_dedications-Quiet xs)

  pub confirm_request-Quiet :
      (id : Uuid) (ds : List Dedication) (e : RequestEvent)
      → Quiet {F = F} {R = R} (confirm_request id ds e)
  unfolding confirm_request
  confirm_request-Quiet id ds e =
      search (quiet_rules, update_reserved-Quiet, insert_dedications-Quiet, insert_event-Quiet)
        depth 8

  pub mark_cancelled-Quiet :
      (id : Uuid) (e : RequestEvent) → Quiet {F = F} {R = R} (mark_cancelled id e)
  unfolding mark_cancelled
  mark_cancelled-Quiet id e =
      search (quiet_rules, update_reserved-Quiet, insert_event-Quiet) depth 8

  pub mark_expired-Quiet :
      (id : Uuid) (e : RequestEvent) → Quiet {F = F} {R = R} (mark_expired id e)
  unfolding mark_expired
  mark_expired-Quiet id e = search (quiet_rules, update_reserved-Quiet, insert_event-Quiet) depth 8

  pub extend_request-Quiet :
      (id : Uuid) (t : Time) (n : ℤ) (e : RequestEvent)
      → Quiet {F = F} {R = R} (extend_request id t n e)
  unfolding extend_request
  extend_request-Quiet id t n e =
      search (quiet_rules, update_expiry-Quiet, insert_event-Quiet) depth 8

  pub create_rejected-Quiet :
      (r : CapacityRequest) (ls : List RequestLine) (e : RequestEvent)
      → Quiet {F = F} {R = R} (create_rejected r ls e)
  unfolding create_rejected
  create_rejected-Quiet r ls e =
      search (quiet_rules, insert_request-Quiet, insert_lines-Quiet, insert_event-Quiet) depth 8
