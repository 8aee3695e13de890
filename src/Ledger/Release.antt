-- ===== src/Ledger/Release.antt =====
-- Confirm, Cancel and the sweeper, inside their transactions: each visits the holds that a listing
-- of the table gave it, and each hold keeps the ledger balanced.
use cloud_resource_manager.Base.{
  Bool, true, false, ◌≡◌, ◌≢◌, refl, ◌∙◌, some, List, [], ◌∷◌, String, ◌==◌, arith, leb, ==_refl,
}
use cloud_resource_manager.Base.Int.{ℤ, pos, ◌+ℤ◌, ◌≤ℤ◌, int_laws}
use cloud_resource_manager.Base.Table.{find, select, order_by, All, Distinct}
use cloud_resource_manager.Base.Table.Laws.{
  All-map, All-both, All-select, All-order_by, select-All, find_self, Distinct-select,
  Distinct-order_by,
}
use cloud_resource_manager.External.{Doubles}
use cloud_resource_manager.Domain.Types.{
  Uuid, Time, CapacityRequest, RequestLine, Hold, HoldStatus, RequestStatus, hold_active,
  hold_dedicated, hold_is,
}
use cloud_resource_manager.Postgres.Db.{Db}
use cloud_resource_manager.Postgres.Logic.{
  Ensures, Ensures-bind, Ensures-pure, Ensures-weaken, Ensures-given, Ensures-query, Ensures-result,
}
use cloud_resource_manager.Postgres.Requests.{active_of, list_active_holds, list_lines}
use cloud_resource_manager.Redis.{Server}
use cloud_resource_manager.Deployment.{production}
use cloud_resource_manager.Service.Release.{
  kind_by_pool, release_hold, release_holds, release_body, hold_to,
}
use cloud_resource_manager.Service.Lifecycle.{dedicate_hold, dedicate_holds, confirm_body}
use cloud_resource_manager.Ledger.Sums.{
  Ledger, Balanced, nothing, active_sum, active_sum-ge, active_part, on_pool,
}
use cloud_resource_manager.Ledger.Steps.{
  With, minus, release_reserved-Ledger, move_reserved_to_dedicated-Ledger,
}
use cloud_resource_manager.Ledger.Holds.{
  IsActive, Listed, active_part-active, update_hold_status-Ledger,
}
use cloud_resource_manager.Ledger.Quiet.{
  Quiet-if, Quiet-pure, Ensures-Quiet, Ensures-Quiet-Ledger, release_quota-Quiet,
  mark_expired-Quiet, mark_cancelled-Quiet, confirm_request-Quiet, quiet_rules,
}

on_own_pool : (p : Uuid) (a : ℤ) → on_pool p p a ≡ a
on_own_pool p a = rw (==_refl p)

at_most : (o a s : ℤ) → o ≡ a → o ≤ℤ s → a ≤ℤ s +ℤ pos 0
at_most o a s e h = rw (← e) (omega int_laws)

-- The pool of a hold that is ACTIVE has its amount reserved.
covered :
    {F : Type 0} (h : Hold) (hs : List Hold) (d : Db F)
    → With (Listed (h ∷ hs)) nothing d
    → Ledger nothing d
      × (h.amount ≤ℤ active_sum h.pool_id d.holds +ℤ nothing h.pool_id)
      × Listed (h ∷ hs) d.holds
covered h hs d (l, a) = (
  l,
  at_most (active_part h.pool_id h) h.amount (active_sum h.pool_id d.holds)
      (active_part-active h.pool_id h a.0.1 ∙ on_own_pool h.pool_id h.amount)
      (active_sum-ge h.pool_id d.holds h l.amounts a.0.0),
  a,
)

active_of-active :
    (id : Uuid) (h : Hold) → active_of id h ≡ true → hold_is h.status hold_active ≡ true
active_of-active id h e = ground arith

-- The holds that ListActiveHolds returns.
abbrev pub listing : {F : Type 0} → Uuid → Db F → List Hold
listing id d = order_by (λ p q. leb p.pool_id q.pool_id) (select (active_of id) d.holds)

-- A listing has holds of the table that are ACTIVE, each once.
pub listing-Listed :
    {F : Type 0} (k : Uuid → ℤ) (id : Uuid) (d : Db F)
    → Ledger k d
    → Listed (listing id d) d.holds × Distinct (λ h. h.id) (listing id d)
listing-Listed k id d l =
    let le = λ (p q : Hold). leb p.pool_id q.pool_id in
    let rows = select (active_of id) d.holds in
    (
      All-order_by (IsActive d.holds) le rows (
          All-both (λ h. find (λ x. x.id == h.id) d.holds ≡ some h)
            (λ h. hold_is h.status hold_active ≡ true) rows
            (All-select (λ h. find (λ x. x.id == h.id) d.holds ≡ some h) (active_of id) d.holds
              (find_self (λ x. x.id) d.holds l.hold_ids))
            (All-map (λ h. active_of id h ≡ true) (λ h. hold_is h.status hold_active ≡ true)
              (active_of-active id) rows (select-All (active_of id) d.holds))),
      Distinct-order_by (λ h. h.id) le rows
          (Distinct-select (λ h. h.id) (active_of id) d.holds l.hold_ids),
    )

-- The listing and the balance at the start of a transaction.
abbrev Start : {F : Type 0} → List Hold → Db F → Type 0
Start hs d = With (Listed hs) nothing d × Distinct (λ h. h.id) hs

module _ {F R : Type 0} where
  list_active_holds-Start :
      (id : Uuid) → Ensures {F = F} {R = R} Balanced (list_active_holds id) Start
  unfolding list_active_holds
  list_active_holds-Start id =
      Ensures-result (λ hs d. Balanced d × (hs ≡ listing id d)) _
        (λ hs d (l, e). let (a, b) = listing-Listed nothing id d l in rw e ((l, a), b))
        (Ensures-query "list holds" (listing id))

  list_lines-Start :
      (id : Uuid) (hs : List Hold)
      → Ensures {F = F} {R = R} (Start hs) (list_lines id) (λ _. Start hs)
  unfolding list_lines
  list_lines-Start id hs =
      Ensures-result (λ ls d. Start hs d × (ls ≡ select (λ l. l.request_id == id) d.lines)) _
        (λ ls d p. p.0) (Ensures-query "list lines" _)

hold_to-inactive : (terminal : RequestStatus) → hold_is (hold_to terminal) hold_active ≡ false
hold_to-inactive terminal = ground arith

module _ {F R : Type 0} (D : Doubles F) (text_le : String → String → Bool) (server : Server R) where
  -- Taking an ACTIVE hold off its pool and moving it on balances the ledger again.
  release_hold-Listed :
      (c : String) (lines : List RequestLine) (to : HoldStatus) (h : Hold) (hs : List Hold)
      → hold_is to hold_active ≡ false
      → All (λ x. x.id ≢ h.id) hs
      → Ensures
          (With (Listed (h ∷ hs)) nothing)
          (release_hold (production D text_le server) c lines to h)
          (λ _. With (Listed hs) nothing)
  unfolding release_hold
  release_hold-Listed c lines to h hs out n =
      Ensures-bind (λ _. With (Listed (h ∷ hs)) (minus nothing h.pool_id h.amount)) _ _
        (Ensures-weaken _ _ (covered h hs)
          (release_reserved-Ledger (Listed (h ∷ hs)) nothing h.pool_id h.amount))
        (λ _.
          Ensures-bind (λ _. With (Listed (h ∷ hs)) (minus nothing h.pool_id h.amount)) _ _
            (Ensures-Quiet (Listed (h ∷ hs)) (minus nothing h.pool_id h.amount) _ (
              Quiet-if _ _ _ (Quiet-pure tt)
                (release_quota-Quiet c (kind_by_pool "" lines h.pool_id) h.amount)))
            (λ _.
              Ensures-bind (λ _. With (Listed hs) nothing) _ _
                (update_hold_status-Ledger nothing to h hs out n)
                (λ _. Ensures-pure tt (λ d x. x))))

  release_holds-Listed :
      (c : String) (lines : List RequestLine) (to : HoldStatus) (hs : List Hold)
      → hold_is to hold_active ≡ false
      → Distinct (λ h. h.id) hs
      → Ensures
          (With (Listed hs) nothing)
          (release_holds (production D text_le server) c lines to hs)
          (λ _. Balanced)
  unfolding release_holds
  release_holds-Listed c lines to [] out n = Ensures-pure tt (λ d p. p.0)
  release_holds-Listed c lines to (h ∷ hs) out n =
      Ensures-bind (λ _. With (Listed hs) nothing) _ _ (release_hold-Listed c lines to h hs out n.0)
        (λ _. release_holds-Listed c lines to hs out n.1)

  -- The transaction of Cancel and of the sweeper ends with the ledger balanced.
  pub release_body-Balanced :
      (req : CapacityRequest) (terminal : RequestStatus) (now : Time)
      → Ensures Balanced
          (release_body (production D text_le server) req terminal now)
          (λ _. Balanced)
  unfolding release_body
  release_body-Balanced req terminal now =
      Ensures-bind Start _ _ (list_active_holds-Start req.id) (λ hs.
        Ensures-bind (λ _. Start hs) _ _ (list_lines-Start req.id hs)
          (λ lines.
            Ensures-given (Distinct (λ h. h.id) hs) _ (λ d p. p.1)
              (λ n.
                Ensures-bind (λ _. Balanced) _ _
                  (Ensures-weaken (With (Listed hs) nothing) _ (λ d p. p.0)
                    (release_holds-Listed req.customer_id lines (hold_to terminal) hs
                      (hold_to-inactive terminal) n))
                  (λ _.
                    Ensures-Quiet-Ledger nothing _
                      (search (quiet_rules, mark_expired-Quiet, mark_cancelled-Quiet) depth 8)))))

  -- Moving the amount of an ACTIVE hold to `dedicated_amount`, and the hold to DEDICATED.
  dedicate_hold-Listed :
      (id : Uuid) (now : Time) (h : Hold) (hs : List Hold)
      → All (λ x. x.id ≢ h.id) hs
      → Ensures
          (With (Listed (h ∷ hs)) nothing)
          (dedicate_hold (production D text_le server) id now h)
          (λ _. With (Listed hs) nothing)
  unfolding dedicate_hold
  dedicate_hold-Listed id now h hs n =
      Ensures-bind (λ _. With (Listed (h ∷ hs)) (minus nothing h.pool_id h.amount)) _ _
        (Ensures-weaken _ _ (covered h hs)
          (move_reserved_to_dedicated-Ledger (Listed (h ∷ hs)) nothing h.pool_id h.amount))
        (λ _.
          Ensures-bind (λ _. With (Listed hs) nothing) _ _
            (update_hold_status-Ledger nothing hold_dedicated h hs refl n)
            (λ got. Ensures-Quiet (Listed hs) nothing _ (search quiet_rules depth 8)))

  dedicate_holds-Listed :
      (id : Uuid) (now : Time) (hs : List Hold)
      → Distinct (λ h. h.id) hs
      → Ensures
          (With (Listed hs) nothing)
          (dedicate_holds (production D text_le server) id now hs)
          (λ _. Balanced)
  unfolding dedicate_holds
  dedicate_holds-Listed id now [] n = Ensures-pure [] (λ d p. p.0)
  dedicate_holds-Listed id now (h ∷ hs) n =
      Ensures-bind (λ _. With (Listed hs) nothing) _ _ (dedicate_hold-Listed id now h hs n.0)
        (λ x.
          Ensures-bind (λ _. Balanced) _ _ (dedicate_holds-Listed id now hs n.1)
            (λ xs. Ensures-pure (x ∷ xs) (λ d p. p)))

  -- So does the transaction of Confirm.
  pub confirm_body-Balanced :
      (id : Uuid) (now : Time)
      → Ensures Balanced (confirm_body (production D text_le server) id now) (λ _. Balanced)
  unfolding confirm_body
  confirm_body-Balanced id now = Ensures-bind Start _ _ (list_active_holds-Start id) (λ hs.
      Ensures-given (Distinct (λ h. h.id) hs) _ (λ d p. p.1)
        (λ n.
          Ensures-bind (λ _. Balanced) _ _
            (Ensures-weaken (With (Listed hs) nothing) _ (λ d p. p.0)
              (dedicate_holds-Listed id now hs n))
            (λ xs.
              Ensures-Quiet-Ledger nothing _
                (search (quiet_rules, confirm_request-Quiet) depth 8))))
