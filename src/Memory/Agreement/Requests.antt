-- ===== src/Memory/Agreement/Requests.antt =====
-- internal/repository/memory/memory.go against internal/repository/postgres/requests.go: the writes
-- that move a RESERVED request, of the map of the tests and of the table.
use cloud_resource_manager.Base.{
  ℕ, ◌≡◌, ◌≢◌, refl, sym, ◌∙◌, ap, subst, Bool, true, false, not, none, some, List, [], ◌∷◌, ◌==◌,
  inl, inr, Bool-cases, Option-cases, ==-ne, ==-eq, if◌then◌else◌,
}
use cloud_resource_manager.Base.Int.{ℤ, pos, ◌≤ℤ◌, ≤ℤ→leb}
use cloud_resource_manager.Base.Action.{ok, ◌>>=◌}
use cloud_resource_manager.Base.Table.{find, exists, update, affected, All, Distinct, Pairwise}
use cloud_resource_manager.Base.Table.Laws.{
  All-map, find-All, update-none, affected-zero, All-always,
}
use cloud_resource_manager.Domain.Types.{
  Uuid, Time, CapacityRequest, RequestEvent, RequestStatus, status_is, status_reserved,
  status_cancelled, status_expired,
}
use cloud_resource_manager.Ports.{M}
use cloud_resource_manager.Postgres.Db.{World}
use cloud_resource_manager.Postgres.Requests
use cloud_resource_manager.Postgres.Requests.{
  update_reserved, update_expiry, insert_event, unless_none, reserved_row, set_status, extending,
}
use cloud_resource_manager.Memory.Store.{Store}
use cloud_resource_manager.Memory.Requests as Fake
use cloud_resource_manager.Memory.Requests.{request_at, change_reserved, in_status, extended}
use cloud_resource_manager.Memory.Agreement.{Once, written, quiet, writes_agree}

abbrev pub undated : CapacityRequest → CapacityRequest
undated r = record r { updated_at = pos 0 }

-- The same but for the time of the last update.
abbrev pub SameRequest : CapacityRequest → CapacityRequest → Type 0
SameRequest x y = undated x ≡ undated y

abbrev pub SameRequests : List CapacityRequest → List CapacityRequest → Type 0
SameRequests xs ys = Pairwise SameRequest xs ys

abbrev is_open : CapacityRequest → Bool
is_open r = status_is r.status status_reserved

abbrev has_id : Uuid → CapacityRequest → Bool
has_id id r = r.id == id

Once-has_id :
    (id : Uuid) (rs : List CapacityRequest) → Distinct (λ r. r.id) rs → Once (has_id id) rs
Once-has_id id [] d = tt
Once-has_id id (r ∷ rs) d = (
  λ e.
      All-map (λ y. y.id ≢ r.id) (λ y. (y.id == id) ≡ false)
        (λ y n. ==-ne y.id id (λ same. n (same ∙ sym (==-eq r.id id e)))) rs d.0,
  Once-has_id id rs d.1,
)

-- A request that the map does not have is not in the table.
missing :
    (id : Uuid) (xs ys : List CapacityRequest)
    → SameRequests xs ys
    → find (has_id id) xs ≡ none
    → All (λ y. has_id id y ≡ false) ys
missing id [] [] s f = tt
missing id [] (y ∷ ys) s f = elim s [ ]
missing id (x ∷ xs) [] s f = elim s [ ]
missing id (x ∷ xs) (y ∷ ys) s f = elim (Bool-cases (has_id id x)) [
  | inl e ↦ let no : some x ≡ none = rw e at f in cc
  | inr e ↦ (sym (ap (has_id id) s.0) ∙ e, missing id xs ys s.1 (rw e at f))
]

-- What an UPDATE of RESERVED rows returns, and the world behind it.
abbrev Updates :
    {F R : Type 0}
    → Uuid
    → (Time → CapacityRequest → CapacityRequest)
    → M (World F R) ℕ
    → World F R
    → Type 0
Updates id h change w = change w ≡ (
  ok (affected (reserved_row id) w.db.requests),
  record w {
    faults = [];
    db = record w.db { requests = update (reserved_row id) (h w.db_clock) w.db.requests };
  },
)

module _ {F R : Type 0} (id : Uuid) (h : Time → CapacityRequest → CapacityRequest)
    (change : M (World F R) ℕ) (ev : RequestEvent) (w : World F R) (made : Updates id h change w)
    (free : exists (λ x. x.id == ev.id) w.db.events ≡ false) where
  -- An UPDATE and its event say whether a row was affected.
  changed_rows :
      (w' : World F R) × ((change >>= (λ n. unless_none n (insert_event ev))) w
        ≡ (ok (not (affected (reserved_row id) w.db.requests == 0)), w'))
      × (w'.db.requests ≡ update (reserved_row id) (h w.db_clock) w.db.requests)
  unfolding insert_event
  changed_rows = elim (Bool-cases (affected (reserved_row id) w.db.requests == 0)) [
    | inl z ↦ rw (made, z) (_, refl, refl)
    | inr z ↦ rw (made, z, free) (_, refl, refl)
  ]

-- The map's write, where it has the request.
fake_change :
    {F : Type 0} (id : Uuid) (g : CapacityRequest → CapacityRequest) (ev : RequestEvent)
    (m : Store F) {p : CapacityRequest}
    → find (has_id id) m.requests ≡ some p
    → ((change_reserved (request_at id m) g ev m).0 ≡ ok (is_open p))
      × ((change_reserved (request_at id m) g ev m).1.requests
          ≡ written (is_open p) (has_id id) g m.requests)
fake_change id g ev m {p} f =
    let own : p.id ≡ id =
      ==-eq p.id id (find-All (λ _. Unit {0}) (has_id id) m.requests (All-always m.requests) f).1 in
    elim (Bool-cases (is_open p)) [
      | inl t ↦ rw (f, t, own) (refl, refl)
      | inr t ↦ rw (f, t) (refl, refl)
    ]

positive : (b : Bool) → not ((if b then 1 else 0) == 0) ≡ b
positive true = refl
positive false = refl

module _ {F R : Type 0} (id : Uuid) (g : CapacityRequest → CapacityRequest)
    (h : Time → CapacityRequest → CapacityRequest)
    (same_write : (t : Time) (x y : CapacityRequest) → SameRequest x y → SameRequest (g x) (h t y))
    (ev : RequestEvent) (m : Store F) (w : World F R) (same : SameRequests m.requests w.db.requests)
    (d : Distinct (λ r. r.id) w.db.requests) where
  rows_same :
      ((change_reserved (request_at id m) g ev m).0
        ≡ ok (not (affected (reserved_row id) w.db.requests == 0)))
      × SameRequests
          (change_reserved (request_at id m) g ev m).1.requests
          (update (reserved_row id) (h w.db_clock) w.db.requests)
  rows_same = elim (Option-cases (find (has_id id) m.requests)) [
    | inl f ↦
        let none_hit =
          quiet (has_id id) is_open w.db.requests (missing id m.requests w.db.requests same f) in
        rw
          (
            f,
            affected-zero (reserved_row id) w.db.requests none_hit,
            update-none (reserved_row id) (h w.db_clock) w.db.requests none_hit,
          )
          (refl, same)
    | inr (p, f) ↦
        let (count, rows) =
          writes_agree SameRequest (λ _. Unit {0}) (has_id id) is_open is_open g (h w.db_clock)
            (λ x y e. ap (has_id id) e) (λ x y e _. ap is_open e) (same_write w.db_clock) m.requests
            w.db.requests {p = p} same (Once-has_id id w.db.requests d) (All-always w.db.requests)
            f in
        let (answer, kept) = fake_change id g ev m f in
        (
          answer ∙ ap (λ b. ok b) (sym (ap (λ n. not (n == 0)) count ∙ positive (is_open p))),
          subst (λ xs. SameRequests xs (update (reserved_row id) (h w.db_clock) w.db.requests))
              (sym kept) rows,
        )
  ]

  write_same :
      (change : M (World F R) ℕ)
      → Updates id h change w
      → exists (λ x. x.id == ev.id) w.db.events ≡ false
      → ((change_reserved (request_at id m) g ev m).0
          ≡ ((change >>= (λ n. unless_none n (insert_event ev))) w).0)
        × SameRequests
            (change_reserved (request_at id m) g ev m).1.requests
            ((change >>= (λ n. unless_none n (insert_event ev))) w).1.db.requests
  write_same change made free =
      let (w', e, rows) = changed_rows id h change ev w made free in
      let (answer, kept) = rows_same in
      (
        answer ∙ sym (ap (λ z. z.0) e),
        subst (SameRequests (change_reserved (request_at id m) g ev m).1.requests)
            (sym (ap (λ z. z.1.db.requests) e ∙ rows)) kept,
      )

module _ {F R : Type 0} (id : Uuid) (ev : RequestEvent) (m : Store F) (w : World F R)
    (same : SameRequests m.requests w.db.requests) (d : Distinct (λ r. r.id) w.db.requests)
    (calm : w.faults ≡ []) (free : exists (λ x. x.id == ev.id) w.db.events ≡ false) where
  status_made :
      (s : RequestStatus)
      → Updates id (set_status s) (update_reserved "mark terminal" id (set_status s)) w
  unfolding update_reserved
  status_made s = rw calm refl

  expiry_made :
      (t : Time) (n : ℤ)
      → pos 0 ≤ℤ n
      → n ≤ℤ pos 2147483647
      → Updates id (extending t n) (update_expiry id t n) w
  unfolding update_expiry
  expiry_made t n low high = rw (calm, ≤ℤ→leb (pos 0) n low, ≤ℤ→leb n (pos 2147483647) high) refl

  marked_same :
      (s : RequestStatus)
      → ((Fake.mark_terminal id s ev m).0 ≡ (Requests.mark_terminal id s ev w).0)
        × SameRequests
            (Fake.mark_terminal id s ev m).1.requests
            (Requests.mark_terminal id s ev w).1.db.requests
  unfolding Fake.mark_terminal Requests.mark_terminal
  marked_same s =
      write_same id (in_status s) (set_status s)
        (λ t x y e. ap (λ (r : CapacityRequest). record r { status = s }) e) ev m w same d
        (update_reserved "mark terminal" id (set_status s)) (status_made s) free

  extended_same :
      (t : Time) (n : ℤ)
      → pos 0 ≤ℤ n
      → n ≤ℤ pos 2147483647
      → ((Fake.extend_request id t n ev m).0 ≡ (Requests.extend_request id t n ev w).0)
        × SameRequests
            (Fake.extend_request id t n ev m).1.requests
            (Requests.extend_request id t n ev w).1.db.requests
  unfolding Fake.extend_request Requests.extend_request
  extended_same t n low high =
      write_same id (extended t n) (extending t n)
        (λ now x y e.
          ap (λ (r : CapacityRequest). record r { expires_at = some t; extension_count = n }) e)
        ev m w same d (update_expiry id t n) (expiry_made t n low high) free

  -- Where the map of the tests and the table have the same requests, but for the time of the last
  -- update, MarkCancelled, MarkExpired and Extend return the same from either store, and leave the
  -- same requests in both, also for an id of no request: where the count of extensions is from 0 to
  -- 2^31 - 1, the requests of the table have distinct ids, the event's id is new to it, and no
  -- statement fails.
  pub request_writes-same :
      (t : Time) (n : ℤ)
      → pos 0 ≤ℤ n
      → n ≤ℤ pos 2147483647
      → (((Fake.mark_cancelled id ev m).0 ≡ (Requests.mark_cancelled id ev w).0)
          × SameRequests
              (Fake.mark_cancelled id ev m).1.requests
              (Requests.mark_cancelled id ev w).1.db.requests)
        × (((Fake.mark_expired id ev m).0 ≡ (Requests.mark_expired id ev w).0)
            × SameRequests
                (Fake.mark_expired id ev m).1.requests
                (Requests.mark_expired id ev w).1.db.requests)
        × (((Fake.extend_request id t n ev m).0 ≡ (Requests.extend_request id t n ev w).0)
            × SameRequests
                (Fake.extend_request id t n ev m).1.requests
                (Requests.extend_request id t n ev w).1.db.requests)
  unfolding Fake.mark_cancelled Fake.mark_expired Requests.mark_cancelled Requests.mark_expired
  request_writes-same t n low high =
      (marked_same status_cancelled, marked_same status_expired, extended_same t n low high)
