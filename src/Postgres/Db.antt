-- ===== src/Postgres/Db.antt =====
-- internal/repository/postgres/db.go, and the tables of migrations/000001_init.up.sql.
-- The world is the tables, the state of the Redis server (any type), the clocks, the UUIDs still to
-- be drawn, the counters written so far, the advisory lock, and the faults to come: each statement
-- takes one flag of `faults`, and where that is true the statement fails and changes nothing.
use cloud_resource_manager.Base.{ℕ, Bool, false, Option, List, [], ◌∷◌, String, if◌then◌else◌}
use cloud_resource_manager.Base.Int.{ℤ}
use cloud_resource_manager.Base.Action.{Result, ok, err}
use cloud_resource_manager.Domain.Types.{
  Uuid, Time, ResourcePool, Product, CustomerQuota, CapacityRequest, RequestLine, Hold, Dedication,
  RequestEvent,
}
use cloud_resource_manager.Domain.Errors.{Error, dependency}
use cloud_resource_manager.Ports.{M, Metric}

pub record Db (F : Type 0) : Type 0 where
  pub pools : List (ResourcePool F)
  pub products : List Product
  pub quotas : List CustomerQuota
  pub requests : List CapacityRequest
  pub lines : List RequestLine
  pub holds : List Hold
  pub dedications : List Dedication
  pub events : List RequestEvent

pub record World (F R : Type 0) : Type 0 where
  pub db : Db F
  pub redis : R
  pub clock : Time
  pub db_clock : Time
  pub uuids : ℕ → Uuid
  pub drawn : ℕ
  pub metrics : List (Metric F)
  pub pinned : Option ℤ
  pub taken_elsewhere : Bool
  pub faults : List Bool

abbrev pub next_fault : List Bool → Bool
next_fault [] = false
next_fault (b ∷ _) = b

abbrev pub later_faults : List Bool → List Bool
later_faults [] = []
later_faults (_ ∷ bs) = bs

-- One statement: a result and the tables after it, or an error under the caller's label.
unfoldable pub statement :
    {F R A : Type 0} → String → (Db F → Result Error A × Db F) → M (World F R) A
statement label f w =
    let w' = record w { faults = later_faults w.faults } in
    if next_fault w.faults
    then (err (dependency label), w')
    else ((f w.db).0, record w' { db = (f w.db).1 })

-- SELECT.
unfoldable pub query : {F R A : Type 0} → String → (Db F → A) → M (World F R) A
unfolding statement
query label f = statement label (λ d. (ok (f d), d))

-- UPDATE, and the number of rows affected or what the statement returns.
unfoldable pub exec : {F R A : Type 0} → String → (Db F → A × Db F) → M (World F R) A
unfolding statement
exec label f = statement label (λ d. (ok (f d).0, (f d).1))

-- An UPDATE under a CHECK constraint: rows that break it make the statement fail.
abbrev pub checked : {F A : Type 0} → Bool → Db F → A → Db F → Result Error A × Db F
checked keeps d a d' = if keeps then (ok a, d') else (err (dependency "check constraint"), d)

-- INSERT of one row. Without a row of that key it is stored; with one, the statement fails by a
-- violation of the unique constraint, which is reported as `e`.
abbrev pub insert_row : {F : Type 0} → Bool → Error → Db F → Db F → Result Error (Unit {0}) × Db F
insert_row clash e d d' = if clash then (err e, d) else (ok tt, d')

abbrev pub finish :
    {F R A : Type 0} → World F R → Result Error A → World F R → Result Error A × World F R
finish w (err e) w' = (err e, record w' { db = w.db })
finish w (ok a) w' =
    if next_fault w'.faults
    then (
      err (dependency "commit tx"),
      record w' {
        faults = later_faults (later_faults w'.faults);
        db = if next_fault (later_faults w'.faults) then w'.db else w.db;
      },
    )
    else (ok a, record w' { faults = later_faults w'.faults })

-- `DB.WithinTx`: begin, the function, and commit. The deferred rollback restores the tables where the
-- function fails. A commit that fails may have taken effect, as where its answer is lost.
unfoldable pub within_tx : {F R A : Type 0} → M (World F R) A → M (World F R) A
within_tx body w =
    let w' = record w { faults = later_faults w.faults } in
    if next_fault w.faults
    then (err (dependency "begin tx"), w')
    else finish w (body w').0 (body w').1
