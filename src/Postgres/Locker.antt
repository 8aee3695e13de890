-- ===== src/Postgres/Locker.antt =====
-- internal/repository/postgres/locker.go: the advisory lock, on a connection that stays pinned.
-- `pinned` is the key under which this process holds it; `taken_elsewhere` says that another
-- session does.
use cloud_resource_manager.Base.{Bool, true, false, ◌||◌, none, some, if◌then◌else◌}
use cloud_resource_manager.Base.Int.{ℤ}
use cloud_resource_manager.Base.Action.{ok, err, ◌>>◌}
use cloud_resource_manager.Domain.Errors.{dependency}
use cloud_resource_manager.Ports.{M}
use cloud_resource_manager.Postgres.Db.{World, query, next_fault, later_faults}

abbrev pin : {F R : Type 0} → ℤ → Bool → M (World F R) Bool
pin key true w = (ok false, w)
pin key false w = (ok true, record w { pinned = some key })

-- Acquiring the connection and asking for the lock may each fail; the connection is then released.
abbrev ask : {F R : Type 0} → ℤ → M (World F R) Bool
ask key w =
    (do
      query "acquire conn for advisory lock" (λ d. tt)
      query "try advisory lock" (λ d. tt)
      pin key w.taken_elsewhere)
      w

unfoldable pub try_lock : {F R : Type 0} → ℤ → M (World F R) Bool
unfolding query
try_lock key w = elim w.pinned [ some held ↦ (ok false, w) | none ↦ ask key w ]

abbrev kept_on : {F R : Type 0} → World F R → World F R
kept_on w = record w {
  taken_elsewhere = next_fault w.faults || w.taken_elsewhere;
  faults = later_faults w.faults;
}

-- The pinned connection is released also where the statement fails; its session, which the pool
-- keeps, may then hold the lock on.
unfoldable pub unlock : {F R : Type 0} → ℤ → M (World F R) (Unit {0})
unlock key w =
    let w' = record w { pinned = none; faults = later_faults w.faults } in
    elim w.pinned [
      | none ↦ (ok tt, w)
      | some held ↦
          (if next_fault w.faults then (err (dependency "unlock"), kept_on w') else (ok tt, w'))
    ]
