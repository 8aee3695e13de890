-- ===== src/Behaviour/Transitions.antt =====
-- internal/repository/postgres/requests.go and internal/domain/helpers.go: the writes of a status
-- against the table of ValidateTransition.
use cloud_resource_manager.Base.{◌≡◌, ◌⊎◌, List}
use cloud_resource_manager.Base.Action.{ok}
use cloud_resource_manager.Base.Table.{Pairwise}
use cloud_resource_manager.Domain.Types.{CapacityRequest}
use cloud_resource_manager.Domain.Rules.{validate_transition}
use cloud_resource_manager.Ports.{M}
use cloud_resource_manager.Postgres.Db.{World}

-- A row that is as it was, or has made a transition that ValidateTransition allows.
abbrev pub Moved : CapacityRequest → CapacityRequest → Type 0
Moved x y = (x ≡ y) ⊎ ((x.id ≡ y.id) × (validate_transition x.status y.status ≡ ok tt))

abbrev pub AllMoved : List CapacityRequest → List CapacityRequest → Type 0
AllMoved xs ys = Pairwise Moved xs ys

-- An action that moves rows only as ValidateTransition allows.
record Proper {F R A : Type 0} (m : M (World F R) A) : Type 0 where
  at : (w : World F R) → AllMoved w.db.requests (m w).1.db.requests
