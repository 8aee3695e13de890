-- ===== src/Lib.antt =====
-- A model of the capacity reservation service: customers reserve amounts of resource pools for a
-- limited time, then confirm, cancel, extend or let them expire.
--
-- The program. internal/httpapi/handler.go serves requests with the operations of
-- internal/service/capacity.go, and a loop of internal/fxmodules/modules.go runs its sweeper. The
-- service reaches the tables through the
-- repositories of internal/repository/postgres, a cache and a store of idempotency keys through
-- internal/repository/redisx, and the rules and types of internal/domain; internal/ports names the
-- interfaces between them and internal/fxmodules/modules.go wires them.
--
-- The files.
--   Base         shared names, Boolean tests, integers, actions on a state, tables of rows
--   External     double-precision arithmetic, a parameter
--   Domain       internal/domain: Types (types.go), Errors (errors.go), Rules (helpers.go and the
--                methods of types.go)
--   Config       internal/config/config.go: Load, getenv, intEnv, durationEnv, with proofs in Bounds
--   Ports        internal/ports/ports.go: the interfaces as one record of operations, which the
--                service takes as a parameter, and Noop, the stores that keep nothing
--   Postgres     internal/repository/postgres: Db (WithinTx, and what a statement is), Pools,
--                Quotas, Products, Requests (with Create and Transition), Locker;
--                Quotas/Bounds, Pools/Signs and Pools/Restores are proofs; Logic and Total are how to
--                reason about actions
--   Redis        internal/repository/redisx/redis.go, on a server that is a parameter
--   Service      internal/service/capacity.go: Input (its types and constants), Validate
--                (validateCreateInput, computeBodyHash), Plan (resolveLines, buildReservationPlan),
--                Reserve (reserveWithinTx, buildLines, buildHolds), Create (CreateRequest and the
--                rest of its steps), Release (releaseReserved), Lifecycle (Confirm, Cancel, Extend),
--                Sweep (ExpireDue), Read (ListCapacity, ListProducts, GetRequest, ListRequests);
--                Validate/Bounds and Plan/Order are proofs
--   Memory       internal/repository/memory/memory.go: the stores of the tests (Store, Pools, Quotas,
--                Products, Requests) and a service's ports on them (Wiring); Agreement is proofs
--   Http         internal/httpapi/handler.go: Messages (requests, responses, writeErr,
--                statusForReason), Handler (the handlers) and Routes; Middleware is that of
--                internal/observability/metrics.go, and Unknown a proof
--   Deployment   internal/fxmodules/modules.go: the ports of production
--   Runtime      the program as it runs: Loop (newRedisStores, runSweeperLoop) and Steps (requests,
--                sweeps and changes outside the tables, as a relation); Reading, Safety, Reached and
--                Queries are proofs
--   Ledger       proofs: the reserved amounts of the pools against the rows of holds
--   Capacity     proofs: no pool is promised beyond its room, what is given out stays so, and what a
--                view shows is admitted
--   Behaviour    proofs: limits of extension, repeated calls, unique keys, statuses, what a
--                stored request keeps, the row of a request that is returned, the sweeper, stale
--                holds, keys of one text, and Cancel where nothing fails
--   Tests        a small deployment, runs of it, and the theorems at concrete inputs
--
-- State and effects. An operation maps a world to a result and a world. The world (Postgres/Db) has
-- the tables, the state of the Redis server, the clocks, the identifiers still to be drawn, the
-- counters written, the advisory lock, and the faults to come: each SQL statement takes one flag,
-- and where that is true it fails and changes nothing. A theorem about every world is so about
-- every choice of failing statements. A transaction runs its body on the world and restores the
-- tables where the body fails; a commit that fails takes one more flag, which says whether it took
-- effect all the same. UNIQUE and CHECK constraints that the schema in migrations/ sets make the
-- statement fail that breaks them; those that a column sets which the statement does not write are
-- met already. Of the ranges of columns only that of extension_count is modelled.
--
-- Numbers. Integers are unbounded, but the products and sums of resolveLines, which wrap to 64
-- bits. Identifiers are numbers whose order is that of their canonical text. There is no fuel:
-- every loop runs over a list.
--
-- Not modelled. Statements of concurrent transactions between those of one operation: an operation
-- runs on its world alone, and what others did is in the world it starts from. Scanning of rows,
-- logging, construction of clients, the matching of paths, and the entry points. The checks that
-- readiness makes of Postgres and Redis are parameters.
--
-- "Sound tables" are tables in which each pool's dedicated and reserved amounts are at or above 0
-- and together at most its total times its factor, which is at or above 0 and below 2^53, and each
-- hold's amount is positive. "A balanced
-- ledger" is tables in which each pool's reserved amount is the sum of the ACTIVE holds on it,
-- pools and holds have distinct ids, and each hold's amount is positive.
pub mod Base
pub mod External
pub mod Domain
pub mod Config
pub mod Ports
pub mod Postgres
pub mod Redis
pub mod Service
pub mod Deployment
pub mod Http
pub mod Ledger
pub mod Memory
pub mod Capacity
pub mod Behaviour
pub mod Runtime
mod Tests
