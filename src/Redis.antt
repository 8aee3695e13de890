-- ===== src/Redis.antt =====
-- internal/repository/redisx/redis.go: the cache and the idempotency store on a Redis server, and
-- the degrading stores, which turn each error into a miss. The server is a parameter.
use cloud_resource_manager.Base.{Option, none, String}
use cloud_resource_manager.Base.Action.{Result, ok, err, Action}
use cloud_resource_manager.Domain.Types.{Duration}
use cloud_resource_manager.Domain.Errors.{Error}
use Prim.Native.String.{◌++◌}

-- GET, which finds a value or reports that there is none (redis.Nil), SET with a time to live, and
-- DEL; each may fail.
pub record Server (R : Type 0) : Type 0 where
  pub get : String → Action Error R (Option String)
  pub set : String → String → Duration → Action Error R (Unit {0})
  pub del : String → Action Error R (Unit {0})

module _ {R : Type 0} (server : Server R) where
  unfoldable pub get_capacity : String → Action Error R (Option String)
  get_capacity key = server.get ("capacity:" ++ key)

  unfoldable pub set_capacity : String → String → Duration → Action Error R (Unit {0})
  set_capacity key value ttl = server.set ("capacity:" ++ key) value ttl

  unfoldable pub invalidate_capacity : String → Action Error R (Unit {0})
  invalidate_capacity key = server.del ("capacity:" ++ key)

  unfoldable pub idem_key : String → String → String
  idem_key customer_id key = "idempotency:" ++ customer_id ++ ":" ++ key

  unfoldable pub get_idempotent : String → String → Action Error R (Option String)
  unfolding idem_key
  get_idempotent customer_id key = server.get (idem_key customer_id key)

  unfoldable pub set_idempotent : String → String → String → Duration → Action Error R (Unit {0})
  unfolding idem_key
  set_idempotent customer_id key request_id ttl =
      server.set (idem_key customer_id key) request_id ttl

  -- The degrading stores.
  abbrev or_none : Result Error (Option String) → Result Error (Option String)
  or_none (ok v) = ok v
  or_none (err e) = ok none

  unfoldable pub degrading_get_capacity : String → Action Error R (Option String)
  unfolding get_capacity
  degrading_get_capacity key r = (or_none (get_capacity key r).0, (get_capacity key r).1)

  unfoldable pub degrading_set_capacity : String → String → Duration → Action Error R (Unit {0})
  unfolding set_capacity
  degrading_set_capacity key value ttl r = (ok tt, (set_capacity key value ttl r).1)

  unfoldable pub degrading_invalidate_capacity : String → Action Error R (Unit {0})
  unfolding invalidate_capacity
  degrading_invalidate_capacity key r = (ok tt, (invalidate_capacity key r).1)

  unfoldable pub degrading_get_idempotent : String → String → Action Error R (Option String)
  unfolding get_idempotent
  degrading_get_idempotent customer_id key r =
      (or_none (get_idempotent customer_id key r).0, (get_idempotent customer_id key r).1)

  unfoldable pub degrading_set_idempotent :
      String → String → String → Duration → Action Error R (Unit {0})
  unfolding set_idempotent
  degrading_set_idempotent customer_id key request_id ttl r =
      (ok tt, (set_idempotent customer_id key request_id ttl r).1)
