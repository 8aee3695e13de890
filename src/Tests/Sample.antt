-- ===== src/Tests/Sample.antt =====
-- A small deployment: whole numbers for doubles, a Redis server that keeps nothing, two pools, one
-- product and one customer with a quota.
use cloud_resource_manager.Base.{
  ◌+◌, Bool, true, false, none, some, List, [], ◌∷◌, String, str_lt, not,
}
use cloud_resource_manager.Base.Int.{ℤ, pos, ◌-ℤ◌, ◌*ℤ◌, leb_ℤ, ltb_ℤ}
use cloud_resource_manager.Base.Action.{ok}
use cloud_resource_manager.Config.{Config}
use cloud_resource_manager.External.{Doubles}
use cloud_resource_manager.Domain.Types.{ResourcePool, Product, Uuid}
use cloud_resource_manager.Ports.{Ports}
use cloud_resource_manager.Postgres.Db.{Db, World}
use cloud_resource_manager.Redis.{Server}
use cloud_resource_manager.Service.Input.{CreateInput, Codecs}
use cloud_resource_manager.Deployment.{production}

abbrev pub doubles : Doubles ℤ
doubles = record {
  of_int = λ z. z;
  mul = λ a b. a *ℤ b;
  sub = λ a b. a -ℤ b;
  div = λ a b. a;
  floor = λ a. a;
  trunc = λ a. a;
  le = λ a b. leb_ℤ a b;
  lt = λ a b. ltb_ℤ a b;
}

abbrev pub server : Server (Unit {0})
server = record {
  get = λ k r. (ok none, r);
  set = λ k v ttl r. (ok tt, r);
  del = λ k r. (ok tt, r);
}

abbrev pub codecs : Codecs ℤ
codecs = record {
  marshal_body = λ b. some b.product_code;
  sha256_hex = λ s. s;
  marshal_details = λ d. none;
  marshal_views = λ vs. none;
  unmarshal_views = λ s. none;
  uuid_text = λ u. "id";
  uuid_parse = λ s. none;
}

abbrev pub config : Config
config = record {
  http_addr = ":8080";
  metrics_addr = "";
  postgres_dsn = "";
  redis_addr = "";
  reserve_ttl = pos 900;
  max_extensions = pos 3;
  max_reserve_wall_time = pos 3600;
  capacity_cache_ttl = pos 2;
  http_read_timeout = pos 10;
  http_write_timeout = pos 10;
  sweeper_interval = pos 30;
  retry_after_seconds = pos 5;
  migrations_path = "migrations";
  max_active_holds_per_customer = pos 10;
}

abbrev pub pool : Uuid → String → ℤ → ResourcePool ℤ
pool id kind total = record {
  id = id;
  kind = kind;
  unit = "unit";
  total = total;
  oversubscribe_factor = pos 1;
  dedicated_amount = pos 0;
  reserved_amount = pos 0;
  policy = record { splittable = true; min_grain = pos 1; max_grain = pos 0 };
  created_at = pos 0;
  updated_at = pos 0;
}

abbrev pub small_vm : Product
small_vm = record {
  id = 7;
  code = "small";
  name = "Small VM";
  resource_template = ("cpu", pos 2) ∷ ("ram", pos 4) ∷ [];
  created_at = pos 0;
}

abbrev pub tables : Db ℤ
tables = record {
  pools = pool 1 "cpu" (pos 10) ∷ pool 2 "ram" (pos 10) ∷ [];
  products = small_vm ∷ [];
  quotas = [];
  requests = [];
  lines = [];
  holds = [];
  dedications = [];
  events = [];
}

abbrev pub world_of : Db ℤ → List Bool → World ℤ (Unit {0})
world_of d faults = record {
  db = d;
  redis = tt;
  clock = pos 1000;
  db_clock = pos 1000;
  uuids = λ n. 100 + n;
  drawn = 0;
  metrics = [];
  pinned = none;
  taken_elsewhere = false;
  faults = faults;
}

abbrev pub ports : Ports ℤ (World ℤ (Unit {0}))
ports = production doubles (λ s t. not (str_lt t s)) server

abbrev pub order : String → CreateInput
order key = record {
  customer_id = "acme";
  idempotency_key = key;
  product_code = "small";
  quantity = pos 2;
  lines = [];
  correlation_id = "c";
}
