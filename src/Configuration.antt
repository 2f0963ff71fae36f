-- ===== src/Configuration.antt =====
-- internal/configuration/configuration.go. The environment after `godotenv.Load`, `strconv.Atoi`, the
-- host's name and the functions of os, runtime and path/filepath are parameters; `none` is
-- `os.Exit(1)`.
use aita.Common.{
  ℤ, pos, String, str_eq, ◌≡◌, ◌≢◌, refl, subst, str_eq-false, Bool, true, false, ◌||◌, Option,
  none, some, List, [], ◌∷◌, All, if◌then◌else◌, arith,
}
use Prim.Native.String.{◌++◌}

-- The environment, as `os.Getenv` reads it, and what surrounds the process.
pub record Surroundings : Type 0 where
  pub getenv : String → String
  pub atoi : String → Option ℤ
  pub hostname : String
  pub load : String → Bool
  pub dot_env_here : Bool
  pub working_directory : String
  pub source_root : String
  pub join : String → String → String

-- init: `source_root` is two directories above this file.
unfoldable pub project_root : Surroundings → String
project_root os =
    let root = os.getenv "AITA_PROJECT_ROOT" in
    if str_eq root ""
    then (if os.dot_env_here then os.working_directory else os.source_root)
    else root

-- GetPath
unfoldable pub get_path : Surroundings → String → String
unfolding project_root
get_path os rel_path = os.join (project_root os) rel_path

pub record Config : Type 0 where
  pub db_conn_str : String
  pub server_address : String
  pub app_env : String
  pub redis_host : String
  pub redis_port : String
  pub redis_password : String
  pub tweet_stream : String
  pub fanout_group : String
  pub consumer_name : String
  pub db_max_open_conns : ℤ
  pub db_max_idle_conns : ℤ
  pub db_conn_max_lifetime : ℤ
  pub redis_pool_size : ℤ
  pub redis_min_idle_conns : ℤ
  pub worker_pool_size : ℤ
  pub backfill_pool_size : ℤ

abbrev parsed_or : Option ℤ → ℤ → ℤ
parsed_or (some v) default = v
parsed_or none default = default

-- getEnvInt
unfoldable pub get_env_int : Surroundings → String → ℤ → ℤ
get_env_int os key default =
    let s = os.getenv key in if str_eq s "" then default else parsed_or (os.atoi s) default

abbrev or_default : String → String → String
or_default s default = if str_eq s "" then default else s

-- The configuration before the required fields are looked at.
unfoldable pub read_config : Surroundings → Config
unfolding get_env_int
read_config os =
    let app_env = or_default (os.getenv "APP_ENV") "development" in
    record {
      db_conn_str = if str_eq app_env "test" then os.getenv "DB_TEST_URL" else os.getenv "DB_URL";
      server_address = ":8080";
      app_env = app_env;
      redis_host = os.getenv "REDIS_HOST";
      redis_port = os.getenv "REDIS_PORT";
      redis_password = os.getenv "REDIS_PASSWORD";
      tweet_stream = or_default (os.getenv "TWEET_STREAM") "aita:tweet:stream";
      fanout_group = or_default (os.getenv "FANOUT_GROUP") "aita:fanout:group";
      consumer_name = or_default (os.getenv "CONSUMER_NAME") ("api-node-" ++ os.hostname);
      db_max_open_conns = get_env_int os "DB_MAX_OPEN" (pos 300);
      db_max_idle_conns = get_env_int os "DB_MAX_IDLE" (pos 50);
      db_conn_max_lifetime = get_env_int os "DB_MAX_LIFETIME" (pos 30);
      redis_pool_size = get_env_int os "REDIS_POOL_SIZE" (pos 500);
      redis_min_idle_conns = get_env_int os "REDIS_MIN_IDLE" (pos 20);
      worker_pool_size = get_env_int os "WORKER_POOL_SIZE" (pos 2000);
      backfill_pool_size = get_env_int os "BACKFILL_POOL_SIZE" (pos 500);
    }

abbrev any_missing : List String → Bool
any_missing [] = false
any_missing (v ∷ vs) = str_eq v "" || any_missing vs

-- Whether a required field is empty.
unfoldable pub missing_in : Config → Bool
missing_in c =
    any_missing
      (c.db_conn_str ∷ c.redis_host ∷ c.redis_port ∷ c.redis_password ∷ c.tweet_stream ∷ [])

-- The loop over the map of required fields, whose order does not matter.
unfoldable pub required : Config → Option Config
unfolding missing_in
required cfg = if missing_in cfg then none else some cfg

-- LoadConfig
unfoldable pub load_config : Surroundings → Option Config
unfolding get_path read_config required
load_config os = if os.load (get_path os ".env") then required (read_config os) else none

pub record IsComplete (cfg : Config) : Type 0 where
  pub db_conn_str : cfg.db_conn_str ≢ ""
  pub redis_host : cfg.redis_host ≢ ""
  pub redis_port : cfg.redis_port ≢ ""
  pub redis_password : cfg.redis_password ≢ ""
  pub tweet_stream : cfg.tweet_stream ≢ ""
  pub server_address : cfg.server_address ≡ ":8080"

any_missing-All : (vs : List String) → any_missing vs ≡ false → All (λ v. v ≢ "") vs
any_missing-All [] h = tt
any_missing-All (v ∷ vs) h =
    (str_eq-false v "" (ground (arith, h)), any_missing-All vs (ground (arith, h)))

complete :
    (c cfg : Config) (b : Bool)
    → missing_in c ≡ b
    → (if b then none else some c) ≡ some cfg
    → c.server_address ≡ ":8080"
    → IsComplete cfg
unfolding missing_in
complete c cfg true h k address = cc
complete c cfg false h k address =
    let (db, (host, (port, (password, (stream, done))))) =
      any_missing-All
        (c.db_conn_str ∷ c.redis_host ∷ c.redis_port ∷ c.redis_password ∷ c.tweet_stream ∷ []) h in
    subst IsComplete (same k) (record {
      db_conn_str = db;
      redis_host = host;
      redis_port = port;
      redis_password = password;
      tweet_stream = stream;
      server_address = address;
    })
  where
    same : some c ≡ some cfg → c ≡ cfg
    same e = ground arith

required-IsComplete :
    (c cfg : Config) → c.server_address ≡ ":8080" → required c ≡ some cfg → IsComplete cfg
unfolding required
required-IsComplete c cfg address h = complete c cfg (missing_in c) refl h address

-- A configuration that is loaded has a database, a host, a port and a password of Redis and a
-- stream, none of them empty, and the address :8080.
pub load_config-IsComplete :
    (os : Surroundings) (cfg : Config) → load_config os ≡ some cfg → IsComplete cfg
unfolding load_config
load_config-IsComplete os cfg h = go (os.load (get_path os ".env")) h
  where
    go : (b : Bool) → (if b then required (read_config os) else none) ≡ some cfg → IsComplete cfg
    go true k = required-IsComplete (read_config os) cfg (unfold read_config in refl) k
    go false k = cc
