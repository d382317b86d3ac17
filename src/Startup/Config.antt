-- ===== src/Startup/Config.antt =====
-- config/loadconfig.go. Reading a file and yaml are parameters; a wrapped error is the error itself.
use feed_system_golang.Base.{
  ℕ, String, str_eq, Bool, true, false, Error, Result, ok, err, if◌then◌else◌,
}

pub record ServerConfig : Type 0 where
  pub port : ℕ

pub record DatabaseConfig : Type 0 where
  pub host : String
  pub port : ℕ
  pub user : String
  pub password : String
  pub db_name : String

pub record RedisConfig : Type 0 where
  pub host : String
  pub port : ℕ
  pub password : String
  pub db : ℕ

pub record RabbitMqConfig : Type 0 where
  pub host : String
  pub port : ℕ
  pub username : String
  pub password : String

pub record PprofConfig : Type 0 where
  pub enabled : Bool
  pub api_addr : String
  pub worker_addr : String

pub record Config : Type 0 where
  pub server : ServerConfig
  pub database : DatabaseConfig
  pub redis : RedisConfig
  pub rabbit_mq : RabbitMqConfig
  pub pprof : PprofConfig

pub record ConfigFiles : Type 0 where
  -- `os.ReadFile`, `yaml.Unmarshal`, and `errors.Is(err, os.ErrNotExist)`.
  pub read_file : String → Result String
  pub unmarshal : String → Result Config
  pub is_not_exist : Error → Bool

abbrev pub default_local_config : Config
default_local_config = record {
  server = record { port = 8080 };
  database = record {
    host = "localhost";
    port = 3306;
    user = "root";
    password = "123456";
    db_name = "feedsystem";
  };
  redis = record { host = "localhost"; port = 6379; password = "123456"; db = 0 };
  rabbit_mq = record {
    host = "localhost";
    port = 5672;
    username = "admin";
    password = "password123";
  };
  pprof = record { enabled = true; api_addr = "localhost:6060"; worker_addr = "localhost:6061" };
}

-- The variable CONFIG_PATH is read and then overwritten by the flag.
abbrev pub config_path : String → String
config_path flag = if str_eq flag "" then "configs/config.yaml" else flag

module _ (files : ConfigFiles) where
  abbrev pub parsed : Result String → Result Config
  parsed (ok text) = files.unmarshal text
  parsed (err e) = err e

  unfoldable pub load : String → Result Config
  load filename = parsed (files.read_file filename)

  -- With a file that is not there, the defaults.
  unfoldable pub or_default : Result Config → Result (Config × Bool)
  or_default (ok cfg) = ok (cfg, false)
  or_default (err e) = if files.is_not_exist e then ok (default_local_config, true) else err e

  unfoldable pub load_local_dev : String → Result (Config × Bool)
  unfolding load or_default
  load_local_dev filename = or_default (load filename)
