-- ===== src/Startup/Connection.antt =====
-- middleware/rabbitmq/rabbitmq.go over amqp091, the constructors of the producers, and the
-- connections to MySQL and Redis.
use feed_system_golang.Base.{
  ℕ, String, str_eq, Bool, true, false, not, ◌&&◌, ◌||◌, Option, none, some, message, Result, ok,
  err, Exec, pure, raise, attempt, ignore, ◌>>=◌, ◌>>◌, if◌then◌else◌,
}
use Prim.Native.String.{◌++◌}
use feed_system_golang.Cache.{Client}
use feed_system_golang.Startup.Config.{DatabaseConfig, RabbitMqConfig}

-- The calls of amqp091, gorm and go-redis.
pub record Drivers (W : Type 0) : Type 0 where
  pub decimal : ℕ → String
  pub dial : String → Exec W (Unit {0})
  pub open_channel : Exec W (Unit {0})
  pub close_channel : Exec W (Unit {0})
  pub close_connection : Exec W (Unit {0})
  pub exchange_declare : String → Exec W (Unit {0})
  -- The queue's name.
  pub queue_declare : String → Exec W String
  -- Queue, binding key and exchange.
  pub queue_bind : String → String → String → Exec W (Unit {0})
  pub qos : ℕ → Exec W (Unit {0})
  -- Exchange, routing key and body.
  pub publish_with_context : String → String → String → Exec W (Unit {0})
  pub open_mysql : String → Exec W (Unit {0})
  pub auto_migrate : Exec W (Unit {0})
  pub ping : Exec W (Unit {0})
  pub close_redis : Exec W (Unit {0})

-- The connection and the channel may be nil.
pub record RabbitMq : Type 0 where
  pub has_conn : Bool
  pub has_ch : Bool

abbrev pub is_connected : Option RabbitMq → Bool
is_connected none = false
is_connected (some mq) = mq.has_ch && mq.has_conn

-- An exchange, a queue and the key that binds them.
pub record Topology : Type 0 where
  pub exchange : String
  pub queue : String
  pub binding_key : String

abbrev pub social_topology : Topology
social_topology = record {
  exchange = "social.events";
  queue = "social.events";
  binding_key = "social.*";
}

abbrev pub like_topology : Topology
like_topology = record { exchange = "like.events"; queue = "like.events"; binding_key = "like.*" }

abbrev pub comment_topology : Topology
comment_topology = record {
  exchange = "comment.events";
  queue = "comment.events";
  binding_key = "comment.*";
}

abbrev pub popularity_topology : Topology
popularity_topology = record {
  exchange = "video.popularity.events";
  queue = "video.popularity.events";
  binding_key = "video.popularity.*";
}

abbrev pub timeline_topology : Topology
timeline_topology = record {
  exchange = "video.timeline.events";
  queue = "video.timeline.update.queue";
  binding_key = "video.timeline.publish";
}

-- On the timeline's exchange.
abbrev pub fanout_topology : Topology
fanout_topology = record {
  exchange = "video.timeline.events";
  queue = "video.timeline.fanout.queue";
  binding_key = "video.timeline.fanout";
}

module _ {W : Type 0} (drivers : Drivers W) where
  abbrev pub amqp_url : RabbitMqConfig → String
  amqp_url cfg =
      "amqp://"
      ++ cfg.username
      ++ ":"
      ++ cfg.password
      ++ "@"
      ++ cfg.host
      ++ ":"
      ++ drivers.decimal cfg.port

  unfoldable pub new_rabbit_mq : Option RabbitMqConfig → Exec W RabbitMq
  new_rabbit_mq none = raise (message "rabbitmq config is nil")
  new_rabbit_mq (some cfg) = do
    drivers.dial (amqp_url cfg)
    drivers.open_channel
    pure (record { has_conn = true; has_ch = true })

  unfoldable pub close : Option RabbitMq → Exec W (Unit {0})
  close mq = if is_connected mq then drivers.close_channel >> drivers.close_connection else pure tt

  unfoldable pub declare : Topology → Exec W (Unit {0})
  declare t = do
    drivers.exchange_declare t.exchange
    name ← drivers.queue_declare t.queue
    drivers.queue_bind name t.binding_key t.exchange

  -- `DeclareTopic`
  unfoldable pub declare_topic : Option RabbitMq → Topology → Exec W (Unit {0})
  unfolding declare
  declare_topic mq t =
      if not (is_connected mq)
      then raise (message "RabbitMQ is not initialized")
      else if str_eq t.exchange "" || (str_eq t.queue "" || str_eq t.binding_key "")
      then raise (message "exchange,queue,bindingKey cannot be empty!")
      else declare t

  unfoldable pub publish_body : String → String → Result String → Exec W (Unit {0})
  publish_body exchange routing_key (err e) = raise e
  publish_body exchange routing_key (ok body) =
      drivers.publish_with_context exchange routing_key body

  -- `PublishJSON`, with what `json.Marshal` makes of the data, which may be nil.
  unfoldable pub publish_json :
      Option RabbitMq → String → String → Option (Result String) → Exec W (Unit {0})
  publish_json mq exchange routing_key none =
      if not (is_connected mq)
      then raise (message "RabbitMQ is not initialized")
      else raise (message "exchange,routineKey,data cannot be empty!")
  publish_json mq exchange routing_key (some body) =
      if not (is_connected mq)
      then raise (message "RabbitMQ is not initialized")
      else if str_eq exchange "" || str_eq routing_key ""
      then raise (message "exchange,routineKey,data cannot be empty!")
      else publish_body exchange routing_key body

  -- `NewLikeMQ` and the other constructors: the queue of the producer is declared.
  unfoldable pub new_mq : Topology → Option RabbitMq → Exec W (Unit {0})
  new_mq t none = raise (message "rabbitmq base is nil")
  new_mq t (some mq) = declare_topic (some mq) t

  -- `db.NewDB`; the sizes of its pool are left out.
  abbrev pub dsn : DatabaseConfig → String
  dsn cfg =
      cfg.user
      ++ ":"
      ++ cfg.password
      ++ "@tcp("
      ++ cfg.host
      ++ ":"
      ++ drivers.decimal cfg.port
      ++ ")/"
      ++ cfg.db_name
      ++ "?charset=utf8mb4&parseTime=True&loc=Local"

  unfoldable pub new_db : DatabaseConfig → Exec W (Unit {0})
  new_db cfg = drivers.open_mysql (dsn cfg)

  -- `NewFromEnv`, which connects at the first command and has no error.
  abbrev pub new_client : Client
  new_client = record { has_rdb = true; breaker = some (record { has_cb = true }) }

  -- `Ping` and `Close` of a client.
  unfoldable pub ping_client : Client → Exec W (Unit {0})
  ping_client client = if client.has_rdb then drivers.ping else pure tt

  unfoldable pub close_client : Client → Exec W (Unit {0})
  close_client client = if client.has_rdb then drivers.close_redis else pure tt

  unfoldable pub keep_answering : Client → Result (Unit {0}) → Exec W (Option Client)
  keep_answering client (ok u) = pure (some client)
  keep_answering client (err e) = do ignore (close_client client); pure none

  -- The cache, if Redis answers.
  unfoldable pub connect_redis : Exec W (Option Client)
  unfolding ping_client close_client keep_answering
  connect_redis = do r ← attempt (ping_client new_client); keep_answering new_client r
