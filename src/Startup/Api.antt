-- ===== src/Startup/Api.antt =====
-- cmd/main.go and the queues of `SetRouter` in internal/http/router.go: from the flag to a process
-- that serves. `log.Fatalf` and a panic that nothing recovers end the process: they are errors here.
use feed_system_golang.Base.{
  String, Bool, true, false, Option, none, some, message, Result, ok, err, is_ok, Exec, pure, raise,
  give, attempt, ◌>>=◌, ◌>>◌,
}
use feed_system_golang.Cache.{Client}
use feed_system_golang.Startup.Config.{ConfigFiles, config_path, load_local_dev}
use feed_system_golang.Startup.Connection.{
  Drivers, RabbitMq, Topology, like_topology, comment_topology, social_topology,
  popularity_topology, timeline_topology, fanout_topology, new_rabbit_mq, new_mq, new_db,
  connect_redis,
}

-- The parts of a process that serves.
pub record App : Type 0 where
  pub cache : Option Client
  pub rbq : Option RabbitMq
  pub has_popularity_mq : Bool
  pub has_like_mq : Bool
  pub has_comment_mq : Bool
  pub has_social_mq : Bool
  pub has_timeline_mq : Bool
  pub has_fanout_mq : Bool

abbrev pub or_none : {A : Type 0} → Result A → Option A
or_none (ok a) = some a
or_none (err e) = none

module _ {W : Type 0} (files : ConfigFiles) (drivers : Drivers W) where
  -- An error disables the queue: the producer is nil.
  unfoldable pub try_mq : Topology → Option RabbitMq → Exec W Bool
  try_mq t rbq = do r ← attempt (new_mq drivers t rbq); pure (is_ok r)

  -- `StartConsumer` reads the channel of a producer that may be nil, which panics. An error of
  -- `Consume` is only logged.
  unfoldable pub start_consumer : Bool → Exec W (Unit {0})
  start_consumer false = raise (message "invalid memory address or nil pointer dereference")
  start_consumer true = pure tt

  unfoldable pub set_router : Option Client → Option RabbitMq → Exec W App
  unfolding try_mq start_consumer
  set_router cache rbq = do
    popularity ← try_mq popularity_topology rbq
    like ← try_mq like_topology rbq
    comment ← try_mq comment_topology rbq
    social ← try_mq social_topology rbq
    timeline ← try_mq timeline_topology rbq
    fanout ← try_mq fanout_topology rbq
    start_consumer timeline
    pure (record {
      cache = cache;
      rbq = rbq;
      has_popularity_mq = popularity;
      has_like_mq = like;
      has_comment_mq = comment;
      has_social_mq = social;
      has_timeline_mq = timeline;
      has_fanout_mq = fanout;
    })

  -- Without Redis the cache is nil, and without RabbitMQ the connection is.
  unfoldable pub start_api : String → Exec W App
  unfolding set_router
  start_api flag = do
    loaded ← give (load_local_dev files (config_path flag))
    new_db drivers loaded.0.database
    drivers.auto_migrate
    cache ← connect_redis drivers
    rbq ← attempt (new_rabbit_mq drivers (some loaded.0.rabbit_mq))
    set_router cache (or_none rbq)
