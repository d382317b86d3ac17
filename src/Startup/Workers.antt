-- ===== src/Startup/Workers.antt =====
-- cmd/worker/main.go: from the flag to the consumers, each of which reads one queue.
use feed_system_golang.Base.{
  ℕ, String, Bool, Option, none, some, is_some, List, [], ◌∷◌, Exec, pure, give, ◌>>=◌, ◌>>◌,
  if◌then◌else◌,
}
use feed_system_golang.Cache.{Client}
use feed_system_golang.Startup.Config.{ConfigFiles, config_path, load_local_dev}
use feed_system_golang.Startup.Connection.{
  Drivers, RabbitMq, Topology, like_topology, comment_topology, social_topology,
  popularity_topology, fanout_topology, new_rabbit_mq, declare_topic, new_db, connect_redis,
}

abbrev pub prefetch_count : ℕ
prefetch_count = 50

-- What runs: the popularity and the fanout worker need the cache.
abbrev pub running : Option Client → List Topology
running none = social_topology ∷ like_topology ∷ comment_topology ∷ []
running (some client) =
    social_topology ∷ like_topology ∷ comment_topology ∷ popularity_topology ∷ fanout_topology ∷ []

module _ {W : Type 0} (files : ConfigFiles) (drivers : Drivers W) where
  unfoldable pub declare_if : Bool → Option RabbitMq → Topology → Exec W (Unit {0})
  declare_if needed rbq t = if needed then declare_topic drivers rbq t else pure tt

  -- The topologies come first, and the queue of the fanout after the prefetch.
  unfoldable pub declare_all : Option Client → Option RabbitMq → Exec W (Unit {0})
  unfolding declare_if
  declare_all cache rbq = do
    declare_topic drivers rbq social_topology
    declare_topic drivers rbq like_topology
    declare_topic drivers rbq comment_topology
    declare_if (is_some cache) rbq popularity_topology
    drivers.qos prefetch_count
    declare_if (is_some cache) rbq fanout_topology

  -- The queues that are consumed once everything is up.
  unfoldable pub start_workers : String → Exec W (List Topology)
  unfolding declare_all
  start_workers flag = do
    loaded ← give (load_local_dev files (config_path flag))
    new_db drivers loaded.0.database
    cache ← connect_redis drivers
    rbq ← new_rabbit_mq drivers (some loaded.0.rabbit_mq)
    declare_all cache (some rbq)
    pure (running cache)
