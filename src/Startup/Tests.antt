-- ===== src/Startup/Tests.antt =====
-- Both processes started, with a broker that keeps the bindings in a list.
use feed_system_golang.Base.{
  ok_same, ◌≡◌, refl, sym, inl, inr, true, some, List, [], ◌∷◌, Elem, message, ok, err, ◌>>=◌,
}
use feed_system_golang.Startup.Config.{ConfigFiles, default_local_config, load_local_dev}
use feed_system_golang.Startup.Connection.{
  Drivers, Topology, social_topology, like_topology, comment_topology, popularity_topology,
  fanout_topology, declare_topic, new_rabbit_mq, new_db, connect_redis,
}
use feed_system_golang.Startup.Api.{App}
use feed_system_golang.Startup.Workers.{start_workers}
use feed_system_golang.Startup.Broker.{BrokerLaws}
use feed_system_golang.Startup.Bound.{start_workers_bound}

-- There is no file.
abbrev files : ConfigFiles
files = record {
  read_file = λ name. err (message "no such file");
  unmarshal = λ text. ok default_local_config;
  is_not_exist = λ e. true;
}

abbrev drivers : Drivers (List Topology)
drivers = record {
  decimal = λ n. "5672";
  dial = λ url w. (ok tt, w);
  open_channel = λ w. (ok tt, w);
  close_channel = λ w. (ok tt, w);
  close_connection = λ w. (ok tt, w);
  exchange_declare = λ exchange w. (ok tt, w);
  queue_declare = λ queue w. (ok queue, w);
  queue_bind = λ queue key exchange w.
      (ok tt, record { exchange = exchange; queue = queue; binding_key = key } ∷ w);
  qos = λ n w. (ok tt, w);
  publish_with_context = λ exchange key body w. (ok tt, w);
  open_mysql = λ dsn w. (ok tt, w);
  auto_migrate = λ w. (ok tt, w);
  ping = λ w. (ok tt, w);
  close_redis = λ w. (ok tt, w);
}

drivers-BrokerLaws : BrokerLaws drivers (λ w. w)
drivers-BrokerLaws = record {
  queue_declare_name = λ queue name w h. ok_same name queue (sym h);
  queue_bind_binds = λ queue key exchange w h. inl refl;
  exchange_declare_keeps = λ exchange w t i. i;
  queue_declare_keeps = λ queue w t i. i;
  queue_bind_keeps = λ queue key exchange w t i. inr i;
  qos_keeps = λ n w t i. i;
}

abbrev consumed : List Topology
consumed =
    social_topology ∷ like_topology ∷ comment_topology ∷ popularity_topology ∷ fanout_topology ∷ []

workers_started : (start_workers files drivers "" []).0 ≡ ok consumed
unfolding start_workers load_local_dev new_db connect_redis new_rabbit_mq declare_topic ◌>>=◌
workers_started = refl

start_workers_bound_example : Elem fanout_topology (start_workers files drivers "" []).1
start_workers_bound_example =
    start_workers_bound files drivers (λ w. w) drivers-BrokerLaws "" [] consumed workers_started
      fanout_topology (inr (inr (inr (inr (inl refl)))))

abbrev app : App
app = record {
  cache = some (record { has_rdb = true; breaker = some (record { has_cb = true }) });
  rbq = some (record { has_conn = true; has_ch = true });
  has_popularity_mq = true;
  has_like_mq = true;
  has_comment_mq = true;
  has_social_mq = true;
  has_timeline_mq = true;
  has_fanout_mq = true;
}
