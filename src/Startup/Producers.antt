-- ===== src/Startup/Producers.antt =====
-- What a server that has started can send to.
use feed_system_golang.Base.{◌≡◌, Bool, true, Option, some, List, Elem}
use feed_system_golang.Startup.Config.{ConfigFiles}
use feed_system_golang.Startup.Connection.{
  Drivers, RabbitMq, Topology, like_topology, comment_topology, social_topology,
  popularity_topology, timeline_topology, fanout_topology,
}
use feed_system_golang.Startup.Api.{App}
use feed_system_golang.Startup.Broker.{BrokerLaws}

module _ {W : Type 0} (files : ConfigFiles) (drivers : Drivers W) (bindings : W → List Topology)
    (laws : BrokerLaws drivers bindings) where
  Opened : Bool → Topology → Option RabbitMq → W → Type 0
  Opened on t rbq w = on ≡ true → ((mq : RabbitMq) × (rbq ≡ some mq)) × Elem t (bindings w)

  -- The process has a connection and the timeline's queue, and a queue for each producer it has.
  abbrev pub Producing : App → W → Type 0
  Producing app w =
      ((mq : RabbitMq) × (app.rbq ≡ some mq))
      × (app.has_timeline_mq ≡ true)
      × (app.has_timeline_mq ≡ true → Elem timeline_topology (bindings w))
      × (app.has_popularity_mq ≡ true → Elem popularity_topology (bindings w))
      × (app.has_like_mq ≡ true → Elem like_topology (bindings w))
      × (app.has_comment_mq ≡ true → Elem comment_topology (bindings w))
      × (app.has_social_mq ≡ true → Elem social_topology (bindings w))
      × (app.has_fanout_mq ≡ true → Elem fanout_topology (bindings w))
