-- ===== src/Startup/Bound.antt =====
-- Which queues are bound once a process has started.
use feed_system_golang.Base.{
  ok_same, ℕ, String, str_eq, ◌≡◌, sym, ap, subst, ◌∙◌, inl, inr, Bool, not, ◌||◌, Option, none,
  some, List, [], ◌∷◌, Elem, ok, Exec, pure, ◌>>=◌,
}
use feed_system_golang.Backend.Keeps.{bind_then}
use feed_system_golang.Cache.{Client}
use feed_system_golang.Startup.Config.{ConfigFiles}
use feed_system_golang.Startup.Connection.{
  Drivers, RabbitMq, Topology, like_topology, comment_topology, social_topology,
  popularity_topology, fanout_topology, declare, declare_topic, is_connected,
}
use feed_system_golang.Startup.Workers.{running, declare_if, declare_all, start_workers}
use feed_system_golang.Startup.Broker.{
  BrokerLaws, Stays, stays_rules, Binds, first-Binds, then-Binds, Binds-raise, Binds-if,
}

module _ {W : Type 0} (files : ConfigFiles) (drivers : Drivers W) (bindings : W → List Topology)
    (laws : BrokerLaws drivers bindings) where
  exchange_declare-Stays : (exchange : String) → Stays bindings (drivers.exchange_declare exchange)
  exchange_declare-Stays exchange = record { at = laws.exchange_declare_keeps exchange }

  queue_declare-Stays : (queue : String) → Stays bindings (drivers.queue_declare queue)
  queue_declare-Stays queue = record { at = laws.queue_declare_keeps queue }

  queue_bind-Stays :
      (queue key exchange : String) → Stays bindings (drivers.queue_bind queue key exchange)
  queue_bind-Stays queue key exchange = record { at = laws.queue_bind_keeps queue key exchange }

  qos-Stays : (n : ℕ) → Stays bindings (drivers.qos n)
  qos-Stays n = record { at = laws.qos_keeps n }

  declare-Stays : (t : Topology) → Stays bindings (declare drivers t)
  unfolding declare
  declare-Stays t =
      search (stays_rules, exchange_declare-Stays, queue_declare-Stays, queue_bind-Stays)

  pub declare_topic-Stays :
      (rbq : Option RabbitMq) (t : Topology) → Stays bindings (declare_topic drivers rbq t)
  unfolding declare_topic
  declare_topic-Stays rbq t = search (stays_rules, declare-Stays)

  bind_named :
      (t : Topology) (name : String) (w : W)
      → name ≡ t.queue
      → (drivers.queue_bind name t.binding_key t.exchange w).0 ≡ ok tt
      → Elem t (bindings (drivers.queue_bind name t.binding_key t.exchange w).1)
  bind_named t name w q h =
      subst (λ n. Elem t (bindings (drivers.queue_bind n t.binding_key t.exchange w).1)) (sym q)
        (laws.queue_bind_binds t.queue t.binding_key t.exchange w
          (ap (λ n. (drivers.queue_bind n t.binding_key t.exchange w).0) (sym q) ∙ h))

  declare-Binds : (t : Topology) → Binds bindings t (declare drivers t)
  unfolding declare
  declare-Binds t = then-Binds bindings t (drivers.exchange_declare t.exchange) _ (λ _ w a h.
      bind_then (λ v. Elem t (bindings v)) (drivers.queue_declare t.queue) _ w a h
        (λ name q done. bind_named t name _ (laws.queue_declare_name t.queue name w q) done))

  pub declare_topic-Binds :
      (rbq : Option RabbitMq) (t : Topology) → Binds bindings t (declare_topic drivers rbq t)
  unfolding declare_topic
  declare_topic-Binds rbq t =
      Binds-if bindings t (not (is_connected rbq)) _ _ (Binds-raise bindings t _) (
        Binds-if bindings t (str_eq t.exchange "" || (str_eq t.queue "" || str_eq t.binding_key ""))
          _ _ (Binds-raise bindings t _) (declare-Binds t))

  declare_if-Stays :
      (needed : Bool) (rbq : Option RabbitMq) (t : Topology)
      → Stays bindings (declare_if files drivers needed rbq t)
  unfolding declare_if
  declare_if-Stays needed rbq t = search (stays_rules, declare_topic-Stays)

  -- A topology that is declared before the rest.
  declared_first :
      (t : Topology) (rbq : Option RabbitMq) (f : Unit {0} → Exec W (Unit {0}))
      → ((u : Unit {0}) → Stays bindings (f u))
      → Binds bindings t (declare_topic drivers rbq t >>= f)
  declared_first t rbq f =
      first-Binds bindings t (declare_topic drivers rbq t) f (declare_topic-Binds rbq t)

  module _ (rbq : Option RabbitMq) where
    social-Binds :
        (cache : Option Client)
        → Binds bindings social_topology (declare_all files drivers cache rbq)
    unfolding declare_all
    social-Binds cache =
        declared_first social_topology rbq _
          (λ _. search (stays_rules, declare_if-Stays, declare_topic-Stays, qos-Stays) depth 14)

    like-Binds :
        (cache : Option Client) → Binds bindings like_topology (declare_all files drivers cache rbq)
    unfolding declare_all
    like-Binds cache = then-Binds bindings like_topology _ _ (λ _.
        declared_first like_topology rbq _
          (λ _. search (stays_rules, declare_if-Stays, declare_topic-Stays, qos-Stays) depth 14))

    comment-Binds :
        (cache : Option Client)
        → Binds bindings comment_topology (declare_all files drivers cache rbq)
    unfolding declare_all
    comment-Binds cache = then-Binds bindings comment_topology _ _ (λ _.
        then-Binds bindings comment_topology _ _ (λ _.
          declared_first comment_topology rbq _
            (λ _. search (stays_rules, declare_if-Stays, qos-Stays) depth 14)))

    popularity-Binds :
        (client : Client)
        → Binds bindings popularity_topology (declare_all files drivers (some client) rbq)
    unfolding declare_all declare_if
    popularity-Binds client = then-Binds bindings popularity_topology _ _ (λ _.
        then-Binds bindings popularity_topology _ _ (λ _.
          then-Binds bindings popularity_topology _ _ (λ _.
            declared_first popularity_topology rbq _
              (λ _. search (stays_rules, declare_if-Stays, qos-Stays) depth 14))))

    fanout-Binds :
        (client : Client)
        → Binds bindings fanout_topology (declare_all files drivers (some client) rbq)
    unfolding declare_all declare_if
    fanout-Binds client = then-Binds bindings fanout_topology _ _ (λ _.
        then-Binds bindings fanout_topology _ _ (λ _. then-Binds bindings fanout_topology _ _ (λ _.
          then-Binds bindings fanout_topology _ _ (λ _.
            then-Binds bindings fanout_topology _ _
              (λ _. declare_topic-Binds rbq fanout_topology)))))

    listed :
        (t u : Topology) (m : Exec W (Unit {0})) → t ≡ u → Binds bindings u m → Binds bindings t m
    listed t u m e b = subst (λ v. Binds bindings v m) (sym e) b

    declare_all-Binds :
        (cache : Option Client) (t : Topology)
        → Elem t (running cache)
        → Binds bindings t (declare_all files drivers cache rbq)
    declare_all-Binds cache t i =
        elim cache
            as (λ c. Elem t (running c) → Binds bindings t (declare_all files drivers c rbq)) [
              | none ↦ basic none
              | some client ↦ λ j. elim j [
                | inl e ↦ listed t social_topology _ e (social-Binds (some client))
                | inr (inl e) ↦ listed t like_topology _ e (like-Binds (some client))
                | inr (inr (inl e)) ↦ listed t comment_topology _ e (comment-Binds (some client))
                | inr (inr (inr (inl e))) ↦
                    listed t popularity_topology _ e (popularity-Binds client)
                | inr (inr (inr (inr (inl e)))) ↦ listed t fanout_topology _ e (fanout-Binds client)
                | inr (inr (inr (inr (inr k)))) ↦ absurd k
              ]
            ]
          i
      where
        basic :
            (c : Option Client)
            → Elem t (social_topology ∷ like_topology ∷ comment_topology ∷ [])
            → Binds bindings t (declare_all files drivers c rbq)
        basic c (inl e) = listed t social_topology _ e (social-Binds c)
        basic c (inr (inl e)) = listed t like_topology _ e (like-Binds c)
        basic c (inr (inr (inl e))) = listed t comment_topology _ e (comment-Binds c)
        basic c (inr (inr (inr k))) = absurd k

module _ {W : Type 0} (files : ConfigFiles) (drivers : Drivers W)
    (bindings : W → List Topology) where
  -- When the worker process has started, each queue that one of its workers reads is bound to the
  -- exchange and with the key of its topology.
  pub start_workers_bound :
      BrokerLaws drivers bindings
      → (flag : String) (w : W) (consumed : List Topology)
      → (start_workers files drivers flag w).0 ≡ ok consumed
      → (t : Topology) → Elem t consumed
      → Elem t (bindings (start_workers files drivers flag w).1)
  unfolding start_workers pure
  start_workers_bound laws flag w consumed h =
      let After : W → Type 0 = λ v. (t : Topology) → Elem t consumed → Elem t (bindings v) in
      bind_then After _ _ w consumed h (λ loaded _ h1. bind_then After _ _ _ consumed h1 (λ _ _ h2.
        bind_then After _ _ _ consumed h2 (λ cache _ h3.
          bind_then After _ _ _ consumed h3 (λ rbq _ h4.
            bind_then After (declare_all files drivers cache (some rbq)) _ _ consumed h4
              (λ u done h5 t i.
                declare_all-Binds files drivers bindings laws (some rbq) cache t
                  (subst (Elem t) (sym (ok_same (running cache) consumed h5)) i) _ u done)))))
