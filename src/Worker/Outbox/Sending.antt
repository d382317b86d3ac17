-- ===== src/Worker/Outbox/Sending.antt =====
-- What announcing a message sends.
use feed_system_golang.Base.{
  ◌≡◌, Bool, true, false, List, Error, Result, ok, err, Exec, pure, raise, attempt, ignore,
  continue, ◌>>=◌, if◌then◌else◌, Elem,
}
use feed_system_golang.Backend.{Backend}
use feed_system_golang.Backend.Entity.{OutboxMsg}
use feed_system_golang.Backend.Events.{Event, timeline, fanout}
use feed_system_golang.Backend.Quiet.{Quiet, quiet_rules}
use feed_system_golang.Backend.Laws.{QuietLaws, PublishLaws}
use feed_system_golang.Backend.Keeps.{bind_then}
use feed_system_golang.Mq.{send_timeline, send_fanout}
use feed_system_golang.Worker.Outbox.{announce}

abbrev pub timeline_of : OutboxMsg → Event
timeline_of m = timeline (record { video_id = m.video_id; create_time = m.create_time })

abbrev pub fanout_of : OutboxMsg → Event
fanout_of m =
    fanout (record { video_id = m.video_id; author_id = m.author_id; create_time = m.create_time })

-- The events of the message were sent.
abbrev pub Announced : {W : Type 0} → (W → List Event) → Bool → OutboxMsg → W → Type 0
Announced published has_fanout_mq m w =
    Elem (timeline_of m) (published w) × (has_fanout_mq ≡ true → Elem (fanout_of m) (published w))

module _ {W : Type 0} {env : Backend W} {published : W → List Event} (quiet : QuietLaws env)
    (sent : PublishLaws env published) (has_fanout_mq : Bool) where
  -- What was published stays published.
  pub record Sends {κ} {A : Type κ} (m : Exec W A) : Type 0 where
    pub at : (w : W) (x : Event) → Elem x (published w) → Elem x (published (m w).1)

  Sends-pure : {A : Type 0} (a : A) → Sends (pure a)
  unfolding pure
  Sends-pure a = record { at = λ w x i. i }

  Sends-attempt : {A : Type 0} {m : Exec W A} → Sends m → Sends (attempt m)
  unfolding attempt
  Sends-attempt q = record { at = λ w x i. q.at w x i }

  Sends-ignore : {A : Type 0} {m : Exec W A} → Sends m → Sends (ignore m)
  unfolding ignore
  Sends-ignore q = record { at = λ w x i. q.at w x i }

  continue-Sends :
      {A B : Type 0} (r : Result A) (f : A → Exec W B) (w : W) (x : Event)
      → ((a : A) → Sends (f a))
      → Elem x (published w)
      → Elem x (published (continue r f w).1)
  continue-Sends (ok a) f w x q i = (q a).at w x i
  continue-Sends (err e) f w x q i = i

  Sends-bind :
      {A B : Type 0} {m : Exec W A} {f : A → Exec W B}
      → Sends m
      → ((a : A) → Sends (f a))
      → Sends (m >>= f)
  unfolding ◌>>=◌
  Sends-bind {m = m} {f = f} p q = record {
    at = λ w x i. continue-Sends (m w).0 f (m w).1 x q (p.at w x i);
  }

  Sends-guarded :
      (missing : Bool) (why : Error) (e : Event)
      → Sends (if missing then raise why else env.publish e)
  unfolding raise
  Sends-guarded true why e = record { at = λ w x i. i }
  Sends-guarded false why e = record { at = sent.publish_keeps e }

  guarded_sent :
      (missing : Bool) (why : Error) (e : Event) (w : W)
      → ((if missing then raise why else env.publish e) w).0 ≡ ok tt
      → Elem e (published ((if missing then raise why else env.publish e) w).1)
  unfolding raise
  guarded_sent true why e w h = cc
  guarded_sent false why e w h = sent.publish_sends e w h

  module _ (m : OutboxMsg) where
    second : Bool → Exec W (Unit {0})
    second enabled =
        if enabled then send_fanout env m.video_id m.author_id m.create_time else pure tt

    second-Sends : (enabled : Bool) → Sends (second enabled)
    unfolding second send_fanout
    second-Sends true = Sends-guarded _ _ _
    second-Sends false = Sends-pure tt

    second_sent :
        (enabled : Bool) (w : W)
        → (second enabled w).0 ≡ ok tt
        → enabled ≡ true
        → Elem (fanout_of m) (published (second enabled w).1)
    unfolding second send_fanout
    second_sent true w h e = guarded_sent _ _ (fanout_of m) w h
    second_sent false w h e = cc

    pub announce-Sends : Sends (announce env has_fanout_mq m)
    unfolding announce send_timeline second
    announce-Sends = Sends-bind (Sends-guarded _ _ _) (λ _. second-Sends has_fanout_mq)

    -- What `announce` gives as a success, it has sent.
    pub announce_sent :
        (w : W)
        → (announce env has_fanout_mq m w).0 ≡ ok tt
        → Announced published has_fanout_mq m (announce env has_fanout_mq m w).1
    unfolding announce send_timeline second
    announce_sent w h =
        bind_then (Announced published has_fanout_mq m) (send_timeline env m.video_id m.create_time)
          _ w tt h
          (λ u q r. (
            (second-Sends has_fanout_mq).at _ (timeline_of m)
                (guarded_sent _ _ (timeline_of m) w q),
            second_sent has_fanout_mq _ r,
          ))

    pub announce-Quiet : Quiet env (announce env has_fanout_mq m)
    unfolding announce send_timeline send_fanout
    announce-Quiet = search (quiet_rules, quiet.publish-Quiet)
