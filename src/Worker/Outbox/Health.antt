-- ===== src/Worker/Outbox/Health.antt =====
-- A queue and a database that answer, and a message that the poller hands over to them.
use feed_system_golang.Base.{
  ℕ, min, ◌≡◌, refl, ap, ◌∙◌, Bool, true, false, some, List, select, length, Distinct, ok, pure,
  attempt, ignore, ◌>>=◌, ◌==◌, Elem, arith, if◌then◌else◌,
}
use feed_system_golang.Backend.{Backend}
use feed_system_golang.Backend.Entity.{OutboxMsg}
use feed_system_golang.Backend.Sql.{Query, Outcome, apply, delete_outbox, delete_where}
use feed_system_golang.Backend.Events.{Event}
use feed_system_golang.Backend.Laws.{MysqlLaws, QuietLaws, PublishLaws}
use feed_system_golang.Mq.{send_timeline, send_fanout}
use feed_system_golang.Worker.Outbox.{announce, remove_announced, deliver_message}
use feed_system_golang.Worker.Outbox.Sending.{announce-Quiet}
use feed_system_golang.Worker.Outbox.Waiting.{ids}

-- The message names a video and its author, which the queues ask for.
abbrev pub IsSendable : OutboxMsg → Type 0
IsSendable m = ((m.video_id == 0) ≡ false) × ((m.author_id == 0) ≡ false)

-- RabbitMQ takes every message, and MySQL answers: deletions are done, and a query gives as many rows
-- of the table as its limit allows, none of them twice.
pub record HealthLaws {W : Type 0} (env : Backend W) : Type 0 where
  pub publish_works : (e : Event) (w : W) → (env.publish e w).0 ≡ ok tt
  pub delete_works :
      (p : OutboxMsg → Bool) (w : W) → (o : Outcome) × ((env.exec (delete_outbox p) w).0 ≡ ok o)
  pub find_outbox_works :
      (q : Query OutboxMsg) (n : ℕ) (w : W)
      → q.offset ≡ 0
      → q.limit ≡ some n
      → (found : List OutboxMsg) × ((env.find_outbox q w).0 ≡ ok found)
        × ((m : OutboxMsg) → Elem m found → Elem m (select q.matches (env.tables w).outbox))
        × (Distinct (ids (env.tables w).outbox) → Distinct (ids found))
        × (length found ≡ min n (length (select q.matches (env.tables w).outbox)))

module _ {W : Type 0} {env : Backend W} {published : W → List Event} (laws : MysqlLaws env)
    (quiet : QuietLaws env) (sent : PublishLaws env published) (health : HealthLaws env)
    (has_fanout_mq : Bool) where
  open env use {tables}

  timeline_works :
      (m : OutboxMsg) (w : W)
      → IsSendable m
      → (send_timeline env m.video_id m.create_time w).0 ≡ ok tt
  unfolding send_timeline
  timeline_works m w (video, author) = rw video (health.publish_works _ w)

  fanout_works :
      (m : OutboxMsg) (w : W)
      → IsSendable m
      → (send_fanout env m.video_id m.author_id m.create_time w).0 ≡ ok tt
  unfolding send_fanout
  fanout_works m w (video, author) = rw video (rw author (health.publish_works _ w))

  announce_works :
      (m : OutboxMsg) (w : W) → IsSendable m → (announce env has_fanout_mq m w).0 ≡ ok tt
  unfolding announce ◌>>=◌ pure
  announce_works m w h = rw (timeline_works m w h) (second has_fanout_mq)
    where
      second :
          (on : Bool)
          → ((if on then send_fanout env m.video_id m.author_id m.create_time else pure tt)
              (send_timeline env m.video_id m.create_time w).1).0
            ≡ ok tt
      second true = fanout_works m _ h
      second false = refl

  removal :
      (m : OutboxMsg) (w : W)
      → tables (env.exec (delete_outbox (λ k. k.id == m.id)) w).1
        ≡ apply (delete_outbox (λ k. k.id == m.id)) 0 (tables w)
  removal m w = ground (
    arith,
    laws.exec_cases (delete_outbox (λ k. k.id == m.id)) w,
    health.delete_works (λ k. k.id == m.id) w,
  )

  pub message_deleted :
      (m : OutboxMsg) (w : W)
      → IsSendable m
      → ((deliver_message env has_fanout_mq m w).0 ≡ ok tt)
        × ((tables (deliver_message env has_fanout_mq m w).1).outbox
            ≡ delete_where (λ k. k.id == m.id) (tables w).outbox)
  unfolding deliver_message remove_announced attempt ignore ◌>>=◌
  message_deleted m w h = rw (announce_works m w h) (
    refl,
    ap (λ t. t.outbox) (removal m (announce env has_fanout_mq m w).1)
        ∙ ap (λ t. delete_where (λ k. k.id == m.id) t.outbox)
            ((announce-Quiet quiet sent has_fanout_mq m).at w),
  )
