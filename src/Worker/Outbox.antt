-- ===== src/Worker/Outbox.antt =====
-- outboxworker.go: the poller that announces published videos, and the consumer of the global
-- timeline.
pub mod Sending
pub mod Delivery
pub mod Waiting
pub mod Health
pub mod Draining
mod Tests
use feed_system_golang.Base.{
  ℕ, zero, suc, ℤ, pos, negsuc, ltb_ℤ, Bool, true, false, Option, none, some, List, [], ◌∷◌, Result,
  ok, err, Exec, pure, attempt, ignore, ◌>>=◌, ◌>>◌, ◌==◌, str_eq, if◌then◌else◌,
}
use feed_system_golang.Backend.{Backend}
use feed_system_golang.Backend.Entity.{OutboxMsg}
use feed_system_golang.Backend.Sql.{Query, delete_outbox}
use feed_system_golang.Backend.Events.{TimelineEvent}
use feed_system_golang.Backend.Redis.{global_timeline}
use feed_system_golang.Cache.{Client}
use feed_system_golang.Cache.Commands.{zadd_members, zrem_range}
use feed_system_golang.Mq.{send_timeline, send_fanout}
use feed_system_golang.Worker.Delivery.{Verdict, ack, requeue}

-- The oldest hundred messages that are pending.
abbrev pub pending : Query OutboxMsg
pending = record {
  matches = λ m. str_eq m.status "pending";
  before = λ a b. ltb_ℤ a.create_time b.create_time;
  offset = 0;
  limit = some 100;
}

module _ {W : Type 0} (env : Backend W) (has_fanout_mq : Bool) where
  -- The first error ends it: the message is tried again in the next round.
  unfoldable pub announce : OutboxMsg → Exec W (Unit {0})
  announce msg = do
    send_timeline env msg.video_id msg.create_time
    if has_fanout_mq then send_fanout env msg.video_id msg.author_id msg.create_time else pure tt

  unfoldable pub remove_announced : OutboxMsg → Result (Unit {0}) → Exec W (Unit {0})
  remove_announced msg (err e) = pure tt
  remove_announced msg (ok u) = ignore (env.exec (delete_outbox (λ m. m.id == msg.id)))

  unfoldable pub deliver_message : OutboxMsg → Exec W (Unit {0})
  unfolding announce remove_announced
  deliver_message msg = do r ← attempt (announce msg); remove_announced msg r

  unfoldable pub deliver_all : List OutboxMsg → Exec W (Unit {0})
  deliver_all [] = pure tt
  deliver_all (msg ∷ msgs) = do deliver_message msg; deliver_all msgs

  unfoldable pub deliver_found : Result (List OutboxMsg) → Exec W (Unit {0})
  deliver_found (err e) = pure tt
  deliver_found (ok msgs) = deliver_all msgs

  -- A round of the poller's loop, and the first rounds.
  unfoldable pub poll : Exec W (Unit {0})
  unfolding deliver_message deliver_all deliver_found
  poll = do r ← attempt (env.find_outbox pending); deliver_found r

  unfoldable pub poll_rounds : ℕ → Exec W (Unit {0})
  unfolding poll
  poll_rounds zero = pure tt
  poll_rounds (suc n) = do poll; poll_rounds n

module _ {W : Type 0} (env : Backend W) (cache : Option Client) where
  -- The result of the trimming is only logged.
  unfoldable pub trim_and_ack : Result (Unit {0}) → Exec W Verdict
  trim_and_ack (err e) = pure requeue
  trim_and_ack (ok u) = do
    ignore (zrem_range env cache global_timeline (pos 0) (negsuc 1000))
    pure ack

  -- A message of `StartConsumer`; one that cannot be read goes back into the queue.
  unfoldable pub consume : Option TimelineEvent → Exec W Verdict
  unfolding trim_and_ack
  consume none = pure requeue
  consume (some val) = do
    r ← attempt (
        zadd_members env cache global_timeline
          (record { member = some val.video_id; score = val.create_time } ∷ []))
    trim_and_ack r
