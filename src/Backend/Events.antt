-- ===== src/Backend/Events.antt =====
-- The messages of backend_repeat/internal/middleware/rabbitmq, by their routing keys, less the
-- random event id and the time of sending, which no consumer reads.
use feed_system_golang.Base.{ℕ, ℤ, String}
use feed_system_golang.Backend.Entity.{Time}

pub record LikeEvent : Type 0 where
  pub action : String
  pub user_id : ℕ
  pub video_id : ℕ

pub record PopularityEvent : Type 0 where
  pub video_id : ℕ
  pub change : ℤ

pub record CommentEvent : Type 0 where
  pub action : String
  pub comment_id : ℕ
  pub username : String
  pub video_id : ℕ
  pub author_id : ℕ
  pub content : String

pub record SocialEvent : Type 0 where
  pub action : String
  pub follower_id : ℕ
  pub vlogger_id : ℕ

pub record TimelineEvent : Type 0 where
  pub video_id : ℕ
  pub create_time : Time

pub record FanoutEvent : Type 0 where
  pub video_id : ℕ
  pub author_id : ℕ
  pub create_time : Time

pub data Event : Type 0 where
  like : LikeEvent → Event
  popularity : PopularityEvent → Event
  comment : CommentEvent → Event
  social : SocialEvent → Event
  timeline : TimelineEvent → Event
  fanout : FanoutEvent → Event
