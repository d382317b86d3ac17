-- ===== src/Backend/Entity.antt =====
-- The rows: account/entity.go, social/entity.go, video/video_entity.go, like_entity.go and
-- comment_entity.go of backend_repeat/internal. A time is in milliseconds since the epoch, the
-- precision at which the tables and the feeds keep it.
use feed_system_golang.Base.{ℕ, ℤ, String}

abbrev pub Time : Type 0
Time = ℤ

pub record Account : Type 0 where
  pub id : ℕ
  pub username : String
  pub password : String
  pub token : String
  pub follower_count : ℤ

pub record Social : Type 0 where
  pub id : ℕ
  pub follower_id : ℕ
  pub vlogger_id : ℕ

pub record Video : Type 0 where
  pub id : ℕ
  pub author_id : ℕ
  pub username : String
  pub title : String
  pub description : String
  pub play_url : String
  pub cover_url : String
  pub create_time : Time
  pub likes_count : ℤ
  pub popularity : ℤ

pub record OutboxMsg : Type 0 where
  pub id : ℕ
  pub video_id : ℕ
  pub author_id : ℕ
  pub event_type : String
  pub create_time : Time
  pub status : String

pub record Like : Type 0 where
  pub id : ℕ
  pub video_id : ℕ
  pub account_id : ℕ
  pub created_at : Time

pub record Comment : Type 0 where
  pub id : ℕ
  pub username : String
  pub video_id : ℕ
  pub author_id : ℕ
  pub content : String
  pub created_at : Time
