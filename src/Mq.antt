-- ===== src/Mq.antt =====
-- backend_repeat/internal/middleware/rabbitmq: what each producer checks and sends. The random
-- event id, the JSON text and the channel are behind `publish`, which may fail.
pub mod Quiet
use feed_system_golang.Base.{
  ℕ, ℤ, pos, String, Bool, false, is_ok, attempt, pure, ◌>>=◌, message, Exec, raise, ◌==◌, ◌=ℤ◌,
  ◌||◌, if◌then◌else◌,
}
use feed_system_golang.Backend.{Backend}
use feed_system_golang.Backend.Entity.{Time}
use feed_system_golang.Backend.Events.{
  LikeEvent, PopularityEvent, CommentEvent, SocialEvent, TimelineEvent, FanoutEvent, like,
  popularity, comment, social, timeline, fanout,
}

-- Was the message sent? There may be no producer, and an error of the queue is no error of the
-- caller.
unfoldable pub try_send : {W : Type 0} → Bool → Exec W (Unit {0}) → Exec W Bool
try_send enabled send = if enabled then (do r ← attempt send; pure (is_ok r)) else pure false

module _ {W : Type 0} (env : Backend W) where
  like_publish : String → ℕ → ℕ → Exec W (Unit {0})
  like_publish action user_id video_id =
      if user_id == 0 || video_id == 0
      then raise (message "userID and videoID are required")
      else env.publish (like (record { action = action; user_id = user_id; video_id = video_id }))

  unfoldable pub send_like : ℕ → ℕ → Exec W (Unit {0})
  unfolding like_publish
  send_like user_id video_id = like_publish "like" user_id video_id

  unfoldable pub send_unlike : ℕ → ℕ → Exec W (Unit {0})
  unfolding like_publish
  send_unlike user_id video_id = like_publish "unlike" user_id video_id

  unfoldable pub send_popularity : ℕ → ℤ → Exec W (Unit {0})
  send_popularity video_id change =
      if video_id == 0 || change =ℤ pos 0
      then raise (message "videoID and change are required")
      else env.publish (popularity (record { video_id = video_id; change = change }))

  unfoldable pub send_comment : String → ℕ → ℕ → String → Exec W (Unit {0})
  send_comment username video_id author_id content = env.publish (
      comment (record {
        action = "publish";
        comment_id = 0;
        username = username;
        video_id = video_id;
        author_id = author_id;
        content = content;
      }))

  unfoldable pub send_comment_delete : ℕ → Exec W (Unit {0})
  send_comment_delete comment_id = env.publish (
      comment (record {
        action = "delete";
        comment_id = comment_id;
        username = "";
        video_id = 0;
        author_id = 0;
        content = "";
      }))

  social_publish : String → ℕ → ℕ → Exec W (Unit {0})
  social_publish action follower_id vlogger_id =
      if follower_id == 0 || vlogger_id == 0
      then raise (message "followerID and vloggerID are required")
      else env.publish
          (social (record { action = action; follower_id = follower_id; vlogger_id = vlogger_id }))

  unfoldable pub send_follow : ℕ → ℕ → Exec W (Unit {0})
  unfolding social_publish
  send_follow follower_id vlogger_id = social_publish "follow" follower_id vlogger_id

  unfoldable pub send_unfollow : ℕ → ℕ → Exec W (Unit {0})
  unfolding social_publish
  send_unfollow follower_id vlogger_id = social_publish "unfollow" follower_id vlogger_id

  unfoldable pub send_timeline : ℕ → Time → Exec W (Unit {0})
  send_timeline video_id create_time =
      if video_id == 0
      then raise (message "videoID is required")
      else env.publish (timeline (record { video_id = video_id; create_time = create_time }))

  unfoldable pub send_fanout : ℕ → ℕ → Time → Exec W (Unit {0})
  send_fanout video_id author_id create_time =
      if video_id == 0 || author_id == 0
      then raise (message "videoID and authorID are required")
      else env.publish (
          fanout (record { video_id = video_id; author_id = author_id; create_time = create_time }))
