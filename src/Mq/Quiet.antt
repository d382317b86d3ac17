-- ===== src/Mq/Quiet.antt =====
-- Sending a message does not touch the tables.
use feed_system_golang.Base.{Bool, Exec, ℕ, ℤ, String}
use feed_system_golang.Backend.{Backend}
use feed_system_golang.Backend.Quiet.{Quiet, quiet_rules}
use feed_system_golang.Backend.Laws.{QuietLaws}
use feed_system_golang.Mq.{
  try_send, send_like, send_unlike, send_popularity, send_comment, send_comment_delete, send_follow,
  send_unfollow,
}

module _ {W : Type 0} {env : Backend W} (laws : QuietLaws env) where
  pub try_send-Quiet :
      (enabled : Bool) (send : Exec W (Unit {0}))
      → Quiet env send
      → Quiet env (try_send enabled send)
  unfolding try_send
  try_send-Quiet enabled send q = search quiet_rules

  pub send_like-Quiet : (user_id video_id : ℕ) → Quiet env (send_like env user_id video_id)
  unfolding send_like
  send_like-Quiet user_id video_id = search (quiet_rules, laws.publish-Quiet)

  pub send_unlike-Quiet : (user_id video_id : ℕ) → Quiet env (send_unlike env user_id video_id)
  unfolding send_unlike
  send_unlike-Quiet user_id video_id = search (quiet_rules, laws.publish-Quiet)

  pub send_popularity-Quiet : (video_id : ℕ) (n : ℤ) → Quiet env (send_popularity env video_id n)
  unfolding send_popularity
  send_popularity-Quiet video_id n = search (quiet_rules, laws.publish-Quiet)

  pub send_comment-Quiet :
      (username : String) (video_id author_id : ℕ) (content : String)
      → Quiet env (send_comment env username video_id author_id content)
  unfolding send_comment
  send_comment-Quiet username video_id author_id content = laws.publish-Quiet _

  pub send_comment_delete-Quiet : (id : ℕ) → Quiet env (send_comment_delete env id)
  unfolding send_comment_delete
  send_comment_delete-Quiet id = laws.publish-Quiet _

  pub send_follow-Quiet : (f v : ℕ) → Quiet env (send_follow env f v)
  unfolding send_follow
  send_follow-Quiet f v = search (quiet_rules, laws.publish-Quiet)

  pub send_unfollow-Quiet : (f v : ℕ) → Quiet env (send_unfollow env f v)
  unfolding send_unfollow
  send_unfollow-Quiet f v = search (quiet_rules, laws.publish-Quiet)
