-- ===== src/Video/Likes/Invariant.antt =====
-- The like service keeps the counters equal to the rows, with and without the queues.
use feed_system_golang.Base.{ℕ, ℤ, pos, negsuc, ◌==◌, ◌||◌, ◌≡◌, Bool, true, false, ok, Exec}
use feed_system_golang.Backend.{Backend}
use feed_system_golang.Backend.Entity.{Like}
use feed_system_golang.Backend.Quiet.{Quiet, quiet_rules}
use feed_system_golang.Backend.Laws.{MysqlLaws, QuietLaws}
use feed_system_golang.Backend.Keeps.{
  Keeps, Keeps-Quiet, Keeps-if, Keeps-bind, Keeps-transaction, bind_then,
}
use feed_system_golang.Mq.Quiet.{
  try_send-Quiet, send_like-Quiet, send_unlike-Quiet, send_popularity-Quiet,
}
use feed_system_golang.Video.Repo.{like_in_tx, delete_like_in_tx}
use feed_system_golang.Video.Effects.{like_in_tx_ok, delete_like_in_tx_ok, is_exist-Quiet}
use feed_system_golang.Video.Tally.{Tallied}
use feed_system_golang.Video.Counters.{counters_ok, inserted-Tallied, deleted-Tallied}
use feed_system_golang.Video.Popularity.Quiet.{update_popularity_cache-Quiet}
use feed_system_golang.Video.Likes.{
  LikeService, require_exists, check_video, like_body, unlike_body, fall_back, like_checked,
  unlike_checked, like, unlike,
}

module _ {W : Type 0} {env : Backend W} (laws : MysqlLaws env) (quiet : QuietLaws env)
    (s : LikeService) where
  open env use {tables}

  require_exists-Quiet : (found : Bool) → Quiet env (require_exists env s found)
  unfolding require_exists
  require_exists-Quiet true = search quiet_rules
  require_exists-Quiet false = search quiet_rules

  check_video-Quiet : (video_id : ℕ) → Quiet env (check_video env s video_id)
  unfolding check_video
  check_video-Quiet video_id = search (quiet_rules, is_exist-Quiet laws, require_exists-Quiet)

  like_body-Tallied :
      (account_id : ℕ) (l : Like) (w : W)
      → Tallied (tables w)
      → (like_body env s account_id l.video_id l w).0 ≡ ok tt
      → Tallied (tables (like_body env s account_id l.video_id l w).1)
  unfolding like_body
  like_body-Tallied account_id l w h r =
      bind_then (λ v. Tallied (tables v)) (like_in_tx env l) _ w tt r
        (λ u q r'.
          let w' = (like_in_tx env l w).1 in
          inserted-Tallied laws l w w' _ (like_in_tx_ok laws l w q)
            (counters_ok laws l.video_id (pos 1) w' r') h)

  unlike_body-Tallied :
      (account_id video_id : ℕ) (w : W)
      → Tallied (tables w)
      → (unlike_body env s account_id video_id w).0 ≡ ok tt
      → Tallied (tables (unlike_body env s account_id video_id w).1)
  unfolding unlike_body
  unlike_body-Tallied account_id video_id w h r =
      bind_then (λ v. Tallied (tables v)) (delete_like_in_tx env video_id account_id) _ w tt r
        (λ u q r'.
          let w' = (delete_like_in_tx env video_id account_id w).1 in
          let (done, gone) = delete_like_in_tx_ok laws video_id account_id w q in
          deleted-Tallied laws video_id account_id w w' _ done gone
            (counters_ok laws video_id (negsuc 0) w' r') h)

  fall_back-Tallied :
      (like_sent popularity_sent : Bool) (body : Exec W (Unit {0})) (video_id : ℕ) (change : ℤ)
      → ((w : W) → Tallied (tables w) → (body w).0 ≡ ok tt → Tallied (tables (body w).1))
      → Keeps env Tallied (fall_back env s like_sent popularity_sent body video_id change)
  unfolding fall_back
  fall_back-Tallied true true body video_id change keep = Keeps-Quiet (search quiet_rules)
  fall_back-Tallied true false body video_id change keep =
      Keeps-Quiet (update_popularity_cache-Quiet quiet s.cache video_id change)
  fall_back-Tallied false true body video_id change keep = Keeps-transaction Tallied laws body keep
  fall_back-Tallied false false body video_id change keep =
      Keeps-bind (Keeps-transaction Tallied laws body keep)
        (λ _. Keeps-Quiet (update_popularity_cache-Quiet quiet s.cache video_id change))

  like_checked-Tallied :
      (account_id video_id : ℕ) → Keeps env Tallied (like_checked env s account_id video_id)
  unfolding like_checked
  like_checked-Tallied account_id video_id =
      Keeps-bind (Keeps-Quiet (check_video-Quiet video_id)) (λ _.
        Keeps-bind (Keeps-Quiet (search quiet_rules)) (λ now.
          Keeps-bind
            (Keeps-Quiet
              (try_send-Quiet quiet s.has_like_mq _ (send_like-Quiet quiet account_id video_id)))
            (λ like_sent.
              Keeps-bind
                (Keeps-Quiet (
                  try_send-Quiet quiet s.has_popularity_mq _
                    (send_popularity-Quiet quiet video_id (pos 1))))
                (λ popularity_sent.
                  fall_back-Tallied like_sent popularity_sent _ video_id (pos 1)
                    (like_body-Tallied account_id _)))))

  unlike_checked-Tallied :
      (account_id video_id : ℕ) → Keeps env Tallied (unlike_checked env s account_id video_id)
  unfolding unlike_checked
  unlike_checked-Tallied account_id video_id =
      Keeps-bind (Keeps-Quiet (check_video-Quiet video_id)) (λ _.
        Keeps-bind
          (Keeps-Quiet
            (try_send-Quiet quiet s.has_like_mq _ (send_unlike-Quiet quiet account_id video_id)))
          (λ like_sent.
            Keeps-bind
              (Keeps-Quiet (
                try_send-Quiet quiet s.has_popularity_mq _
                  (send_popularity-Quiet quiet video_id (negsuc 0))))
              (λ popularity_sent.
                fall_back-Tallied like_sent popularity_sent _ video_id (negsuc 0)
                  (unlike_body-Tallied account_id video_id))))

  -- Whatever queues are there and whatever calls fail: if each video's `likes_count` was the number
  -- of its like rows, and no account had liked a video twice, then this is so after `Like` and
  -- after `Unlike`, which write the rows themselves when the like queue does not take the message.
  pub like-unlike-Tallied :
      (account_id video_id : ℕ) (w : W)
      → Tallied (tables w)
      → Tallied (tables (like env s account_id video_id w).1)
        × Tallied (tables (unlike env s account_id video_id w).1)
  unfolding like unlike
  like-unlike-Tallied account_id video_id w h = (
    (Keeps-if (account_id == 0 || video_id == 0) (Keeps-Quiet (search quiet_rules))
          (like_checked-Tallied account_id video_id)).at
        w h,
    (Keeps-if (account_id == 0 || video_id == 0) (Keeps-Quiet (search quiet_rules))
          (unlike_checked-Tallied account_id video_id)).at
        w h,
  )
