-- ===== src/Video/Likes.antt =====
-- like_service.go
pub mod Invariant
use feed_system_golang.Base.{
  ℕ, ℤ, pos, negsuc, Bool, true, false, Option, Error, message, Result, ok, err, is_ok, Exec, pure,
  raise, gets, attempt, ◌>>=◌, ◌>>◌, ◌==◌, ◌&&◌, ◌||◌, if◌then◌else◌,
}
use feed_system_golang.Backend.{Backend}
use feed_system_golang.Backend.Entity.{Like}
use feed_system_golang.Cache.{Client}
use feed_system_golang.Mq.{try_send, send_like, send_unlike, send_popularity}
use feed_system_golang.Video.Repo.{
  is_exist, change_likes_count, change_popularity, like_in_tx, delete_like_in_tx,
}
use feed_system_golang.Video.Popularity.{update_popularity_cache}

-- Which of the service's pointers are set.
pub record LikeService : Type 0 where
  pub has_video_repo : Bool
  pub cache : Option Client
  pub has_like_mq : Bool
  pub has_popularity_mq : Bool

module _ {W : Type 0} (env : Backend W) (s : LikeService) where
  unfoldable pub require_exists : Bool → Exec W (Unit {0})
  require_exists true = pure tt
  require_exists false = raise (message "video not found")

  unfoldable pub check_video : ℕ → Exec W (Unit {0})
  check_video video_id =
      if s.has_video_repo then (do found ← is_exist env video_id; require_exists found) else pure tt

  unfoldable pub like_body : ℕ → ℕ → Like → Exec W (Unit {0})
  like_body account_id video_id like = do
    like_in_tx env like
    change_likes_count env video_id (pos 1)
    change_popularity env video_id (pos 1)

  unfoldable pub unlike_body : ℕ → ℕ → Exec W (Unit {0})
  unlike_body account_id video_id = do
    delete_like_in_tx env video_id account_id
    change_likes_count env video_id (negsuc 0)
    change_popularity env video_id (negsuc 0)

  -- What is not sent is done at once.
  unfoldable pub fall_back : Bool → Bool → Exec W (Unit {0}) → ℕ → ℤ → Exec W (Unit {0})
  fall_back true true body video_id change = pure tt
  fall_back true false body video_id change = update_popularity_cache env s.cache video_id change
  fall_back false true body video_id change = env.transaction body
  fall_back false false body video_id change = do
    env.transaction body
    update_popularity_cache env s.cache video_id change

  unfoldable pub like_checked : ℕ → ℕ → Exec W (Unit {0})
  like_checked account_id video_id = do
    check_video video_id
    now ← gets env.clock
    like_mq_sent ← try_send s.has_like_mq (send_like env account_id video_id)
    popularity_mq_sent ← try_send s.has_popularity_mq (send_popularity env video_id (pos 1))
    fall_back like_mq_sent popularity_mq_sent
        (like_body account_id video_id
          (record { id = 0; video_id = video_id; account_id = account_id; created_at = now }))
        video_id (pos 1)

  unfoldable pub unlike_checked : ℕ → ℕ → Exec W (Unit {0})
  unlike_checked account_id video_id = do
    check_video video_id
    like_mq_sent ← try_send s.has_like_mq (send_unlike env account_id video_id)
    popularity_mq_sent ← try_send s.has_popularity_mq (send_popularity env video_id (negsuc 0))
    fall_back like_mq_sent popularity_mq_sent (unlike_body account_id video_id) video_id (negsuc 0)

  unfoldable pub like : ℕ → ℕ → Exec W (Unit {0})
  unfolding like_checked check_video require_exists like_body fall_back
  like account_id video_id =
      if account_id == 0 || video_id == 0
      then raise (message "video_id and account_id are required")
      else like_checked account_id video_id

  unfoldable pub unlike : ℕ → ℕ → Exec W (Unit {0})
  unfolding unlike_checked check_video require_exists unlike_body fall_back
  unlike account_id video_id =
      if account_id == 0 || video_id == 0
      then raise (message "video_id and account_id are required")
      else unlike_checked account_id video_id
