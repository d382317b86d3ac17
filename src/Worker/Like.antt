-- ===== src/Worker/Like.antt =====
-- likeworker.go
pub mod Invariant
pub mod Redelivery
mod Tests
use feed_system_golang.Base.{
  ℕ, ℤ, pos, negsuc, Bool, true, false, Option, none, some, Exec, pure, gets, ◌>>=◌, ◌>>◌, ◌==◌,
  ◌||◌, str_eq, if◌then◌else◌,
}
use feed_system_golang.Backend.{Backend}
use feed_system_golang.Backend.Entity.{Like}
use feed_system_golang.Backend.Events.{LikeEvent}
use feed_system_golang.Video.Repo.{
  is_exist, like_ignore_duplicate, delete_like, change_likes_count, change_popularity,
}

module _ {W : Type 0} (env : Backend W) where
  -- The counters follow only a row that was really written, or really deleted.
  unfoldable pub count_change : ℕ → ℤ → Bool → Exec W (Unit {0})
  count_change video_id change false = pure tt
  count_change video_id change true = do
    change_likes_count env video_id change
    change_popularity env video_id change

  unfoldable pub like_transaction : ℕ → ℕ → Exec W (Unit {0})
  unfolding count_change
  like_transaction user_id video_id = do
    now ← gets env.clock
    created ←
        like_ignore_duplicate env
          (record { id = 0; video_id = video_id; account_id = user_id; created_at = now })
    count_change video_id (pos 1) created

  unfoldable pub unlike_transaction : ℕ → ℕ → Exec W (Unit {0})
  unfolding count_change
  unlike_transaction user_id video_id = do
    deleted ← delete_like env video_id user_id
    count_change video_id (negsuc 0) deleted

  -- A message about a video that is gone is dropped.
  unfoldable pub if_exists : Exec W (Unit {0}) → Bool → Exec W (Unit {0})
  if_exists change false = pure tt
  if_exists change true = change

  unfoldable pub apply_like : ℕ → ℕ → Exec W (Unit {0})
  unfolding if_exists
  apply_like user_id video_id = do
    found ← is_exist env video_id
    if_exists (env.transaction (like_transaction user_id video_id)) found

  unfoldable pub apply_unlike : ℕ → ℕ → Exec W (Unit {0})
  unfolding if_exists
  apply_unlike user_id video_id = do
    found ← is_exist env video_id
    if_exists (env.transaction (unlike_transaction user_id video_id)) found

  unfoldable pub dispatch : LikeEvent → Exec W (Unit {0})
  dispatch evt =
      if str_eq evt.action "like"
      then apply_like evt.user_id evt.video_id
      else if str_eq evt.action "unlike"
      then apply_unlike evt.user_id evt.video_id
      else pure tt

  unfoldable pub process : Option LikeEvent → Exec W (Unit {0})
  unfolding dispatch
  process none = pure tt
  process (some evt) = if evt.user_id == 0 || evt.video_id == 0 then pure tt else dispatch evt
