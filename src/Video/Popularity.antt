-- ===== src/Video/Popularity.antt =====
-- popularity_cache.go
pub mod Quiet
use feed_system_golang.Base.{
  ℕ, suc, ◌/◌, ◌*◌, ℤ, pos, negsuc, Bool, not, Option, Exec, pure, gets, ignore, ◌>>=◌, ◌>>◌, ◌==◌,
  ◌=ℤ◌, ◌||◌, if◌then◌else◌, is_some,
}
use feed_system_golang.Backend.{Backend}
use feed_system_golang.Backend.Entity.{Time}
use feed_system_golang.Backend.Redis.{video_detail, hot_minute}
use feed_system_golang.Cache.{Client}
use feed_system_golang.Cache.Commands.{del_key, zincr_by, expire_key}

-- The minute that a time lies in: its format has no smaller unit.
abbrev pub minute_of : Time → ℤ
minute_of (pos n) = pos (n / 60000)
minute_of (negsuc n) = negsuc (n / 60000)

abbrev pub two_hours : ℕ
two_hours = 7200000

module _ {W : Type 0} (env : Backend W) (cache : Option Client) where
  unfoldable pub bump_window : ℕ → ℤ → Exec W (Unit {0})
  bump_window video_id change = do
    ignore (del_key env cache (video_detail video_id))
    now ← gets env.clock
    ignore (zincr_by env cache (hot_minute (minute_of now)) video_id change)
    ignore (expire_key env cache (hot_minute (minute_of now)) two_hours)

  unfoldable pub update_popularity_cache : ℕ → ℤ → Exec W (Unit {0})
  unfolding bump_window
  update_popularity_cache video_id change =
      if not (is_some cache) || video_id == 0 || change =ℤ pos 0
      then pure tt
      else bump_window video_id change
