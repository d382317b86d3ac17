-- ===== src/Video/Popularity/Quiet.antt =====
-- The update of the hot ranking does not touch the tables.
use feed_system_golang.Base.{ℕ, ℤ, Option}
use feed_system_golang.Backend.{Backend}
use feed_system_golang.Backend.Quiet.{Quiet, quiet_rules}
use feed_system_golang.Backend.Laws.{QuietLaws}
use feed_system_golang.Cache.{Client}
use feed_system_golang.Cache.Quiet.{del_key-Quiet, zincr_by-Quiet, expire_key-Quiet}
use feed_system_golang.Video.Popularity.{update_popularity_cache, bump_window}

module _ {W : Type 0} {env : Backend W} (laws : QuietLaws env) (cache : Option Client) where
  bump_window-Quiet : (x : ℕ) (n : ℤ) → Quiet env (bump_window env cache x n)
  unfolding bump_window
  bump_window-Quiet x n = search (
    quiet_rules,
    del_key-Quiet laws cache,
    zincr_by-Quiet laws cache,
    expire_key-Quiet laws cache,
  )

  pub update_popularity_cache-Quiet :
      (x : ℕ) (n : ℤ) → Quiet env (update_popularity_cache env cache x n)
  unfolding update_popularity_cache
  update_popularity_cache-Quiet x n = search (quiet_rules, bump_window-Quiet)
