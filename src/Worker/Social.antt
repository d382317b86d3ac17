-- ===== src/Worker/Social.antt =====
-- socialworker.go: the rows of follow and unfollow messages, and the inboxes and sets in Redis that
-- go with them.
pub mod Upkeep
pub mod Relation
mod Tests
use feed_system_golang.Base.{
  ℕ, ℤ, pos, negsuc, leb_ℤ, Bool, true, false, not, is_some, Option, none, some, List, [], ◌∷◌,
  ◌++◌, map, Error, Result, ok, err, Exec, pure, raise, give, String, attempt, ignore, gets, ◌>>=◌,
  ◌>>◌, ◌==◌, ◌&&◌, ◌||◌, str_eq, if◌then◌else◌,
}
use feed_system_golang.Backend.{Backend}
use feed_system_golang.Backend.Entity.{Social}
use feed_system_golang.Backend.Events.{SocialEvent}
use feed_system_golang.Backend.Redis.{
  Key, Value, Z, number, as_number, zadd, zrem_range_by_rank, follower_count, inbox, user_videos,
  following_bigv,
}
use feed_system_golang.Cache.{Client, has_redis, is_breaker_open}
use feed_system_golang.Cache.Commands.{
  get_bytes, set_bytes, expire_key, zadd_members, zrem_range, zrev_scores, sadd_member, srem_member,
}
use feed_system_golang.Video.Repo.{is_duplicate_key}
use feed_system_golang.Social.Repo.{insert_follow, delete_follow, count_followers}

-- `BigVThreshold`, and `-(inboxCap + 1)` of `inboxCap` 500.
abbrev pub big_v_threshold : ℤ
big_v_threshold = pos 10000

abbrev pub beyond_inbox_cap : ℤ
beyond_inbox_cap = negsuc 500

abbrev pub one_day : ℕ
one_day = 86400000

-- The cached count, if it was read and is a number.
abbrev pub cached_count : Result (Option Value) → Option ℤ
cached_count (ok (some v)) = as_number v
cached_count _ = none

module _ {W : Type 0} (env : Backend W) (cache : Option Client) where
  unfoldable pub count_and_cache : ℕ → Exec W Bool
  count_and_cache user_id = do
    count ← count_followers env user_id
    ignore (set_bytes env cache (follower_count user_id) (number (pos count)) 0)
    pure (leb_ℤ big_v_threshold (pos count))

  unfoldable pub big_by_count : ℕ → Option ℤ → Exec W Bool
  big_by_count user_id (some count) = pure (leb_ℤ big_v_threshold count)
  big_by_count user_id none = count_and_cache user_id

  unfoldable pub is_big_v : ℕ → Exec W Bool
  unfolding count_and_cache big_by_count
  is_big_v user_id = do
    r ← attempt (get_bytes env cache (follower_count user_id))
    big_by_count user_id (cached_count r)

  unfoldable pub add_each : Key → List Z → Exec W (Unit {0})
  add_each key [] = pure tt
  add_each key (v ∷ videos) = do ignore (zadd_members env cache key (v ∷ [])); add_each key videos

  -- One pipeline, or one call after another where there is none.
  unfoldable pub fill_inbox : Key → List Z → Bool → Exec W (Unit {0})
  fill_inbox key videos true = ignore (
      env.pipeline (
        map (λ v. zadd key (v ∷ [])) videos
        ++ zrem_range_by_rank key (pos 0) beyond_inbox_cap ∷ []))
  fill_inbox key videos false = do
    add_each key videos
    ignore (zrem_range env cache key (pos 0) beyond_inbox_cap)

  unfoldable pub backfill_found : ℕ → Result (List Z) → Exec W (Unit {0})
  backfill_found follower_id (err e) = pure tt
  backfill_found follower_id (ok []) = pure tt
  backfill_found follower_id (ok (v ∷ videos)) = do
    breaker_is_open ← gets (is_breaker_open env cache)
    fill_inbox (inbox follower_id) (v ∷ videos) (has_redis cache && not breaker_is_open)

  unfoldable pub backfill_inbox : ℕ → ℕ → Exec W (Unit {0})
  unfolding add_each fill_inbox backfill_found
  backfill_inbox follower_id vlogger_id = do
    r ← attempt (zrev_scores env cache (user_videos vlogger_id) (pos 0) (pos 49))
    backfill_found follower_id r

  -- An error of `isBigV` counts as no.
  unfoldable pub maintain_follow : ℕ → ℕ → Result Bool → Exec W (Unit {0})
  maintain_follow follower_id vlogger_id (ok true) = do
    ignore (sadd_member env cache (following_bigv follower_id) vlogger_id)
    ignore (expire_key env cache (following_bigv follower_id) one_day)
  maintain_follow follower_id vlogger_id _ = backfill_inbox follower_id vlogger_id

  unfoldable pub on_follow : ℕ → ℕ → Exec W (Unit {0})
  unfolding maintain_follow
  on_follow follower_id vlogger_id =
      if is_some cache
      then (do r ← attempt (is_big_v vlogger_id); maintain_follow follower_id vlogger_id r)
      else pure tt

  unfoldable pub on_unfollow : ℕ → ℕ → Exec W (Unit {0})
  on_unfollow follower_id vlogger_id =
      if is_some cache
      then ignore (srem_member env cache (following_bigv follower_id) vlogger_id)
      else pure tt

  -- A row that is there already is no error: the message came again.
  unfoldable pub tolerate : Result (Unit {0}) → Exec W (Unit {0})
  tolerate (ok u) = pure tt
  tolerate (err e) = if is_duplicate_key e then pure tt else raise e

  unfoldable pub apply_follow : Social → Exec W (Unit {0})
  unfolding tolerate on_follow
  apply_follow social = do
    r ← attempt (insert_follow env social)
    tolerate r
    ignore (on_follow social.follower_id social.vlogger_id)

  unfoldable pub finish_unfollow : Social → Result (Unit {0}) → Exec W (Unit {0})
  finish_unfollow social r = do ignore (on_unfollow social.follower_id social.vlogger_id); give r

  unfoldable pub apply_unfollow : Social → Exec W (Unit {0})
  unfolding finish_unfollow on_unfollow
  apply_unfollow social = do r ← attempt (delete_follow env social); finish_unfollow social r

  unfoldable pub dispatch : String → Social → Exec W (Unit {0})
  dispatch action social =
      if str_eq action "follow"
      then apply_follow social
      else if str_eq action "unfollow"
      then apply_unfollow social
      else pure tt

  unfoldable pub process : Option SocialEvent → Exec W (Unit {0})
  unfolding dispatch
  process none = pure tt
  process (some evt) =
      if evt.follower_id == 0 || evt.vlogger_id == 0
      then pure tt
      else dispatch evt.action
          (record { id = 0; follower_id = evt.follower_id; vlogger_id = evt.vlogger_id })
