-- ===== src/Worker/Fanout.antt =====
-- fanoutworker.go: a published video goes to its author's list, and into the inboxes of the active
-- followers unless the author is big. `rand.Float64() < trimChance` is the parameter `roll`.
pub mod Batches
mod Tests
use feed_system_golang.Base.{
  ℕ, zero, suc, ◌+◌, ◌-◌, min, ltb, ℤ, pos, negsuc, leb_ℤ, ltb_ℤ, Bool, true, false, not, Option,
  none, some, List, [], ◌∷◌, ◌++◌, map, length, take, drop, Result, ok, err, Exec, pure, give,
  attempt, ignore, gets, ◌>>=◌, ◌>>◌, ◌==◌, ◌&&◌, ◌||◌, if◌then◌else◌,
}
use feed_system_golang.Backend.{Backend}
use feed_system_golang.Backend.Entity.{Time}
use feed_system_golang.Backend.Events.{FanoutEvent}
use feed_system_golang.Backend.Redis.{
  Key, Z, Command, Reply, int, number, zadd, exists, zrem_range_by_rank, follower_count, inbox,
  user_videos, user_active,
}
use feed_system_golang.Cache.{Client, has_redis, is_breaker_open}
use feed_system_golang.Cache.Commands.{get_bytes, set_bytes, expire_key, zadd_members, zrem_range}
use feed_system_golang.Social.Repo.{all_follower_ids, count_followers}
use feed_system_golang.Worker.Social.{big_v_threshold, beyond_inbox_cap, one_day, cached_count}

-- `-(userVideosCap + 1)` of `userVideosCap` 50.
abbrev pub beyond_user_videos_cap : ℤ
beyond_user_videos_cap = negsuc 50

abbrev pub fanout_batch_size : ℕ
fanout_batch_size = 100

-- `followerIDs[i:end]`
abbrev pub slice : ℕ → ℕ → List ℕ → List ℕ
slice i end ids = take (end - i) (drop i ids)

-- The batches that the loop takes from the index `i` on.
unfoldable pub batches : ℕ → ℕ → List ℕ → List (List ℕ)
batches zero i ids = []
batches (suc fuel) i ids =
    let rest = batches fuel (i + fanout_batch_size) ids in
    if ltb i (length ids) then slice i (min (i + fanout_batch_size) (length ids)) ids ∷ rest else []

abbrev pub is_active : Result Reply → Bool
is_active (ok (int n)) = ltb_ℤ (pos 0) n
is_active _ = false

unfoldable pub active_of : List ℕ → List (Result Reply) → List ℕ
active_of (id ∷ ids) (r ∷ rs) =
    let rest = active_of ids rs in if is_active r then id ∷ rest else rest
active_of _ _ = []

-- `Exec` of a pipeline fails with the first command that fails.
abbrev pub all_done : List (Result Reply) → Bool
all_done [] = true
all_done (ok r ∷ rs) = all_done rs
all_done (err e ∷ rs) = false

unfoldable pub active_among : List ℕ → Result (List (Result Reply)) → List ℕ
active_among ids (err e) = ids
active_among ids (ok rs) = if all_done rs then active_of ids rs else ids

module _ {W : Type 0} (env : Backend W) (roll : Exec W Bool) (cache : Option Client) where
  unfoldable pub trim_inbox : Key → Bool → Exec W (Unit {0})
  trim_inbox key true = ignore (zrem_range env cache key (pos 0) beyond_inbox_cap)
  trim_inbox key false = pure tt

  unfoldable pub maybe_trim_inbox : Key → Exec W (Unit {0})
  unfolding trim_inbox
  maybe_trim_inbox key = do rolled ← roll; trim_inbox key rolled

  unfoldable pub push_each : Z → List ℕ → Exec W (Unit {0})
  unfolding maybe_trim_inbox
  push_each z [] = pure tt
  push_each z (fid ∷ fids) = do
    ignore (zadd_members env cache (inbox fid) (z ∷ []))
    maybe_trim_inbox (inbox fid)
    push_each z fids

  abbrev pub push_commands : Z → ℕ → Bool → List Command
  push_commands z fid true =
      zadd (inbox fid) (z ∷ []) ∷ zrem_range_by_rank (inbox fid) (pos 0) beyond_inbox_cap ∷ []
  push_commands z fid false = zadd (inbox fid) (z ∷ []) ∷ []

  -- The commands of a batch's pipeline.
  unfoldable pub plan_batch : Z → List ℕ → Exec W (List Command)
  plan_batch z [] = pure []
  plan_batch z (fid ∷ fids) = do
    rolled ← roll
    rest ← plan_batch z fids
    pure (push_commands z fid rolled ++ rest)

  unfoldable pub fanout_batch : Z → List ℕ → Exec W (Unit {0})
  unfolding push_each plan_batch
  fanout_batch z ids = do
    stopped ← gets (is_breaker_open env cache)
    if not (has_redis cache) || stopped
        then push_each z ids
        else (do commands ← plan_batch z ids; ignore (env.pipeline commands))

  unfoldable pub fanout_all : Z → List (List ℕ) → Exec W (Unit {0})
  unfolding fanout_batch
  fanout_all z [] = pure tt
  fanout_all z (b ∷ bs) = do fanout_batch z b; fanout_all z bs

  unfoldable pub filter_active_followers : List ℕ → Exec W (List ℕ)
  filter_active_followers ids = do
    stopped ← gets (is_breaker_open env cache)
    if not (has_redis cache) || stopped then pure ids else (do
      r ← attempt (env.pipeline (map (λ id. exists (user_active id)) ids))
      pure (active_among ids r))

  unfoldable pub count_followers_cached : ℕ → Option ℤ → Exec W ℤ
  count_followers_cached user_id (some count) = pure count
  count_followers_cached user_id none = do
    count ← count_followers env user_id
    ignore (set_bytes env cache (follower_count user_id) (number (pos count)) 0)
    pure (pos count)

  unfoldable pub get_follower_count : ℕ → Exec W ℤ
  unfolding count_followers_cached
  get_follower_count user_id = do
    r ← attempt (get_bytes env cache (follower_count user_id))
    count_followers_cached user_id (cached_count r)

  unfoldable pub push_to_followers : ℕ → Z → Exec W (Unit {0})
  unfolding fanout_all filter_active_followers
  push_to_followers author_id z = do
    ids ← all_follower_ids env author_id
    active ← (if length ids == 0 then pure ids else filter_active_followers ids)
    fanout_all z (batches (length active) 0 active)

  -- A count that fails ends the work without an error.
  unfoldable pub push_by_count : ℕ → Z → Result ℤ → Exec W (Unit {0})
  unfolding push_to_followers
  push_by_count author_id z (err e) = pure tt
  push_by_count author_id z (ok count) =
      if leb_ℤ big_v_threshold count then pure tt else push_to_followers author_id z

  unfoldable pub publish_to : FanoutEvent → Exec W (Unit {0})
  unfolding push_by_count get_follower_count
  publish_to evt = do
    zadd_members env cache (user_videos evt.author_id)
        (record { member = some evt.video_id; score = evt.create_time } ∷ [])
    ignore (zrem_range env cache (user_videos evt.author_id) (pos 0) beyond_user_videos_cap)
    ignore (expire_key env cache (user_videos evt.author_id) one_day)
    r ← attempt (get_follower_count evt.author_id)
    push_by_count evt.author_id (record { member = some evt.video_id; score = evt.create_time }) r

  unfoldable pub process : Option FanoutEvent → Exec W (Unit {0})
  unfolding publish_to
  process none = pure tt
  process (some evt) = if evt.video_id == 0 || evt.author_id == 0 then pure tt else publish_to evt
