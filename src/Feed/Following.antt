-- ===== src/Feed/Following.antt =====
-- ListByFollowing of feed/service.go: videos that were pushed to the inbox, and videos pulled from
-- the big accounts, merged. `sort.Slice` is a parameter, since it leaves the order of ties open, and
-- so is container/heap. The two readings at the beginning, which run at once in the source, run one
-- after the other; a Go map is read in the order in which it was written.
use feed_system_golang.Base.{
  ℕ, zero, suc, ◌-◌, ◌*◌, min, ℤ, pos, leb_ℤ, leb, ltb, max_ℤ, ◌||◌, ◌&&◌, not, Bool, false, Option,
  none, some, List, [], ◌∷◌, map, length, ◌==◌, Result, ok, err, Exec, pure, gets, attempt, ◌-ℤ◌,
  ◌>>=◌, if◌then◌else◌,
}
use feed_system_golang.Backend.{Backend}
use feed_system_golang.Backend.Entity.{Video, Time}
use feed_system_golang.Backend.Redis.{
  Z, Command, Reply, zs, inbox, user_videos, following_bigv, zrev_range_with_scores,
}
use feed_system_golang.Cache.{Client, has_redis, is_breaker_open}
use feed_system_golang.Cache.Commands.{zrev_scores, set_members}
use feed_system_golang.Feed.Merge.{VideoWithTime, StreamCursor, MergeItem, Heap, merge_and_dedup}
use feed_system_golang.Feed.Listing.{
  TimedResponse, next_time_of, build_feed_videos, list_by_following_from_db,
}
use feed_system_golang.Feed.Lookup.{Local, get_video_by_ids}
use feed_system_golang.Feed.Popularity.{positive_ids}

pub record BigV : Type 0 where
  pub id : ℕ
  pub newest_at : ℤ

-- `sort.Slice` with `newestAt` and with `CreateTime`, descending.
pub record Sorts : Type 0 where
  pub sort_big : List BigV → List BigV
  pub sort_videos : List Video → List Video

abbrev pub max_int64 : ℤ
max_int64 = pos 9223372036854775807

-- The cursor's bound; without a cursor it is the greatest number.
abbrev pub score_limit : Option Time → ℤ
score_limit none = max_int64
score_limit (some t) = t -ℤ pos 1

abbrev pub parsed_member : ℤ → Z → Option VideoWithTime
parsed_member max item = elim item.member [
  | none ↦ none
  | some id ↦
      if id == 0 || leb_ℤ max item.score
      then none
      else some (record { video_id = id; create_time = item.score })
]

unfoldable pub parse_zset_with_scores : List Z → ℤ → List VideoWithTime
parse_zset_with_scores [] max = []
parse_zset_with_scores (item ∷ items) max =
    let rest = parse_zset_with_scores items max in
    elim (parsed_member max item) [ none ↦ rest | some v ↦ v ∷ rest ]

-- The time of the last pushed video.
abbrev pub inbox_oldest : List VideoWithTime → Option ℤ
inbox_oldest [] = none
inbox_oldest (v ∷ []) = some v.create_time
inbox_oldest (v ∷ w ∷ ws) = inbox_oldest (w ∷ ws)

-- What is no newer than the inbox's oldest video.
abbrev pub is_stale : Option ℤ → ℤ → Bool
is_stale none newest = false
is_stale (some oldest) newest = leb_ℤ newest oldest

abbrev pub newest_of : List BigV → ℤ
newest_of [] = pos 0
newest_of (b ∷ bs) = max_ℤ b.newest_at (newest_of bs)

-- A full inbox is enough when no big account has a newer video.
unfoldable pub should_skip_pull : ℕ → List VideoWithTime → List BigV → Bool
should_skip_pull limit pushed samples =
    leb limit (length pushed) && is_stale (inbox_oldest pushed) (newest_of samples)

unfoldable pub needed : ℕ → List VideoWithTime → ℕ
needed limit pushed = if ltb (length pushed) limit then limit - length pushed else limit

-- How many videos are pulled from whom: ten each at most, the most active accounts first.
unfoldable pub quotas : ℕ → Option ℤ → List BigV → List (ℕ × ℕ)
quotas zero oldest bs = []
quotas (suc n) oldest [] = []
quotas (suc n) oldest (b ∷ bs) =
    let skipped = quotas (suc n) oldest bs in
    let rest = quotas (suc n - min (suc n) 10) oldest bs in
    if is_stale oldest b.newest_at then skipped else (b.id, min (suc n) 10) ∷ rest

-- The first videos of an account.
abbrev pub read_first : ℕ × ℕ → Command
read_first (id, n) = zrev_range_with_scores (user_videos id) (pos 0) (pos n -ℤ pos 1)

abbrev pub listed : Result Reply → List Z
listed (ok (zs l)) = l
listed _ = []

abbrev pub replied : Result (List (Result Reply)) → List (List Z)
replied (ok rs) = map listed rs
replied (err e) = []

abbrev pub scores : Result (List Z) → List Z
scores (ok l) = l
scores (err e) = []

-- The first score of each account that has one.
abbrev pub samples_of : List ℕ → List (List Z) → List BigV
samples_of (id ∷ ids) ((z ∷ more) ∷ ls) =
    record { id = id; newest_at = z.score } ∷ samples_of ids ls
samples_of (id ∷ ids) ([] ∷ ls) = samples_of ids ls
samples_of _ _ = []

abbrev pub streams_of : ℤ → List (List Z) → List (List VideoWithTime)
streams_of max [] = []
streams_of max ([] ∷ ls) = streams_of max ls
streams_of max ((z ∷ more) ∷ ls) = parse_zset_with_scores (z ∷ more) max ∷ streams_of max ls

-- The label of a stream is read by nothing.
abbrev pub cursor_of : List VideoWithTime → StreamCursor
cursor_of items = record { items = items; pos = 0; source = "" }

module _ {W : Type 0} (env : Backend W) (heap : Heap MergeItem) (sorts : Sorts) (local : Local W)
    (cache : Option Client) where
  -- A command for each account, one after another, with its errors ignored.
  unfoldable pub read_each : List (ℕ × ℕ) → Exec W (List (List Z))
  read_each [] = pure []
  read_each ((id, n) ∷ rest) = do
    r ← attempt (zrev_scores env cache (user_videos id) (pos 0) (pos n -ℤ pos 1))
    ls ← read_each rest
    pure (scores r ∷ ls)

  unfoldable pub read_pipelined : List (ℕ × ℕ) → Exec W (List (List Z))
  read_pipelined plan = do r ← attempt (env.pipeline (map read_first plan)); pure (replied r)

  -- The newest video of each account. The breaker stops the pipeline here, and not when pulling.
  unfoldable pub sample : List ℕ → Exec W (List BigV)
  unfolding read_each read_pipelined
  sample ids = do
    stopped ← gets (is_breaker_open env cache)
    ls ←
        (if has_redis cache && not stopped
          then read_pipelined (map (λ id. (id, 1)) ids)
          else read_each (map (λ id. (id, 1)) ids))
    pure (samples_of ids ls)

  unfoldable pub pull : ℕ → ℤ → List VideoWithTime → List BigV → Exec W (List (List VideoWithTime))
  unfolding read_each read_pipelined
  pull limit max pushed samples =
      if should_skip_pull limit pushed samples || length samples == 0 then pure [] else (do
        ls ←
            (if has_redis cache
              then read_pipelined
                  (quotas (needed limit pushed) (inbox_oldest pushed) (sorts.sort_big samples))
              else read_each
                  (quotas (needed limit pushed) (inbox_oldest pushed) (sorts.sort_big samples)))
        pure (streams_of max ls))

  unfoldable pub pull_from :
      ℕ → ℤ → List VideoWithTime → List ℕ → Exec W (List (List VideoWithTime))
  unfolding sample pull
  pull_from limit max pushed [] = pure []
  pull_from limit max pushed (id ∷ ids) = do
    samples ← sample (id ∷ ids)
    pull limit max pushed samples

  unfoldable pub merged_page : ℕ → ℕ → List Video → Exec W TimedResponse
  merged_page limit viewer videos = do
    items ← build_feed_videos env videos viewer
    pure (record {
      video_list = items;
      next_time = next_time_of videos;
      has_more = leb limit (length videos);
    })

  unfoldable pub from_merged : ℕ → ℕ → Exec W TimedResponse → List ℕ → Exec W TimedResponse
  unfolding merged_page
  from_merged limit viewer fallback [] = fallback
  from_merged limit viewer fallback (id ∷ ids) = do
    r ← attempt (get_video_by_ids local env cache (id ∷ ids))
    elim r [ err e ↦ fallback | ok videos ↦ merged_page limit viewer (sorts.sort_videos videos) ]

  unfoldable pub list_following_merged :
      ℕ → Option Time → ℕ → Exec W TimedResponse → Exec W TimedResponse
  unfolding pull_from from_merged
  list_following_merged limit latest_before viewer fallback = do
    items ← attempt (zrev_scores env cache (inbox viewer) (pos 0) (pos (limit * 2) -ℤ pos 1))
    ids ← attempt (set_members env cache (following_bigv viewer))
    streams ←
        pull_from limit (score_limit latest_before)
          (parse_zset_with_scores (scores items) (score_limit latest_before))
          (positive_ids (elim ids as (λ _. List (Option ℕ)) [ ok l ↦ l | err e ↦ [] ]))
    from_merged limit viewer fallback (
        merge_and_dedup heap
          (cursor_of (parse_zset_with_scores (scores items) (score_limit latest_before))
            ∷ map cursor_of streams)
          limit)

  unfoldable pub list_by_following : ℕ → Option Time → ℕ → Exec W TimedResponse
  unfolding list_following_merged
  list_by_following limit latest_before viewer =
      let fallback = list_by_following_from_db env limit latest_before viewer in
      elim cache [
        | none ↦ fallback
        | some client ↦
            if viewer == 0
            then fallback
            else list_following_merged limit latest_before viewer fallback
      ]
