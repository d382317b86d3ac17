-- ===== src/Feed/Latest.antt =====
-- ListLatest of feed/service.go. golang.org/x/sync/singleflight is the parameter `Flights`: `Do`
-- gives a result, and whether it was shared with other callers. An index out of range is the panic
-- that gin answers with an error.
use feed_system_golang.Base.{
  ℕ, zero, suc, ◌-◌, ℤ, pos, ◌-ℤ◌, leb_ℤ, ltb, Bool, true, false, Option, none, some, List, [], ◌∷◌,
  ◌++◌, map, length, Error, breaker_open, message, Result, ok, err, Exec, pure, raise, gets, ignore,
  attempt, ◌>>=◌, ◌>>◌, if◌then◌else◌,
}
use feed_system_golang.Backend.{Backend}
use feed_system_golang.Backend.Entity.{Video, Time}
use feed_system_golang.Backend.Redis.{Z, Bound, at, plus_inf, minus_inf, global_timeline}
use feed_system_golang.Cache.{Client}
use feed_system_golang.Cache.Commands.{zrange_scores, zrev_by_score, zadd_members}
use feed_system_golang.Feed.Repo.{find_latest}
use feed_system_golang.Feed.Listing.{TimedResponse, last_of, timed_page, list_latest_from_db}
use feed_system_golang.Feed.Lookup.{Local, get_video_by_ids}

pub record Flights (W : Type 0) : Type 0 where
  pub rebuild_flight : Exec W Bool → Exec W (Bool × Bool)
  pub videos_flight : Exec W (List Video) → Exec W (List Video × Bool)

abbrev pub is_breaker_error : Error → Bool
is_breaker_error breaker_open = true
is_breaker_error _ = false

-- `strconv.ParseUint` of each member; what is no number is left out.
abbrev pub parsed_ids : List (Option ℕ) → List ℕ
parsed_ids [] = []
parsed_ids (none ∷ ms) = parsed_ids ms
parsed_ids (some id ∷ ms) = id ∷ parsed_ids ms

abbrev pub timeline_member : Video → Z
timeline_member v = record { member = some v.id; score = v.create_time }

abbrev pub hot_bound : Option Time → Bound
hot_bound none = plus_inf
hot_bound (some t) = at (t -ℤ pos 1)

abbrev pub request_time : Time → Option Time → Time
request_time now none = now
request_time now (some t) = t

-- Where the cold part of a page begins: after the last hot video.
abbrev pub oldest_of : List Video → Option Time → Option Time
oldest_of videos latest_before = elim (last_of videos) [
  | none ↦ latest_before
  | some v ↦ some v.create_time
]

module _ {W : Type 0} (env : Backend W) (flights : Flights W) (local : Local W)
    (cache : Option Client) where
  -- Is the table empty? Or else its latest thousand videos go to the timeline.
  unfoldable pub rebuild : Exec W Bool
  rebuild = do
    videos ← find_latest env 1000 none
    elim videos [
      | [] ↦ pure true
      | v ∷ vs ↦ (do
        ignore (zadd_members env cache global_timeline (map timeline_member (v ∷ vs)))
        pure false)
    ]

  unfoldable pub hot_videos : List ℕ → Exec W (List Video)
  hot_videos [] = pure []
  hot_videos (id ∷ ids) = get_video_by_ids local env cache (id ∷ ids)

  -- A page that the timeline does not fill is filled from MySQL, if that answers.
  unfoldable pub stitch : ℕ → Option Time → List Video → Exec W (List Video)
  stitch limit latest_before videos =
      if ltb (length videos) limit
      then (do
        r ← attempt (
            flights.videos_flight
              (find_latest env (limit - length videos) (oldest_of videos latest_before)))
        elim r [ err e ↦ pure videos | ok found ↦ pure (videos ++ found.0) ])
      else pure videos

  -- The answer of the timeline.
  unfoldable pub hot_page : ℕ → Option Time → ℕ → Result (List (Option ℕ)) → Exec W TimedResponse
  unfolding stitch hot_videos
  hot_page limit latest_before viewer (err e) =
      if is_breaker_error e then list_latest_from_db env limit latest_before viewer else raise e
  hot_page limit latest_before viewer (ok members) = do
    hot ← hot_videos (parsed_ids members)
    videos ← stitch limit latest_before hot
    timed_page env limit viewer videos

  unfoldable pub from_timeline : ℕ → Option Time → ℕ → ℤ → Exec W TimedResponse
  unfolding hot_page
  from_timeline limit latest_before viewer watermark = do
    now ← gets env.clock
    if leb_ℤ (request_time now latest_before) watermark
        then (do
          cold ← flights.videos_flight (find_latest env limit latest_before)
          timed_page env limit viewer cold.0)
        else (do
          r ←
              attempt (
                zrev_by_score env cache global_timeline (hot_bound latest_before) minus_inf 0 limit)
          hot_page limit latest_before viewer r)

  -- An empty timeline was rebuilt; a caller that made the flight alone goes on with the tail that it
  -- read before, which is empty.
  unfoldable pub after_rebuild : Exec W TimedResponse → Bool × Bool → Exec W TimedResponse
  after_rebuild again (true, shared) =
      pure (record { video_list = []; next_time = pos 0; has_more = false })
  after_rebuild again (false, true) = again
  after_rebuild again (false, false) = raise (message "index out of range")

  unfoldable pub latest_by_tail :
      ℕ → Option Time → ℕ → Exec W TimedResponse → Result (List Z) → Exec W TimedResponse
  unfolding from_timeline after_rebuild rebuild
  latest_by_tail limit latest_before viewer again (err e) =
      if is_breaker_error e then list_latest_from_db env limit latest_before viewer else raise e
  latest_by_tail limit latest_before viewer again (ok []) = do
    flown ← flights.rebuild_flight rebuild
    after_rebuild again flown
  latest_by_tail limit latest_before viewer again (ok (tail ∷ zs)) =
      from_timeline limit latest_before viewer tail.score

  -- `waits` bounds how often the caller shares another's rebuilding and begins again.
  unfoldable pub list_latest : ℕ → ℕ → Option Time → ℕ → Exec W TimedResponse
  unfolding latest_by_tail
  list_latest zero limit latest_before viewer = raise (message "waited too often")
  list_latest (suc waits) limit latest_before viewer = do
    r ← attempt (zrange_scores env cache global_timeline (pos 0) (pos 0))
    latest_by_tail limit latest_before viewer (list_latest waits limit latest_before viewer) r
