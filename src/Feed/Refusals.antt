-- ===== src/Feed/Refusals.antt =====
-- The breaker's refusals while ListLatest reads the timeline.
mod Tests
use feed_system_golang.Base.{
  ok_same, ℤ, pos, ℕ, zero, suc, ◌-◌, ltb, ◌≡◌, ◌≢◌, refl, sym, subst, ap, ◌∙◌, ◌⊎◌, inl, inr, Bool,
  true, false, Option, none, some, List, [], ◌∷◌, ◌++◌, map, length, Error, breaker_open, message,
  Result, ok, err, Exec, pure, raise, gets, ignore, attempt, continue, ◌>>=◌, ◌>>◌, if◌then◌else◌,
  arith, Bool-cases,
}
use feed_system_golang.Backend.{Backend}
use feed_system_golang.Backend.Entity.{Video, Time, Like}
use feed_system_golang.Backend.Sql.{Query}
use feed_system_golang.Backend.Redis.{
  global_timeline, minus_inf, Key, Bound, Value, Command, Reply, Z,
}
use feed_system_golang.Cache.{Client, run, execute}
use feed_system_golang.Cache.Breaking.{BreakerLaws, execute_result}
use feed_system_golang.Cache.Commands.{not_initialized, zrange_scores, zrev_by_score, zadd_members}
use feed_system_golang.Feed.Repo.{find_latest, batch_get_liked}
use feed_system_golang.Feed.Listing.{
  TimedResponse, build_feed_videos, timed_page, list_latest_from_db,
}
use feed_system_golang.Feed.Lookup.{
  Local, Search, VideoMap, decoded, take_reply, search_replies, search_redis, search_redis_if,
  keep_row, search_rows, search_far, get_video_by_ids,
}
use feed_system_golang.Feed.Latest.{
  Flights, is_breaker_error, timeline_member, hot_bound, oldest_of, request_time, rebuild,
  hot_videos, stitch, hot_page, from_timeline, after_rebuild, latest_by_tail, list_latest,
}
use feed_system_golang.Backend.Raises.{
  Raises, Raises-pure, Raises-gets, Raises-attempt, Raises-raise, Raises-if, Raises-bind,
  Raises-attempted, raises_rules,
}
use feed_system_golang.Feed.Errors.{
  OrOpen, Sources, find_latest-Raises, get_video_by_ids-Raises, list_latest_from_db-Raises,
  timed_page-Raises, zrange_scores-Raises, zrev_by_score-Raises,
}
use feed_system_golang.Feed.Latest.{parsed_ids}

module _ {W : Type 0} {env : Backend W} (breaker : BreakerLaws env) {flights : Flights W}
    {local : Local W} (cache : Option Client) {P : Error → Type 0}
    (from : Sources env flights local P) where
  open from use {
    find_videos-Raises, find_likes-Raises, command-Raises, rebuild_flight-Raises,
    videos_flight-Raises, hold-Raises,
  }

  rebuild-Raises : Raises P (rebuild env flights local cache)
  unfolding rebuild
  rebuild-Raises = Raises-bind (find_latest-Raises breaker cache from 1000 none) rebuilt
    where
      rebuilt :
          (videos : List Video)
          → Raises P (elim videos as (λ _. Exec W Bool) [
            | [] ↦ pure true
            | v ∷ vs ↦
                ignore (zadd_members env cache global_timeline (map timeline_member (v ∷ vs)))
                >> pure false
          ])
      rebuilt [] = Raises-pure true
      rebuilt (v ∷ vs) = search raises_rules

  hot_videos-Raises : (ids : List ℕ) → Raises P (hot_videos env flights local cache ids)
  unfolding hot_videos
  hot_videos-Raises [] = search raises_rules
  hot_videos-Raises (id ∷ ids) = get_video_by_ids-Raises breaker cache from (id ∷ ids)

  stitch-Raises :
      (limit : ℕ) (before : Option Time) (videos : List Video)
      → Raises P (stitch env flights local cache limit before videos)
  unfolding stitch
  stitch-Raises limit before videos =
      Raises-if (ltb (length videos) limit) (Raises-bind (Raises-attempt _) stitched)
        (Raises-pure videos)
    where
      stitched :
          (r : Result (List Video × Bool))
          → Raises P (elim r as (λ _. Exec W (List Video)) [
            | err e ↦ pure videos
            | ok found ↦ pure (videos ++ found.0)
          ])
      stitched (err e) = Raises-pure videos
      stitched (ok found) = Raises-pure _

  -- A refused reading is not passed on, and every other error of it is one of those.
  fall_back-Raises :
      {A : Type 0} (e : Error) (m : Exec W A)
      → OrOpen P e
      → Raises P m
      → Raises P (if is_breaker_error e then m else raise e)
  fall_back-Raises e m (inr opened) q =
      subst (λ e. Raises P (if is_breaker_error e then m else raise e)) (sym opened) q
  fall_back-Raises e m (inl p) q = Raises-if (is_breaker_error e) q (Raises-raise e p)

  hot_page-Raises :
      (limit : ℕ) (before : Option Time) (viewer : ℕ) (r : Result (List (Option ℕ)))
      → ((e : Error) → r ≡ err e → OrOpen P e)
      → Raises P (hot_page env flights local cache limit before viewer r)
  unfolding hot_page
  hot_page-Raises limit before viewer (err e) p =
      fall_back-Raises e _ (p e refl)
        (list_latest_from_db-Raises breaker cache from limit before viewer)
  hot_page-Raises limit before viewer (ok members) p =
      Raises-bind (hot_videos-Raises (parsed_ids members)) (λ hot.
        Raises-bind (stitch-Raises limit before hot)
          (λ videos. timed_page-Raises breaker cache from limit viewer videos))

  from_timeline-Raises :
      (limit : ℕ) (before : Option Time) (viewer : ℕ) (watermark : ℤ)
      → Raises P (from_timeline env flights local cache limit before viewer watermark)
  unfolding from_timeline
  from_timeline-Raises limit before viewer watermark = Raises-bind (Raises-gets _) (λ now.
      Raises-if _
        (Raises-bind (videos_flight-Raises _ (find_latest-Raises breaker cache from limit before))
          (λ cold. timed_page-Raises breaker cache from limit viewer cold.0))
        (Raises-attempted _ (zrev_by_score-Raises breaker cache from _ _ _ _ _)
          (hot_page-Raises limit before viewer)))

  after_rebuild-Raises :
      (again : Exec W TimedResponse) (flown : Bool × Bool)
      → Raises P again
      → Raises P (after_rebuild env flights local cache again flown)
  unfolding after_rebuild
  after_rebuild-Raises again (true, shared) q = search raises_rules
  after_rebuild-Raises again (false, true) q = q
  after_rebuild-Raises again (false, false) q = Raises-raise _ from.out_of_range

  latest_by_tail-Raises :
      (limit : ℕ) (before : Option Time) (viewer : ℕ) (again : Exec W TimedResponse)
      (r : Result (List Z))
      → Raises P again
      → ((e : Error) → r ≡ err e → OrOpen P e)
      → Raises P (latest_by_tail env flights local cache limit before viewer again r)
  unfolding latest_by_tail
  latest_by_tail-Raises limit before viewer again (err e) q p =
      fall_back-Raises e _ (p e refl)
        (list_latest_from_db-Raises breaker cache from limit before viewer)
  latest_by_tail-Raises limit before viewer again (ok []) q p =
      Raises-bind (rebuild_flight-Raises _ rebuild-Raises)
        (λ flown. after_rebuild-Raises again flown q)
  latest_by_tail-Raises limit before viewer again (ok (tail ∷ zs)) q p =
      from_timeline-Raises limit before viewer tail.score

  -- ListLatest passes the breaker's refusal on for neither of its two readings of the timeline: each of
  -- its errors is one that MySQL, a command that Redis did run, a shared call or the local cache gave,
  -- or the missing connection, the index out of range, or the end of the model's waiting. So where none
  -- of those gives ErrBreakerOpen, no caller sees it, whenever the breaker opens.
  pub list_latest-Raises :
      P (message "waited too often")
      → (waits limit : ℕ) (before : Option Time) (viewer : ℕ)
      → Raises P (list_latest env flights local cache waits limit before viewer)
  unfolding list_latest
  list_latest-Raises ended zero limit before viewer = Raises-raise _ ended
  list_latest-Raises ended (suc waits) limit before viewer =
      Raises-attempted _ (zrange_scores-Raises breaker cache from _ _ _) (λ r.
        latest_by_tail-Raises limit before viewer _ r
          (list_latest-Raises ended waits limit before viewer))
