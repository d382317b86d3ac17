-- ===== src/Feed/Errors.antt =====
-- Which errors the readings of ListLatest and GetVideoByIDs can end with.
use feed_system_golang.Base.{
  ℤ, ℕ, ◌≡◌, sym, subst, ◌∙◌, ◌⊎◌, inl, inr, Bool, Option, none, some, List, [], ◌∷◌, Error,
  breaker_open, message, Result, ok, err, Exec, pure, if◌then◌else◌, arith, Bool-cases,
}
use feed_system_golang.Backend.{Backend}
use feed_system_golang.Backend.Entity.{Video, Time, Like}
use feed_system_golang.Backend.Sql.{Query}
use feed_system_golang.Backend.Redis.{Key, Bound, Value, Command, Reply}
use feed_system_golang.Cache.{Client, run, execute}
use feed_system_golang.Cache.Breaking.{BreakerLaws, execute_result}
use feed_system_golang.Cache.Commands.{not_initialized, zrange_scores, zrev_by_score}
use feed_system_golang.Feed.Repo.{find_latest, batch_get_liked}
use feed_system_golang.Feed.Listing.{build_feed_videos, timed_page, list_latest_from_db}
use feed_system_golang.Feed.Lookup.{
  Local, Search, VideoMap, decoded, take_reply, search_replies, search_redis, search_redis_if,
  keep_row, search_rows, search_far, get_video_by_ids,
}
use feed_system_golang.Feed.Latest.{Flights}
use feed_system_golang.Backend.Raises.{
  Raises, Raises-pure, Raises-gets, Raises-attempt, Raises-raise, Raises-bind, raises_rules,
}

-- One of those errors, or ErrBreakerOpen.
abbrev pub OrOpen : (Error → Type 0) → Error → Type 0
OrOpen P e = P e ⊎ (e ≡ breaker_open)

-- Where the other parts' errors come from: MySQL, a Redis command, the flights' calls, the local cache,
-- a client that has no connection, and the panic of an index out of range.
pub record Sources {W : Type 0} (env : Backend W) (flights : Flights W) (local : Local W)
    (P : Error → Type 0) : Type 0 where
  pub find_videos-Raises : (q : Query Video) → Raises P (env.find_videos q)
  pub find_likes-Raises : (q : Query Like) → Raises P (env.find_likes q)
  pub command-Raises : (c : Command) → Raises P (env.command c)
  pub rebuild_flight-Raises : (m : Exec W Bool) → Raises P m → Raises P (flights.rebuild_flight m)
  pub videos_flight-Raises :
      (m : Exec W (List Video)) → Raises P m → Raises P (flights.videos_flight m)
  pub hold-Raises : (id : ℕ) (v : Video) → Raises P (local.hold id v)
  pub no_connection : P not_initialized
  pub out_of_range : P (message "index out of range")

module _ {W : Type 0} {env : Backend W} (breaker : BreakerLaws env) {flights : Flights W}
    {local : Local W} (cache : Option Client) {P : Error → Type 0}
    (from : Sources env flights local P) where
  open from use {
    find_videos-Raises, find_likes-Raises, command-Raises, rebuild_flight-Raises,
    videos_flight-Raises, hold-Raises,
  }

  run-Raises :
      (absent : Exec W Reply) (c : Command)
      → Raises P absent
      → Raises (OrOpen P) (run env cache absent c)
  unfolding run
  run-Raises absent c q = record { at = λ w e h. go cache w e h }
    where
      go : (k : Option Client) (w : W) (e : Error) → (run env k absent c w).0 ≡ err e → OrOpen P e
      go none w e h = inl (q.at w e h)
      go (some client) w e h = elim (Bool-cases client.has_rdb) [
        | inr lost ↦ inl (
            q.at w e (
              subst
                (λ b.
                  ((if b then execute env client.breaker (env.command c) else absent) w).0 ≡ err e)
                lost h))
        | inl connected ↦
            let h' =
              subst
                (λ b.
                  ((if b then execute env client.breaker (env.command c) else absent) w).0 ≡ err e)
                connected h in
            elim (execute_result env breaker client.breaker (env.command c) w) [
              | inl opened ↦ inr (ground (arith, opened, h'))
              | inr (called, q') ↦ inl ((command-Raises c).at called e (sym q' ∙ h'))
            ]
      ]

  pub zrange_scores-Raises :
      (key : Key) (start stop : ℤ) → Raises (OrOpen P) (zrange_scores env cache key start stop)
  unfolding zrange_scores
  zrange_scores-Raises key start stop =
      Raises-bind (run-Raises _ _ (Raises-raise not_initialized from.no_connection))
        (λ r. Raises-pure _)

  pub zrev_by_score-Raises :
      (key : Key) (max min : Bound) (offset count : ℕ)
      → Raises (OrOpen P) (zrev_by_score env cache key max min offset count)
  unfolding zrev_by_score
  zrev_by_score-Raises key max min offset count =
      Raises-bind (run-Raises _ _ (Raises-pure _)) (λ r. Raises-pure _)

  batch_get_liked-Raises : (ids : List ℕ) (viewer : ℕ) → Raises P (batch_get_liked env ids viewer)
  unfolding batch_get_liked
  batch_get_liked-Raises [] viewer = search raises_rules
  batch_get_liked-Raises (id ∷ ids) viewer = search (raises_rules, find_likes-Raises)

  pub timed_page-Raises :
      (limit viewer : ℕ) (videos : List Video) → Raises P (timed_page env limit viewer videos)
  unfolding timed_page build_feed_videos
  timed_page-Raises limit viewer videos = search (raises_rules, batch_get_liked-Raises)

  pub find_latest-Raises :
      (limit : ℕ) (before : Option Time) → Raises P (find_latest env limit before)
  unfolding find_latest
  find_latest-Raises limit before = find_videos-Raises _

  pub list_latest_from_db-Raises :
      (limit : ℕ) (before : Option Time) (viewer : ℕ)
      → Raises P (list_latest_from_db env limit before viewer)
  unfolding list_latest_from_db
  list_latest_from_db-Raises limit before viewer =
      search (raises_rules, find_latest-Raises, timed_page-Raises)

  take_reply-Raises : (id : ℕ) (o : Option Video) (s : Search) → Raises P (take_reply local id o s)
  unfolding take_reply
  take_reply-Raises id none s = search raises_rules
  take_reply-Raises id (some v) s = search (raises_rules, hold-Raises)

  search_replies-Raises :
      (ids : List ℕ) (rs : List (Option Value)) (s : Search)
      → Raises P (search_replies local ids rs s)
  unfolding search_replies
  search_replies-Raises [] rs s = search raises_rules
  search_replies-Raises (id ∷ ids) [] s = search raises_rules
  search_replies-Raises (id ∷ ids) (r ∷ rs) s =
      Raises-bind (take_reply-Raises id (decoded r) s) (λ t. search_replies-Raises ids rs t)

  search_redis_if-Raises :
      (c : Option Client) (ids : List ℕ) (m : VideoMap)
      → Raises P (search_redis_if local env cache c ids m)
  unfolding search_redis_if search_redis
  search_redis_if-Raises none ids m = search raises_rules
  search_redis_if-Raises (some client) ids m = Raises-bind (Raises-attempt _) replied
    where
      replied :
          (r : Result (List (Option Value)))
          → Raises P (elim r as (λ _. Exec W Search) [
            | err e ↦ pure (record { video_map = m; missed = ids })
            | ok results ↦ search_replies local ids results (record { video_map = m; missed = [] })
          ])
      replied (err e) = Raises-pure _
      replied (ok results) = search_replies-Raises ids results _

  keep_row-Raises :
      (id : ℕ) (m : VideoMap) (r : Result (List Video)) → Raises P (keep_row local env cache id m r)
  unfolding keep_row
  keep_row-Raises id m (ok []) = search raises_rules
  keep_row-Raises id m (ok (v ∷ vs)) = search (raises_rules, hold-Raises)
  keep_row-Raises id m (err e) = search raises_rules

  search_rows-Raises : (ids : List ℕ) (m : VideoMap) → Raises P (search_rows local env cache ids m)
  unfolding search_rows
  search_rows-Raises [] m = search raises_rules
  search_rows-Raises (id ∷ ids) m =
      Raises-bind (Raises-attempt _)
        (λ r. Raises-bind (keep_row-Raises id m r) (λ m'. search_rows-Raises ids m'))

  search_far-Raises :
      (ids missed : List ℕ) (m : VideoMap)
      → Raises P (search_far local env cache ids (record { video_map = m; missed = missed }))
  unfolding search_far
  search_far-Raises ids [] m = search raises_rules
  search_far-Raises ids (id ∷ rest) m =
      search (raises_rules, search_redis_if-Raises, search_rows-Raises)

  pub get_video_by_ids-Raises : (ids : List ℕ) → Raises P (get_video_by_ids local env cache ids)
  unfolding get_video_by_ids
  get_video_by_ids-Raises [] = search raises_rules
  get_video_by_ids-Raises (id ∷ ids) =
      Raises-bind (Raises-gets _) (λ s. search_far-Raises (id ∷ ids) s.missed s.video_map)
