-- ===== src/Feed/Lookup.antt =====
-- GetVideoByIDs of feed/service.go: the local cache, then Redis, then MySQL. go-cache is the
-- parameter `Local`, which the service always has. The videos that MySQL is asked for are fetched at
-- once in the source and one after another here; the flight that concurrent callers share is one of
-- its callers', and the write to Redis that is started on the side is done when it is started.
use feed_system_golang.Base.{
  ℕ, ◌==◌, Option, none, some, List, [], ◌∷◌, ◌++◌, map, Result, ok, err, Exec, pure, gets, ignore,
  attempt, ◌>>=◌, ◌>>◌, if◌then◌else◌,
}
use feed_system_golang.Backend.{Backend}
use feed_system_golang.Backend.Entity.{Video}
use feed_system_golang.Backend.Redis.{Value, video_detail, video_json, as_video}
use feed_system_golang.Cache.{Client}
use feed_system_golang.Cache.Commands.{mget_keys, set_bytes}
use feed_system_golang.Feed.Repo.{get_by_ids}

-- `localcache.Get` and `localcache.Set`, at the key of a video's id.
pub record Local (W : Type 0) : Type 0 where
  pub held : ℕ → W → Option Video
  pub hold : ℕ → Video → Exec W (Unit {0})

abbrev pub VideoMap : Type 0
VideoMap = ℕ → Option Video

abbrev pub put : ℕ → Video → VideoMap → VideoMap
put id v m j = if id == j then some v else m j

-- The map so far, and the ids that were not found.
pub record Search : Type 0 where
  pub video_map : VideoMap
  pub missed : List ℕ

abbrev pub missing : ℕ → Search → Search
missing id s = record s { missed = s.missed ++ id ∷ [] }

abbrev pub one_hour : ℕ
one_hour = 3600000

unfoldable pub build_ordered_result : List ℕ → VideoMap → List Video
build_ordered_result [] m = []
build_ordered_result (id ∷ ids) m =
    let rest = build_ordered_result ids m in elim (m id) [ none ↦ rest | some v ↦ v ∷ rest ]

-- A reply of Redis that is a video's JSON.
abbrev pub decoded : Option Value → Option Video
decoded none = none
decoded (some v) = as_video v

module _ {W : Type 0} (local : Local W) where
  unfoldable pub search_local : List ℕ → W → Search → Search
  search_local [] w s = s
  search_local (id ∷ ids) w s = elim (local.held id w) [
    | none ↦ search_local ids w (missing id s)
    | some v ↦ search_local ids w (record s { video_map = put id v s.video_map })
  ]

  unfoldable pub take_reply : ℕ → Option Video → Search → Exec W Search
  take_reply id none s = pure (missing id s)
  take_reply id (some v) s = do
    local.hold id v
    pure (record s { video_map = put id v s.video_map })

  -- The replies go with the ids that were asked for, in order.
  unfoldable pub search_replies : List ℕ → List (Option Value) → Search → Exec W Search
  unfolding take_reply
  search_replies (id ∷ ids) (r ∷ rs) s = do
    s' ← take_reply id (decoded r) s
    search_replies ids rs s'
  search_replies _ _ s = pure s

  module _ (env : Backend W) (cache : Option Client) where
    unfoldable pub search_redis : Client → List ℕ → VideoMap → Exec W Search
    unfolding search_replies
    search_redis client ids m = do
      r ← attempt (mget_keys env cache (map video_detail ids))
      elim r [
        | err e ↦ pure (record { video_map = m; missed = ids })
        | ok results ↦ search_replies ids results (record { video_map = m; missed = [] })
      ]

    -- Without a client the ids that were missed are forgotten.
    unfoldable pub search_redis_if : Option Client → List ℕ → VideoMap → Exec W Search
    unfolding search_redis
    search_redis_if none ids m = pure (record { video_map = m; missed = [] })
    search_redis_if (some client) ids m = search_redis client ids m

    unfoldable pub keep_row : ℕ → VideoMap → Result (List Video) → Exec W VideoMap
    keep_row id m (ok (v ∷ vs)) = do
      ignore (set_bytes env cache (video_detail v.id) (video_json v) one_hour)
      local.hold v.id v
      pure (put id v m)
    keep_row id m _ = pure m

    unfoldable pub search_rows : List ℕ → VideoMap → Exec W VideoMap
    unfolding keep_row
    search_rows [] m = pure m
    search_rows (id ∷ ids) m = do
      r ← attempt (get_by_ids env (id ∷ []))
      m' ← keep_row id m r
      search_rows ids m'

    unfoldable pub search_far : List ℕ → Search → Exec W (List Video)
    unfolding search_redis_if search_rows
    search_far ids s = elim s.missed [
      | [] ↦ pure (build_ordered_result ids s.video_map)
      | id ∷ rest ↦ (do
        t ← search_redis_if cache (id ∷ rest) s.video_map
        m ← search_rows t.missed t.video_map
        pure (build_ordered_result ids m))
    ]

    unfoldable pub get_video_by_ids : List ℕ → Exec W (List Video)
    unfolding search_far
    get_video_by_ids [] = pure []
    get_video_by_ids (id ∷ ids) = do
      s ← gets (λ w. search_local (id ∷ ids) w (record { video_map = λ _. none; missed = [] }))
      search_far (id ∷ ids) s
