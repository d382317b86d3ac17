-- ===== src/Feed/Handler.antt =====
-- feed/handler.go. A request is what gin bound of the body, and the account that the token
-- middleware stored; `int` limits are integers.
use feed_system_golang.Base.{
  ℕ, ℤ, pos, pos_part, ltb_ℤ, leb_ℤ, ◌=ℤ◌, ◌*◌, ◌==◌, ◌||◌, ◌&&◌, not, String, Option, none, some,
  message, Result, ok, err, Exec, pure, if◌then◌else◌, ◌⊎◌, inl, inr,
}
use feed_system_golang.Backend.Entity.{Time}
use feed_system_golang.Feed.Repo.{LikesCountCursor}
use feed_system_golang.Http.Context.{Answer, refuse, respond}
use feed_system_golang.Feed.Listing.{
  TimedResponse, ListLikesCountResponse, ListByPopularityResponse,
}

pub record TimedRequest : Type 0 where
  pub limit : ℤ
  pub latest_time : ℤ

pub record ListLikesCountRequest : Type 0 where
  pub limit : ℤ
  pub likes_count_before : Option ℤ
  pub id_before : Option ℕ

pub record ListByPopularityRequest : Type 0 where
  pub limit : ℤ
  pub as_of : ℤ
  pub offset : ℤ
  pub latest_popularity : ℤ
  pub latest_before : Option Time
  pub latest_id_before : Option ℕ

-- Without an account the viewer is 0.
abbrev pub viewer_or_zero : Result ℕ → ℕ
viewer_or_zero (ok id) = id
viewer_or_zero (err e) = 0

-- A limit that is not between 1 and 50 becomes 10.
abbrev pub page_limit : ℤ → ℕ
page_limit limit = if leb_ℤ limit (pos 0) || ltb_ℤ (pos 50) limit then 10 else pos_part limit

-- `time.UnixMilli` and `time.Unix`; the time is Go's zero time without a positive number.
abbrev pub time_of_millis : ℤ → Option Time
time_of_millis t = if ltb_ℤ (pos 0) t then some t else none

abbrev pub time_of_seconds : ℤ → Option Time
time_of_seconds t = if ltb_ℤ (pos 0) t then some (pos (pos_part t * 1000)) else none

-- The cursor of a request: both parts or none.
unfoldable pub likes_cursor : Option ℤ → Option ℕ → String ⊎ Option LikesCountCursor
likes_cursor none none = inr none
likes_cursor (some n) none = inl "likes_count_before and id_before must be provided together"
likes_cursor none (some id) = inl "likes_count_before and id_before must be provided together"
likes_cursor (some n) (some id) =
    if ltb_ℤ n (pos 0)
    then inl "invalid cursor: likes_count_before must be >= 0"
    else if id == 0 && not (n =ℤ pos 0)
    then inl "invalid cursor: id_before must be > 0"
    else if id == 0
    then inr none
    else inr (some (record { likes_count = n; id = id }))

pub record PopularityCursor : Type 0 where
  pub popularity : ℤ
  pub before : Option Time
  pub id_before : ℕ

unfoldable pub popularity_cursor : ℤ → Option Time → Option ℕ → String ⊎ PopularityCursor
popularity_cursor popularity none none =
    inr (record { popularity = pos 0; before = none; id_before = 0 })
popularity_cursor popularity (some t) (some id) =
    if id == 0
    then inl "latest_before and latest_id_before must be provided together"
    else inr (record { popularity = popularity; before = some t; id_before = id })
popularity_cursor popularity _ _ =
    inl "latest_before and latest_id_before must be provided together"

-- The handlers, over what the service does.
module _ {W : Type 0} where
  unfoldable pub handle_list_latest :
      (ℕ → Option Time → ℕ → Exec W TimedResponse)
      → Result ℕ
      → TimedRequest
      → Exec W (Answer TimedResponse)
  handle_list_latest serve viewer req =
      if leb_ℤ req.limit (pos 0) || ltb_ℤ (pos 100) req.limit
      then pure (refuse 400 (message "limit must be between 1 and 100"))
      else respond 500
          (serve (pos_part req.limit) (time_of_millis req.latest_time) (viewer_or_zero viewer))

  unfoldable pub handle_list_likes_count :
      (ℕ → Option LikesCountCursor → ℕ → Exec W ListLikesCountResponse)
      → Result ℕ
      → ListLikesCountRequest
      → Exec W (Answer ListLikesCountResponse)
  handle_list_likes_count serve viewer req =
      elim (likes_cursor req.likes_count_before req.id_before) [
        | inl reason ↦ pure (refuse 400 (message reason))
        | inr cursor ↦ respond 500 (serve (page_limit req.limit) cursor (viewer_or_zero viewer))
      ]

  unfoldable pub handle_list_by_following :
      (ℕ → Option Time → ℕ → Exec W TimedResponse)
      → Result ℕ
      → TimedRequest
      → Exec W (Answer TimedResponse)
  handle_list_by_following serve (err e) req = pure (refuse 401 e)
  handle_list_by_following serve (ok viewer) req =
      respond 500 (serve (page_limit req.limit) (time_of_seconds req.latest_time) viewer)

  unfoldable pub handle_list_by_popularity :
      (ℕ → ℤ → ℤ → ℕ → ℤ → Option Time → ℕ → Exec W ListByPopularityResponse)
      → Result ℕ
      → ListByPopularityRequest
      → Exec W (Answer ListByPopularityResponse)
  handle_list_by_popularity serve viewer req =
      if ltb_ℤ req.latest_popularity (pos 0)
      then pure (refuse 400 (message "latest_popularity must be >= 0"))
      else elim (popularity_cursor req.latest_popularity req.latest_before req.latest_id_before) [
        | inl reason ↦ pure (refuse 400 (message reason))
        | inr c ↦ respond 500 (
            serve (page_limit req.limit) req.as_of req.offset (viewer_or_zero viewer) c.popularity
              c.before c.id_before)
      ]
