-- ===== src/Feed/Popularity.antt =====
-- ListByPopularity of feed/service.go.
use feed_system_golang.Base.{
  ℕ, zero, suc, ◌/◌, ◌*◌, ℤ, pos, negsuc, ◌+ℤ◌, ◌-ℤ◌, ltb_ℤ, Bool, true, false, Option, none, some,
  List, [], ◌∷◌, length, ◌==◌, Result, ok, err, Exec, pure, gets, ignore, attempt, ◌>>=◌, ◌>>◌,
  if◌then◌else◌,
}
use feed_system_golang.Backend.{Backend}
use feed_system_golang.Backend.Entity.{Video, Time}
use feed_system_golang.Backend.Redis.{Key, hot_minute, hot_merged}
use feed_system_golang.Cache.{Client}
use feed_system_golang.Cache.Commands.{
  key_exists, zunion_store_with_weights, expire_key, zrev_members,
}
use feed_system_golang.Video.Popularity.{minute_of}
use feed_system_golang.Feed.Repo.{get_by_ids}
use feed_system_golang.Feed.Listing.{
  ListByPopularityResponse, build_feed_videos, popularity_page, list_by_popularity_from_db,
}
use feed_system_golang.Feed.Lookup.{VideoMap, build_ordered_result}

-- The minute of a time in seconds, and the seconds at which a minute begins.
abbrev pub minute_of_seconds : ℤ → ℤ
minute_of_seconds (pos n) = pos (n / 60)
minute_of_seconds (negsuc n) = negsuc (n / 60)

abbrev pub seconds_of_minute : ℤ → ℤ
seconds_of_minute (pos m) = pos (m * 60)
seconds_of_minute (negsuc m) = pos 0 -ℤ pos (suc m * 60)

abbrev pub as_of_minute : ℤ → Time → ℤ
as_of_minute req_as_of now =
    if ltb_ℤ (pos 0) req_as_of then minute_of_seconds req_as_of else minute_of now

-- The windows from the `i`-th minute back on, with their weights.
abbrev pub windows : ℕ → ℕ → ℤ → List (Key × ℕ)
windows zero i as_of = []
windows (suc n) i as_of = (hot_minute (as_of -ℤ pos i), i) ∷ windows n (suc i) as_of

-- Ids of members, where 0 is none.
abbrev pub positive_ids : List (Option ℕ) → List ℕ
positive_ids [] = []
positive_ids (none ∷ ms) = positive_ids ms
positive_ids (some zero ∷ ms) = positive_ids ms
positive_ids (some (suc n) ∷ ms) = suc n ∷ positive_ids ms

-- The map of the videos by their ids; a later video takes an earlier one's place.
abbrev pub by_id : List Video → VideoMap
by_id [] j = none
by_id (v ∷ vs) j = elim (by_id vs j) [ some w ↦ some w | none ↦ if v.id == j then some v else none ]

abbrev pub two_minutes : ℕ
two_minutes = 120000

module _ {W : Type 0} (env : Backend W) (cache : Option Client) where
  unfoldable pub merge_windows : ℤ → Bool → Exec W (Unit {0})
  merge_windows as_of true = pure tt
  merge_windows as_of false = do
    ignore (zunion_store_with_weights env cache (hot_merged as_of) (windows 60 0 as_of))
    ignore (expire_key env cache (hot_merged as_of) two_minutes)

  unfoldable pub ranked_page : ℕ → ℤ → ℤ → ℕ → List Video → Exec W ListByPopularityResponse
  ranked_page limit as_of offset viewer ordered = do
    items ← build_feed_videos env ordered viewer
    pure (
        popularity_page env limit (seconds_of_minute as_of) (offset +ℤ pos (length items)) ordered
          items)

  -- The ranking's members; without any, or with an error, `fallback`.
  unfoldable pub ranked :
      ℕ
      → ℤ
      → ℤ
      → ℕ
      → Exec W ListByPopularityResponse
      → Result (List (Option ℕ))
      → Exec W ListByPopularityResponse
  unfolding ranked_page
  ranked limit as_of offset viewer fallback (err e) = fallback
  ranked limit as_of offset viewer fallback (ok []) = fallback
  ranked limit as_of offset viewer fallback (ok (m ∷ ms)) = do
    r ← attempt (get_by_ids env (positive_ids (m ∷ ms)))
    elim r [
      | err e ↦ fallback
      | ok videos ↦
          ranked_page limit as_of offset viewer
            (build_ordered_result (positive_ids (m ∷ ms)) (by_id videos))
    ]

  unfoldable pub list_from_ranking :
      ℕ → ℤ → ℤ → ℕ → Exec W ListByPopularityResponse → Exec W ListByPopularityResponse
  unfolding merge_windows ranked
  list_from_ranking limit req_as_of offset viewer fallback = do
    now ← gets env.clock
    merged ← attempt (key_exists env cache (hot_merged (as_of_minute req_as_of now)))
    merge_windows (as_of_minute req_as_of now)
        (elim merged as (λ _. Bool) [ ok there ↦ there | err e ↦ false ])
    r ← attempt (
        zrev_members env cache (hot_merged (as_of_minute req_as_of now)) offset
          (offset +ℤ pos limit -ℤ pos 1))
    ranked limit (as_of_minute req_as_of now) offset viewer fallback r

  unfoldable pub list_by_popularity :
      ℕ → ℤ → ℤ → ℕ → ℤ → Option Time → ℕ → Exec W ListByPopularityResponse
  unfolding list_from_ranking
  list_by_popularity limit req_as_of offset viewer popularity before id_before =
      let fallback = list_by_popularity_from_db env limit popularity before id_before viewer in
      elim cache [
        | none ↦ fallback
        | some client ↦ list_from_ranking limit req_as_of offset viewer fallback
      ]
