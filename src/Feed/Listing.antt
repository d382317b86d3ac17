-- ===== src/Feed/Listing.antt =====
-- The answers of feed/entity.go, and the feeds of feed/service.go that read MySQL alone.
use feed_system_golang.Base.{
  ℕ, ◌/◌, ℤ, pos, negsuc, String, Bool, Option, none, some, List, [], ◌∷◌, map, length, ◌==◌, Exec,
  pure, ◌>>=◌,
}
use feed_system_golang.Backend.{Backend}
use feed_system_golang.Backend.Entity.{Video, Time}
use feed_system_golang.Feed.Repo.{
  LikesCountCursor, find_latest, find_by_likes, find_by_following, find_by_popularity,
  batch_get_liked,
}

pub record FeedAuthor : Type 0 where
  pub id : ℕ
  pub username : String

pub record FeedVideoItem : Type 0 where
  pub id : ℕ
  pub author : FeedAuthor
  pub title : String
  pub description : String
  pub play_url : String
  pub cover_url : String
  pub create_time : ℤ
  pub likes_count : ℤ
  pub is_liked : Bool

-- `ListLatestResponse`, and `ListByFollowingResponse`, which has the same fields.
pub record TimedResponse : Type 0 where
  pub video_list : List FeedVideoItem
  pub next_time : ℤ
  pub has_more : Bool

pub record ListLikesCountResponse : Type 0 where
  pub video_list : List FeedVideoItem
  pub next_likes_count_before : Option ℤ
  pub next_id_before : Option ℕ
  pub has_more : Bool

pub record ListByPopularityResponse : Type 0 where
  pub video_list : List FeedVideoItem
  pub as_of : ℤ
  pub next_offset : ℤ
  pub has_more : Bool
  pub next_latest_popularity : Option ℤ
  pub next_latest_before : Option Time
  pub next_latest_id_before : Option ℕ

-- `Unix()` of a time in milliseconds: whole seconds, rounded down.
abbrev pub seconds_of : Time → ℤ
seconds_of (pos n) = pos (n / 1000)
seconds_of (negsuc n) = negsuc (n / 1000)

abbrev pub last_of : List Video → Option Video
last_of [] = none
last_of (v ∷ []) = some v
last_of (v ∷ w ∷ ws) = last_of (w ∷ ws)

-- The time of the page's last video, which is the next page's cursor.
abbrev pub next_time_of : List Video → ℤ
next_time_of videos = elim (last_of videos) [ none ↦ pos 0 | some v ↦ v.create_time ]

abbrev pub feed_item : (ℕ → Bool) → Video → FeedVideoItem
feed_item liked v = record {
  id = v.id;
  author = record { id = v.author_id; username = v.username };
  title = v.title;
  description = v.description;
  play_url = v.play_url;
  cover_url = v.cover_url;
  create_time = seconds_of v.create_time;
  likes_count = v.likes_count;
  is_liked = liked v.id;
}

module _ {W : Type 0} (env : Backend W) where
  unfoldable pub build_feed_videos : List Video → ℕ → Exec W (List FeedVideoItem)
  build_feed_videos videos viewer_account_id = do
    liked ← batch_get_liked env (map (λ v. v.id) videos) viewer_account_id
    pure (map (feed_item liked) videos)

  -- A page of videos by time.
  unfoldable pub timed_page : ℕ → ℕ → List Video → Exec W TimedResponse
  timed_page limit viewer_account_id videos = do
    items ← build_feed_videos videos viewer_account_id
    pure (record {
      video_list = items;
      next_time = next_time_of videos;
      has_more = length videos == limit;
    })

  unfoldable pub list_latest_from_db : ℕ → Option Time → ℕ → Exec W TimedResponse
  unfolding timed_page
  list_latest_from_db limit latest_before viewer_account_id = do
    videos ← find_latest env limit latest_before
    timed_page limit viewer_account_id videos

  unfoldable pub list_by_following_from_db : ℕ → Option Time → ℕ → Exec W TimedResponse
  unfolding timed_page
  list_by_following_from_db limit latest_before viewer_account_id = do
    videos ← find_by_following env limit viewer_account_id latest_before
    timed_page limit viewer_account_id videos

  unfoldable pub likes_page : ℕ → ℕ → List Video → Exec W ListLikesCountResponse
  likes_page limit viewer_account_id videos = do
    items ← build_feed_videos videos viewer_account_id
    pure (record {
      video_list = items;
      next_likes_count_before = elim (last_of videos) [ none ↦ none | some v ↦ some v.likes_count ];
      next_id_before = elim (last_of videos) [ none ↦ none | some v ↦ some v.id ];
      has_more = length videos == limit;
    })

  unfoldable pub list_likes_count : ℕ → Option LikesCountCursor → ℕ → Exec W ListLikesCountResponse
  unfolding likes_page
  list_likes_count limit cursor viewer_account_id = do
    videos ← find_by_likes env limit cursor
    likes_page limit viewer_account_id videos

  -- The answer with its cursor; `as_of` and `next_offset` are 0 for a page of MySQL.
  unfoldable pub popularity_page :
      ℕ → ℤ → ℤ → List Video → List FeedVideoItem → ListByPopularityResponse
  popularity_page limit as_of next_offset videos items = record {
    video_list = items;
    as_of = as_of;
    next_offset = next_offset;
    has_more = length items == limit;
    next_latest_popularity = elim (last_of videos) [ none ↦ none | some v ↦ some v.popularity ];
    next_latest_before = elim (last_of videos) [ none ↦ none | some v ↦ some v.create_time ];
    next_latest_id_before = elim (last_of videos) [ none ↦ none | some v ↦ some v.id ];
  }

  unfoldable pub list_by_popularity_from_db :
      ℕ → ℤ → Option Time → ℕ → ℕ → Exec W ListByPopularityResponse
  unfolding popularity_page
  list_by_popularity_from_db limit popularity before id_before viewer_account_id = do
    videos ← find_by_popularity env limit popularity before id_before
    items ← build_feed_videos videos viewer_account_id
    pure (popularity_page limit (pos 0) (pos 0) videos items)
