-- ===== src/Feed/Repo.antt =====
-- feed/repo.go, and `BatchGetLiked` of video/like_repo.go. A time that may be Go's zero time is an
-- option. An order that the query leaves open is the database's.
use feed_system_golang.Base.{
  ℕ, ℤ, Bool, true, false, ◌&&◌, ◌||◌, Option, none, some, List, [], ◌∷◌, ◌==◌, ◌=ℤ◌, ltb, ltb_ℤ,
  Exec, pure, gets, ◌>>=◌, if◌then◌else◌,
}
use feed_system_golang.Backend.{Backend}
use feed_system_golang.Backend.Entity.{Video, Like, Time}
use feed_system_golang.Backend.Sql.{any}
use feed_system_golang.Video.Repo.{unordered}
use feed_system_golang.Social.Repo.{is_pair}

pub record LikesCountCursor : Type 0 where
  pub likes_count : ℤ
  pub id : ℕ

-- `create_time DESC`
abbrev pub by_time : Video → Video → Bool
by_time v w = ltb_ℤ w.create_time v.create_time

-- `likes_count DESC, id DESC`
abbrev pub by_likes : Video → Video → Bool
by_likes v w =
    ltb_ℤ w.likes_count v.likes_count || (w.likes_count =ℤ v.likes_count && ltb w.id v.id)

-- `popularity DESC, create_time DESC, id DESC`
abbrev pub by_popularity : Video → Video → Bool
by_popularity v w =
    ltb_ℤ w.popularity v.popularity
    || ((w.popularity =ℤ v.popularity && ltb_ℤ w.create_time v.create_time)
        || (w.popularity =ℤ v.popularity && (w.create_time =ℤ v.create_time && ltb w.id v.id)))

abbrev pub is_before : Option Time → Video → Bool
is_before none v = true
is_before (some t) v = ltb_ℤ v.create_time t

-- `(likes_count < ?) OR (likes_count = ? AND id < ?)`
abbrev pub under_likes : Option LikesCountCursor → Video → Bool
under_likes none v = true
under_likes (some c) v =
    ltb_ℤ v.likes_count c.likes_count || (v.likes_count =ℤ c.likes_count && ltb v.id c.id)

abbrev pub under_popularity : ℤ → Option Time → ℕ → Video → Bool
under_popularity p none id v = true
under_popularity p (some t) id v =
    id == 0
    || (ltb_ℤ v.popularity p
        || ((v.popularity =ℤ p && ltb_ℤ v.create_time t)
            || (v.popularity =ℤ p && (v.create_time =ℤ t && ltb v.id id))))

module _ {W : Type 0} (env : Backend W) where
  unfoldable pub find_latest : ℕ → Option Time → Exec W (List Video)
  find_latest limit latest_before = env.find_videos (record {
    matches = is_before latest_before;
    before = by_time;
    offset = 0;
    limit = some limit;
  })

  unfoldable pub find_by_likes : ℕ → Option LikesCountCursor → Exec W (List Video)
  find_by_likes limit cursor =
      env.find_videos
        (record { matches = under_likes cursor; before = by_likes; offset = 0; limit = some limit })

  -- The subquery reads the table `socials` in the same statement. Without an account there is none.
  unfoldable pub find_by_following : ℕ → ℕ → Option Time → Exec W (List Video)
  find_by_following limit viewer_account_id latest_before = do
    t ← gets env.tables
    env.find_videos (record {
      matches = λ v.
          (viewer_account_id == 0 || any (is_pair viewer_account_id v.author_id) t.socials)
          && is_before latest_before v;
      before = by_time;
      offset = 0;
      limit = some limit;
    })

  unfoldable pub find_by_popularity : ℕ → ℤ → Option Time → ℕ → Exec W (List Video)
  find_by_popularity limit popularity_before time_before id_before = env.find_videos (record {
    matches = under_popularity popularity_before time_before id_before;
    before = by_popularity;
    offset = 0;
    limit = some limit;
  })

  unfoldable pub get_by_ids : List ℕ → Exec W (List Video)
  get_by_ids [] = pure []
  get_by_ids (id ∷ ids) = env.find_videos (record {
    matches = λ v. any (λ i. v.id == i) (id ∷ ids);
    before = unordered;
    offset = 0;
    limit = none;
  })

  -- The map of the liked videos, of those asked for.
  unfoldable pub liked_map : List Like → ℕ → Bool
  liked_map likes id = any (λ l. l.video_id == id) likes

  unfoldable pub batch_get_liked : List ℕ → ℕ → Exec W (ℕ → Bool)
  batch_get_liked [] account_id = pure (λ id. false)
  batch_get_liked (id ∷ ids) account_id = if account_id == 0 then pure (λ i. false) else (do
    likes ← env.find_likes (record {
      matches = λ l. any (λ i. l.video_id == i) (id ∷ ids) && l.account_id == account_id;
      before = unordered;
      offset = 0;
      limit = none;
    })
    pure (liked_map likes))
