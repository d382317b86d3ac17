-- ===== src/Video/Repo.antt =====
-- video_repo.go and like_repo.go: the statements that the repositories send.
use feed_system_golang.Base.{
  ℕ, ℤ, pos, ◌+ℤ◌, max_ℤ, ltb_ℤ, ltb, Bool, true, false, none, List, Error, record_not_found, mysql,
  message, Result, ok, err, Exec, pure, raise, attempt, ◌>>=◌, ◌>>◌, ◌==◌, ◌&&◌, ◌||◌,
  if◌then◌else◌,
}
use feed_system_golang.Backend.{Backend}
use feed_system_golang.Backend.Entity.{Video, Like}
use feed_system_golang.Backend.Sql.{
  Outcome, insert_video, insert_outbox, insert_like, update_videos, delete_videos, delete_likes,
}

abbrev pub is_not_found : Error → Bool
is_not_found record_not_found = true
is_not_found _ = false

-- MySQL's error 1062, a second row under a unique index.
abbrev pub is_duplicate_key : Error → Bool
is_duplicate_key (mysql n) = n == 1062
is_duplicate_key _ = false

-- An order that a query does not ask for.
abbrev pub unordered : {A : Type 0} → A → A → Bool
unordered a b = false

-- `GREATEST(likes_count + ?, 0)`
abbrev pub add_likes : ℤ → Video → Video
add_likes change v = record v { likes_count = max_ℤ (v.likes_count +ℤ change) (pos 0) }

abbrev pub add_popularity : ℤ → Video → Video
add_popularity change v = record v { popularity = max_ℤ (v.popularity +ℤ change) (pos 0) }

abbrev pub is_like_of : ℕ → ℕ → Like → Bool
is_like_of video_id account_id l = l.video_id == video_id && l.account_id == account_id

module _ {W : Type 0} (env : Backend W) where
  unfoldable pub list_by_author : ℕ → Exec W (List Video)
  list_by_author author_id = env.find_videos (record {
    matches = λ v. v.author_id == author_id;
    before = λ v w. ltb_ℤ w.create_time v.create_time;
    offset = 0;
    limit = none;
  })

  unfoldable pub video_detail : ℕ → Exec W Video
  video_detail id = env.first_video (λ v. v.id == id)

  -- The body of the transaction of `PublishVideo`: the video and its outbox message.
  unfoldable pub insert_published : Video → Exec W (Unit {0})
  insert_published v = do
    created ← env.exec (insert_video v)
    env.exec (
        insert_outbox (record {
          id = 0;
          video_id = created.last_insert_id;
          author_id = v.author_id;
          event_type = "video_published";
          create_time = v.create_time;
          status = "pending";
        }))
    pure tt

  unfoldable pub publish_video : Video → Exec W (Unit {0})
  unfolding insert_published
  publish_video v = env.transaction (insert_published v)

  unfoldable pub delete_video : ℕ → Exec W (Unit {0})
  delete_video id = do env.exec (delete_videos (λ v. v.id == id)); pure tt

  unfoldable pub exists_result : Result Video → Exec W Bool
  exists_result (ok v) = pure true
  exists_result (err e) = if is_not_found e then pure false else raise e

  unfoldable pub is_exist : ℕ → Exec W Bool
  unfolding exists_result
  is_exist id = do r ← attempt (env.first_video (λ v. v.id == id)); exists_result r

  unfoldable pub change_likes_count : ℕ → ℤ → Exec W (Unit {0})
  change_likes_count id change = do
    env.exec (update_videos (λ v. v.id == id) (add_likes change))
    pure tt

  unfoldable pub set_likes_count : ℕ → ℤ → Exec W (Unit {0})
  set_likes_count id likes_count = do
    env.exec (update_videos (λ v. v.id == id) (λ v. record v { likes_count = likes_count }))
    pure tt

  unfoldable pub change_popularity : ℕ → ℤ → Exec W (Unit {0})
  change_popularity id change = do
    env.exec (update_videos (λ v. v.id == id) (add_popularity change))
    pure tt

  created_result : Result Outcome → Exec W Bool
  created_result (ok o) = pure true
  created_result (err e) = if is_duplicate_key e then pure false else raise e

  -- `LikeIgnoreDuplicateInTx`
  unfoldable pub like_ignore_duplicate : Like → Exec W Bool
  unfolding created_result
  like_ignore_duplicate like =
      if like.video_id == 0 || like.account_id == 0
      then pure false
      else (do r ← attempt (env.exec (insert_like like)); created_result r)

  like_result : Result Outcome → Exec W (Unit {0})
  like_result (ok o) = pure tt
  like_result (err e) =
      if is_duplicate_key e then raise (message "user has liked this video") else raise e

  unfoldable pub like_in_tx : Like → Exec W (Unit {0})
  unfolding like_result
  like_in_tx like = do r ← attempt (env.exec (insert_like like)); like_result r

  -- `DeleteByVideoAndAccount` and `DeleteByVideoAndAccountTx`
  unfoldable pub delete_like : ℕ → ℕ → Exec W Bool
  delete_like video_id account_id = if video_id == 0 || account_id == 0 then pure false else (do
    o ← env.exec (delete_likes (is_like_of video_id account_id))
    pure (ltb 0 o.rows_affected))

  -- `DeleteByVideoAndAccountInTx`
  unfoldable pub delete_like_in_tx : ℕ → ℕ → Exec W (Unit {0})
  delete_like_in_tx video_id account_id = do
    o ← env.exec (delete_likes (is_like_of video_id account_id))
    if o.rows_affected == 0 then raise (message "user has not liked this video") else pure tt

  unfoldable pub is_liked : ℕ → ℕ → Exec W Bool
  is_liked video_id account_id = do
    n ← env.count_likes (is_like_of video_id account_id)
    pure (ltb 0 n)
