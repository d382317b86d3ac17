-- ===== src/Video/Service.antt =====
-- video_service.go. go-cache is the parameter `DetailCache`; `wait` is the pause before a caller
-- without the lock looks again, and fails when the request is cancelled; `token` is what `Lock` drew.
pub mod Publishing
pub mod Deleting
mod Tests
use feed_system_golang.Base.{
  ℕ, zero, suc, ℤ, String, str_eq, ◌==◌, Bool, true, false, Option, none, some, List, Error,
  message, Result, ok, err, Exec, pure, raise, gets, give, ignore, attempt, ◌>>=◌, ◌>>◌,
  if◌then◌else◌,
}
use feed_system_golang.Backend.{Backend}
use feed_system_golang.Backend.Entity.{Video}
use feed_system_golang.Backend.Redis.{Value, video_json, as_video, video_lock}
use feed_system_golang.Backend.Redis as Redis
use feed_system_golang.Cache.{Client, is_miss}
use feed_system_golang.Cache.Commands.{when_cached, get_bytes, set_bytes, del_key, lock, unlock}
use feed_system_golang.Video.Repo.{
  list_by_author, video_detail, publish_video, delete_video, set_likes_count,
}

-- `Get`, `Set` and `Delete` at the key of a video's id.
pub record DetailCache (W : Type 0) : Type 0 where
  pub held : ℕ → W → Option Video
  pub hold : ℕ → Video → Exec W (Unit {0})
  pub unhold : ℕ → Exec W (Unit {0})

abbrev pub five_minutes : ℕ
five_minutes = 300000

abbrev pub two_seconds : ℕ
two_seconds = 2000

abbrev pub trimmed_video : (String → String) → Video → Video
trimmed_video trim v = record v {
  title = trim v.title;
  play_url = trim v.play_url;
  cover_url = trim v.cover_url;
}

module _ {W : Type 0} (env : Backend W) (local : DetailCache W) (cache : Option Client) where
  unfoldable pub list_by_author_id : ℕ → Exec W (List Video)
  list_by_author_id author_id =
      if author_id == 0 then raise (message "invalid author_id") else list_by_author env author_id

  unfoldable pub decode_detail : Option Value → Exec W Video
  decode_detail none = raise (message "unexpected end of JSON input")
  decode_detail (some v) = elim (as_video v) [
    | none ↦ raise (message "invalid JSON")
    | some video ↦ pure video
  ]

  -- The closures `GetCache` and `SetCached`.
  unfoldable pub get_cache : ℕ → Exec W Video
  unfolding decode_detail
  get_cache id = do b ← get_bytes env cache (Redis.video_detail id); decode_detail b

  unfoldable pub set_cached : ℕ → Video → Exec W (Unit {0})
  set_cached id video = set_bytes env cache (Redis.video_detail id) (video_json video) five_minutes

  unfoldable pub keep_local : ℕ → Video → Exec W Video
  keep_local id video = do local.hold id video; pure video

  unfoldable pub detail_from_rows : ℕ → Exec W Video
  unfolding keep_local
  detail_from_rows id = do
    video ← video_detail env id
    when_cached cache (set_cached id video)
    keep_local id video

  -- With the lock: look at the cache once more, then at the rows.
  unfoldable pub refill : ℕ → Exec W Video
  unfolding keep_local
  refill id = do
    r ← attempt (get_cache id)
    elim r [
      | ok v ↦ keep_local id v
      | err e ↦ (do video ← video_detail env id; ignore (set_cached id video); keep_local id video)
    ]

  -- The lock is given back whatever happens.
  unfoldable pub refill_locked : ℕ → String → Exec W Video
  unfolding refill
  refill_locked id token = do
    r ← attempt (refill id)
    ignore (unlock env cache (video_lock id) token)
    give r

  module _ (wait : Exec W (Unit {0})) (token : Result String) where
    -- Somebody else has the lock: look at the cache now and then, and at last at the rows.
    unfoldable pub wait_for : ℕ → ℕ → Exec W Video
    unfolding detail_from_rows keep_local
    wait_for zero id = detail_from_rows id
    wait_for (suc tries) id = do
      wait
      r ← attempt (get_cache id)
      elim r [ ok v ↦ keep_local id v | err e ↦ wait_for tries id ]

    unfoldable pub by_lock : ℕ → Result (String × Bool) → Exec W Video
    unfolding wait_for refill_locked
    by_lock id (ok (t, true)) = refill_locked id t
    by_lock id (ok (t, false)) = wait_for 5 id
    by_lock id (err e) = wait_for 5 id

    unfoldable pub after_cache : ℕ → Result Video → Exec W Video
    unfolding by_lock
    after_cache id (ok v) = keep_local id v
    after_cache id (err e) =
        if is_miss e
        then (do r ← attempt (lock env cache (video_lock id) token two_seconds); by_lock id r)
        else detail_from_rows id

    unfoldable pub detail_unheld : ℕ → Exec W Video
    unfolding after_cache
    detail_unheld id = elim cache [
      | none ↦ detail_from_rows id
      | some client ↦ (do r ← attempt (get_cache id); after_cache id r)
    ]

    unfoldable pub get_detail : ℕ → Exec W Video
    unfolding detail_unheld
    get_detail id = do
      held ← gets (local.held id)
      elim held [ some v ↦ pure v | none ↦ detail_unheld id ]

  unfoldable pub publish_trimmed : Video → Exec W (Unit {0})
  publish_trimmed v =
      if str_eq v.title ""
      then raise (message "title is required")
      else if str_eq v.play_url ""
      then raise (message "play url is required")
      else if str_eq v.cover_url ""
      then raise (message "cover url is required")
      else publish_video env v

  unfoldable pub publish : (String → String) → Video → Exec W (Unit {0})
  unfolding publish_trimmed
  publish trim v = publish_trimmed (trimmed_video trim v)

  unfoldable pub forget_detail : ℕ → Exec W (Unit {0})
  forget_detail id = do
    when_cached cache (del_key env cache (Redis.video_detail id))
    local.unhold id

  unfoldable pub delete_owned : ℕ → ℕ → Video → Exec W (Unit {0})
  unfolding forget_detail
  delete_owned id author_id v =
      if v.author_id == author_id
      then (do delete_video env id; forget_detail id)
      else raise (message "unauthorized")

  unfoldable pub delete : ℕ → ℕ → Exec W (Unit {0})
  unfolding delete_owned
  delete id author_id = do v ← video_detail env id; delete_owned id author_id v

  unfoldable pub update_likes_count : ℕ → ℤ → Exec W (Unit {0})
  update_likes_count id likes_count = set_likes_count env id likes_count
