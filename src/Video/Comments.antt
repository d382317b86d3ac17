-- ===== src/Video/Comments.antt =====
-- comment_repo.go and comment_service.go. `trim` is strings.TrimSpace. gorm fills `CreatedAt` of a
-- new row with the time when it is empty, as it is in every comment that the program creates.
pub mod Publish
pub mod Delete
mod Tests
use feed_system_golang.Base.{
  ℕ, zero, suc, ◌*◌, ltb, ltb_ℤ, String, Bool, true, false, Option, none, some, List, message,
  Result, ok, err, Exec, pure, raise, gets, attempt, ignore, ◌>>=◌, ◌>>◌, ◌==◌, ◌||◌, str_eq,
  is_some, if◌then◌else◌, pos,
}
use feed_system_golang.Backend.{Backend}
use feed_system_golang.Backend.Entity.{Video, Comment}
use feed_system_golang.Backend.Sql.{Query, insert_comment, delete_comments}
use feed_system_golang.Backend.Redis.{Value, comments_json, as_comments, comment_list}
use feed_system_golang.Cache.{Client}
use feed_system_golang.Cache.Commands.{get_bytes, set_bytes, del_key}
use feed_system_golang.Mq.{try_send, send_comment, send_comment_delete, send_popularity}
use feed_system_golang.Video.Repo.{is_not_found, is_exist, change_popularity}
use feed_system_golang.Video.Popularity.{update_popularity_cache}

pub record CommentService : Type 0 where
  pub cache : Option Client
  pub has_comment_mq : Bool
  pub has_popularity_mq : Bool

abbrev pub half_minute : ℕ
half_minute = 30000

abbrev pub trimmed : (String → String) → Comment → Comment
trimmed trim c = record c { username = trim c.username; content = trim c.content }

-- The comments that the cache holds, if it was read and holds some.
abbrev pub cached_comments : Result (Option Value) → Option (List Comment)
cached_comments (ok (some v)) = as_comments v
cached_comments _ = none

-- `page - 1`, for a page that is positive.
abbrev pub before : ℕ → ℕ
before zero = 0
before (suc n) = n

module _ {W : Type 0} (env : Backend W) where
  -- `CreateComment` and `CreateCommentInTx`
  unfoldable pub create_comment : Comment → Exec W (Unit {0})
  create_comment c = do
    now ← gets env.clock
    env.exec (insert_comment (record c { created_at = now }))
    pure tt

  unfoldable pub delete_comment : Comment → Exec W (Unit {0})
  delete_comment c = do env.exec (delete_comments (λ d. d.id == c.id)); pure tt

  unfoldable pub comments_by_page : ℕ → ℕ → ℕ → Exec W (List Comment)
  comments_by_page video_id offset limit = env.find_comments (record {
    matches = λ c. c.video_id == video_id;
    before = λ c d. ltb_ℤ d.created_at c.created_at;
    offset = offset;
    limit = some limit;
  })

  unfoldable pub found_comment : Result Comment → Exec W (Option Comment)
  found_comment (ok c) = pure (some c)
  found_comment (err e) = if is_not_found e then pure none else raise e

  unfoldable pub get_by_id : ℕ → Exec W (Option Comment)
  unfolding found_comment
  get_by_id id = do r ← attempt (env.first_comment (λ c. c.id == id)); found_comment r

  module _ (s : CommentService) where
    unfoldable pub invalidate_comment_cache : ℕ → Exec W (Unit {0})
    invalidate_comment_cache video_id =
        if is_some s.cache
        then ignore (del_key env s.cache (comment_list video_id 1 20))
        else pure tt

    unfoldable pub require_video : Result Video → Exec W (Unit {0})
    require_video (ok v) = pure tt
    require_video (err e) = if is_not_found e then raise (message "video not found") else raise e

    unfoldable pub publish_body : Comment → Exec W (Unit {0})
    publish_body c = do
      r ← attempt (env.first_video (λ v. v.id == c.video_id))
      require_video r
      create_comment c
      change_popularity env c.video_id (pos 1)

    -- What was not sent is done at once.
    unfoldable pub write_unless : Comment → Bool → Exec W (Unit {0})
    write_unless c true = pure tt
    write_unless c false = env.transaction (publish_body c)

    unfoldable pub bump_unless : Comment → Bool → Exec W (Unit {0})
    bump_unless c true = pure tt
    bump_unless c false = update_popularity_cache env s.cache c.video_id (pos 1)

    unfoldable pub publish_found : Comment → Bool → Exec W (Unit {0})
    publish_found c false = raise (message "video not found")
    publish_found c true = do
      comment_mq_sent ←
          try_send s.has_comment_mq (send_comment env c.username c.video_id c.author_id c.content)
      popularity_mq_sent ← try_send s.has_popularity_mq (send_popularity env c.video_id (pos 1))
      write_unless c comment_mq_sent
      bump_unless c popularity_mq_sent
      invalidate_comment_cache c.video_id

    unfoldable pub publish_checked : Comment → Exec W (Unit {0})
    publish_checked c =
        if c.video_id == 0 || c.author_id == 0
        then raise (message "video_id and author_id are required")
        else if str_eq c.content ""
        then raise (message "content is required")
        else (do found ← is_exist env c.video_id; publish_found c found)

    unfoldable pub publish : (String → String) → Comment → Exec W (Unit {0})
    unfolding require_video publish_body write_unless bump_unless publish_found publish_checked
    publish trim c = publish_checked (trimmed trim c)

    unfoldable pub delete_unsent : Comment → Bool → Exec W (Unit {0})
    delete_unsent c true = invalidate_comment_cache c.video_id
    delete_unsent c false = do delete_comment c; invalidate_comment_cache c.video_id

    unfoldable pub delete_found : ℕ → Option Comment → Exec W (Unit {0})
    delete_found account_id none = raise (message "comment not found")
    delete_found account_id (some c) =
        if c.author_id == account_id
        then (do
          sent ← try_send s.has_comment_mq (send_comment_delete env c.id)
          delete_unsent c sent)
        else raise (message "permission denied")

    unfoldable pub delete : ℕ → ℕ → Exec W (Unit {0})
    unfolding delete_unsent delete_found
    delete comment_id account_id = do c ← get_by_id comment_id; delete_found account_id c

    unfoldable pub read_page : ℕ → ℕ → ℕ → Option (List Comment) → Exec W (List Comment)
    read_page video_id page page_size (some comments) = pure comments
    read_page video_id page page_size none = do
      comments ← comments_by_page video_id (before page * page_size) page_size
      if is_some s.cache
          then (do
            ignore (
                set_bytes env s.cache (comment_list video_id page page_size)
                  (comments_json comments) half_minute)
            pure comments)
          else pure comments

    unfoldable pub get_page : ℕ → ℕ → ℕ → Exec W (List Comment)
    unfolding read_page
    get_page video_id page page_size =
        if is_some s.cache
        then (do
          r ← attempt (get_bytes env s.cache (comment_list video_id page page_size))
          read_page video_id page page_size (cached_comments r))
        else read_page video_id page page_size none

    -- `GetAll`; a page number or size that is not positive is 0 here.
    unfoldable pub get_all : ℕ → ℕ → ℕ → Exec W (List Comment)
    unfolding get_page
    get_all video_id page page_size =
        get_page video_id (if page == 0 then 1 else page)
          (if page_size == 0 || ltb 100 page_size then 20 else page_size)
