-- ===== src/Worker/Comment.antt =====
-- commentworker.go and popularityworker.go. `trim` is strings.TrimSpace.
use feed_system_golang.Base.{
  pos, String, Bool, true, false, Option, none, some, Exec, pure, ◌>>=◌, ◌>>◌, ◌==◌, ◌=ℤ◌, ◌||◌,
  str_eq, if◌then◌else◌,
}
use feed_system_golang.Backend.{Backend}
use feed_system_golang.Backend.Entity.{Comment}
use feed_system_golang.Backend.Events.{CommentEvent, PopularityEvent}
use feed_system_golang.Cache.{Client}
use feed_system_golang.Video.Repo.{is_exist, change_popularity}
use feed_system_golang.Video.Comments.{create_comment, delete_comment, get_by_id}
use feed_system_golang.Video.Popularity.{update_popularity_cache}

-- The row of a publish message.
abbrev pub comment_of : (String → String) → CommentEvent → Comment
comment_of trim evt = record {
  id = 0;
  username = trim evt.username;
  video_id = evt.video_id;
  author_id = evt.author_id;
  content = trim evt.content;
  created_at = pos 0;
}

module _ {W : Type 0} (env : Backend W) (trim : String → String) where
  -- Two statements, and no transaction around them.
  unfoldable pub write_published : CommentEvent → Bool → Exec W (Unit {0})
  write_published evt false = pure tt
  write_published evt true = do
    create_comment env (comment_of trim evt)
    change_popularity env evt.video_id (pos 1)

  unfoldable pub apply_publish : CommentEvent → Exec W (Unit {0})
  unfolding write_published
  apply_publish evt = do found ← is_exist env evt.video_id; write_published evt found

  unfoldable pub delete_found : Option Comment → Exec W (Unit {0})
  delete_found none = pure tt
  delete_found (some c) = delete_comment env c

  unfoldable pub apply_delete : CommentEvent → Exec W (Unit {0})
  unfolding delete_found
  apply_delete evt = do c ← get_by_id env evt.comment_id; delete_found c

  unfoldable pub publish_valid : CommentEvent → Exec W (Unit {0})
  publish_valid evt =
      if str_eq evt.username ""
        || evt.video_id == 0
        || evt.author_id == 0
        || str_eq (trim evt.content) ""
      then pure tt
      else apply_publish evt

  unfoldable pub dispatch : CommentEvent → Exec W (Unit {0})
  dispatch evt =
      if str_eq evt.action "publish"
      then publish_valid evt
      else if str_eq evt.action "delete"
      then (if evt.comment_id == 0 then pure tt else apply_delete evt)
      else pure tt

  unfoldable pub process : Option CommentEvent → Exec W (Unit {0})
  unfolding publish_valid dispatch
  process none = pure tt
  process (some evt) = dispatch evt

module _ {W : Type 0} (env : Backend W) (cache : Option Client) where
  -- `PopularityWorker.process`
  unfoldable pub process_popularity : Option PopularityEvent → Exec W (Unit {0})
  process_popularity none = pure tt
  process_popularity (some evt) =
      if evt.video_id == 0 || evt.change =ℤ pos 0
      then pure tt
      else update_popularity_cache env cache evt.video_id evt.change
