-- ===== src/Video/CommentHandler.antt =====
-- video/comment_handler.go. Every error is answered with 400. A page number or size that is not
-- positive is 0 here.
use feed_system_golang.Base.{
  ℕ, ℤ, pos, pos_part, String, str_eq, List, message, Result, Exec, pure, attempt, ◌==◌, ◌||◌,
  ◌>>=◌, ◌>>◌, if◌then◌else◌,
}
use feed_system_golang.Backend.{Backend}
use feed_system_golang.Backend.Entity.{Account, Comment}
use feed_system_golang.Account.Repo.{find_by_id}
use feed_system_golang.Video.Comments as Comments
use feed_system_golang.Video.Comments.{CommentService, get_all}
use feed_system_golang.Http.Context.{
  GinContext, Answer, refuse, Message, said, respond, given, with_body, with_account,
}

pub record GetAllCommentsRequest : Type 0 where
  pub video_id : ℕ
  pub page : ℤ
  pub page_size : ℤ

pub record PublishCommentRequest : Type 0 where
  pub content : String
  pub video_id : ℕ

pub record DeleteCommentRequest : Type 0 where
  pub comment_id : ℕ

-- The name is the one of the account's row, and not the token's.
abbrev pub comment_of : Account → ℕ → PublishCommentRequest → Comment
comment_of user user_id req = record {
  id = 0;
  username = user.username;
  video_id = req.video_id;
  author_id = user_id;
  content = req.content;
  created_at = pos 0;
}

module _ {W : Type 0} (env : Backend W) (s : CommentService) where
  unfoldable pub publish_comment :
      (String → String) → PublishCommentRequest → ℕ → Exec W (Answer Message)
  publish_comment trim req user_id = do
    r ← attempt (find_by_id env user_id)
    given 400 r (λ user. respond 400 (
        Comments.publish env s trim (comment_of user user_id req)
        >> pure (said "comment published successfully")))

  unfoldable pub handle_publish_comment :
      (String → String) → Result PublishCommentRequest → GinContext → Exec W (Answer Message)
  unfolding publish_comment
  handle_publish_comment trim body c = with_body body (λ req.
      if req.video_id == 0 || str_eq req.content ""
      then pure (refuse 400 (message "video_id and content are invalid"))
      else with_account 400 c (publish_comment trim req))

  unfoldable pub handle_delete_comment :
      Result DeleteCommentRequest → GinContext → Exec W (Answer Message)
  handle_delete_comment body c = with_body body (λ req. with_account 400 c (λ account_id.
      respond 400 (
        Comments.delete env s req.comment_id account_id
        >> pure (said "comment deleted successfully"))))

  unfoldable pub handle_get_all_comments :
      Result GetAllCommentsRequest → Exec W (Answer (List Comment))
  handle_get_all_comments body = with_body body (λ req.
      if req.video_id == 0
      then pure (refuse 400 (message "video_id is required"))
      else respond 400 (get_all env s req.video_id (pos_part req.page) (pos_part req.page_size)))
