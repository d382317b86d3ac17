-- ===== src/Video/LikeHandler.antt =====
-- video/like_handler.go, and the two readings of like_service.go. The account is the token's.
use feed_system_golang.Base.{
  ℕ, Bool, List, [], message, Result, Exec, pure, ◌==◌, ◌>>◌, if◌then◌else◌,
}
use feed_system_golang.Backend.{Backend}
use feed_system_golang.Backend.Entity.{Video}
use feed_system_golang.Video.Repo.{is_liked}
use feed_system_golang.Video.Likes.{LikeService, like, unlike}
use feed_system_golang.Http.Context.{
  GinContext, Answer, refuse, Message, said, respond, with_body, with_account,
}

pub record LikeRequest : Type 0 where
  pub video_id : ℕ

-- `JOIN likes ON likes.video_id = videos.id WHERE likes.account_id = ? ORDER BY likes.created_at
-- DESC`, the one statement of the program that joins two tables.
abbrev pub LikedVideos : Type 0 → Type 0
LikedVideos W = ℕ → Exec W (List Video)

module _ {W : Type 0} (env : Backend W) (s : LikeService) where
  -- A like request names a video.
  unfoldable pub with_video :
      {A : Type 0}
      → Result LikeRequest
      → GinContext
      → (ℕ → ℕ → Exec W (Answer A))
      → Exec W (Answer A)
  with_video body c next = with_body body (λ req.
      if req.video_id == 0
      then pure (refuse 400 (message "video_id is required"))
      else with_account 400 c (λ account_id. next account_id req.video_id))

  unfoldable pub handle_like : Result LikeRequest → GinContext → Exec W (Answer Message)
  unfolding with_video
  handle_like body c = with_video body c (λ account_id video_id.
      respond 500 (like env s account_id video_id >> pure (said "like success")))

  unfoldable pub handle_unlike : Result LikeRequest → GinContext → Exec W (Answer Message)
  unfolding with_video
  handle_unlike body c = with_video body c (λ account_id video_id.
      respond 500 (unlike env s account_id video_id >> pure (said "unlike success")))

  unfoldable pub handle_is_liked : Result LikeRequest → GinContext → Exec W (Answer Bool)
  unfolding with_video
  handle_is_liked body c =
      with_video body c (λ account_id video_id. respond 500 (is_liked env video_id account_id))

  -- No query for the account 0.
  unfoldable pub list_liked_videos : LikedVideos W → ℕ → Exec W (List Video)
  list_liked_videos liked_videos account_id =
      if account_id == 0 then pure [] else liked_videos account_id

  unfoldable pub handle_list_my_liked_videos :
      LikedVideos W → GinContext → Exec W (Answer (List Video))
  unfolding list_liked_videos
  handle_list_my_liked_videos liked_videos c =
      with_account 400 c (λ account_id. respond 500 (list_liked_videos liked_videos account_id))
