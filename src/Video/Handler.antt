-- ===== src/Video/Handler.antt =====
-- video/video_handler.go, but for the uploads.
use feed_system_golang.Base.{
  ℕ, ℤ, pos, String, str_eq, Bool, false, Option, List, Error, message, Result, ok, err, Exec, pure,
  gets, attempt, ◌>>=◌, ◌>>◌, if◌then◌else◌,
}
use feed_system_golang.Backend.{Backend}
use feed_system_golang.Backend.Entity.{Video, Time}
use feed_system_golang.Cache.{Client}
use feed_system_golang.Account.Auth.{get_username}
use feed_system_golang.Video.Service as Service
use feed_system_golang.Video.Service.{
  DetailCache, list_by_author_id, get_detail, trimmed_video, update_likes_count,
}
use feed_system_golang.Http.Context.{
  GinContext, Answer, ok_json, refuse, Message, said, respond, given, with_body, with_account,
}

pub record ListByAuthorIdRequest : Type 0 where
  pub author_id : ℕ

pub record GetDetailRequest : Type 0 where
  pub id : ℕ

pub record PublishVideoRequest : Type 0 where
  pub title : String
  pub description : String
  pub play_url : String
  pub cover_url : String

pub record DeleteVideoRequest : Type 0 where
  pub id : ℕ

pub record UpdateLikesCountRequest : Type 0 where
  pub id : ℕ
  pub likes_count : ℤ

-- `errors.Is(err, ErrInvalidAuthorID)`
abbrev pub is_invalid_author_id : Error → Bool
is_invalid_author_id (message text) = str_eq text "invalid author_id"
is_invalid_author_id _ = false

unfoldable pub author_answer : Result (List Video) → Answer (List Video)
author_answer (ok videos) = ok_json videos
author_answer (err e) = if is_invalid_author_id e then refuse 400 e else refuse 500 e

abbrev pub video_of : ℕ → String → PublishVideoRequest → Time → Video
video_of author_id username req now = record {
  id = 0;
  author_id = author_id;
  username = username;
  title = req.title;
  description = req.description;
  play_url = req.play_url;
  cover_url = req.cover_url;
  create_time = now;
  likes_count = pos 0;
  popularity = pos 0;
}

module _ {W : Type 0} (env : Backend W) (local : DetailCache W) (cache : Option Client) where
  unfoldable pub handle_list_by_author_id :
      Result ListByAuthorIdRequest → Exec W (Answer (List Video))
  handle_list_by_author_id body = with_body body (λ req. do
    r ← attempt (list_by_author_id env local cache req.author_id)
    pure (author_answer r))

  -- With the pause and the lock's token of the service.
  unfoldable pub handle_get_detail :
      Exec W (Unit {0}) → Result String → Result GetDetailRequest → Exec W (Answer Video)
  handle_get_detail wait token body =
      with_body body (λ req. respond 500 (get_detail env local cache wait token req.id))

  -- The answer is the video as it was trimmed; gorm has set its id by then, which is left out here.
  unfoldable pub publish_as :
      (String → String) → PublishVideoRequest → ℕ → String → Exec W (Answer Video)
  publish_as trim req author_id username = do
    now ← gets env.clock
    respond 400 (
        Service.publish env local cache trim (video_of author_id username req now)
        >> pure (trimmed_video trim (video_of author_id username req now)))

  unfoldable pub handle_publish_video :
      (String → String) → Result PublishVideoRequest → GinContext → Exec W (Answer Video)
  unfolding publish_as
  handle_publish_video trim body c = with_body body (λ req. with_account 400 c (λ author_id.
      given 400 (get_username c.username) (λ username. publish_as trim req author_id username)))

  unfoldable pub handle_delete_video :
      Result DeleteVideoRequest → GinContext → Exec W (Answer Message)
  handle_delete_video body c = with_body body (λ req. with_account 400 c (λ author_id.
      respond 400 (Service.delete env local cache req.id author_id >> pure (said "video deleted"))))

  -- Any account may set the count of any video.
  unfoldable pub handle_update_likes_count :
      Result UpdateLikesCountRequest → Exec W (Answer Message)
  handle_update_likes_count body = with_body body (λ req. respond 400 (
      update_likes_count env local cache req.id req.likes_count
      >> pure (said "likes count updated")))
