-- ===== src/Http/Router.antt =====
-- internal/http/router.go: which middlewares and which handler each route has. gin runs them in the
-- order of their registration, and an aborted request reaches none of the later ones. Metrics and
-- the static files are left out.
use feed_system_golang.Base.{ℕ, ℤ, pos, String, Bool, true, Option, some, Result, Exec}
use feed_system_golang.Backend.{Backend}
use feed_system_golang.Cache.{Client}
use feed_system_golang.Account.Token.{Jwt}
use feed_system_golang.Account.Auth.{Access, Headers, get_account_id, jwt_auth, soft_jwt_auth}
use feed_system_golang.Account.Service.{Bcrypt}
use feed_system_golang.Account.Handler.{
  handle_create_account, handle_login, handle_change_password, handle_find_by_id,
  handle_find_by_username, handle_logout, handle_rename,
}
use feed_system_golang.RateLimit.Limiter.{
  Verdict, Context, Limiting, limit, key_by_ip, sliding_window_limit_by_account,
}
use feed_system_golang.Social.Handler.{
  handle_follow, handle_unfollow, handle_get_all_followers, handle_get_all_vloggers,
}
use feed_system_golang.Video.Service.{DetailCache}
use feed_system_golang.Video.Handler.{
  handle_list_by_author_id, handle_get_detail, handle_publish_video, handle_delete_video,
  handle_update_likes_count,
}
use feed_system_golang.Video.Upload.{Files, handle_upload_video, handle_upload_cover}
use feed_system_golang.Video.Likes.{LikeService}
use feed_system_golang.Video.LikeHandler.{
  LikedVideos, handle_like, handle_unlike, handle_is_liked, handle_list_my_liked_videos,
}
use feed_system_golang.Video.Comments.{CommentService}
use feed_system_golang.Video.CommentHandler.{
  handle_publish_comment, handle_delete_comment, handle_get_all_comments,
}
use feed_system_golang.Feed.Merge.{MergeItem, Heap}
use feed_system_golang.Feed.Lookup.{Local}
use feed_system_golang.Feed.Listing.{list_likes_count}
use feed_system_golang.Feed.Latest.{Flights, list_latest}
use feed_system_golang.Feed.Following.{Sorts, list_by_following}
use feed_system_golang.Feed.Popularity.{list_by_popularity}
use feed_system_golang.Feed.Handler.{
  handle_list_latest, handle_list_likes_count, handle_list_by_following, handle_list_by_popularity,
}
use feed_system_golang.Http.Context.{GinContext, Answer, with_body}
use feed_system_golang.Http.Middleware.{answer_as, behind, within}
use feed_system_golang.Http.Call.{
  Call, account_register, account_login, account_change_password, account_find_by_id,
  account_find_by_username, account_logout, account_rename, video_list_by_author_id,
  video_get_detail, video_upload_video, video_upload_cover, video_publish, video_delete,
  video_update_likes_count, like_like, like_unlike, like_is_liked, like_list_my_liked_videos,
  comment_list_all, comment_publish, comment_delete, social_follow, social_unfollow,
  social_get_all_followers, social_get_all_vloggers, feed_list_latest, feed_list_likes_count,
  feed_list_by_popularity, feed_list_by_following, Body, a_message, a_token, an_account, accounts,
  a_video, videos, uploaded, liked, comments, a_timed_page, a_likes_page, a_popularity_page,
}

-- What the services are built with: the queues that could be opened, and the libraries.
pub record Parts (W : Type 0) : Type 0 where
  pub env : Backend W
  pub cache : Option Client
  pub jwt : Jwt W
  pub headers : Headers
  pub bcrypt : Bcrypt W
  pub limiting : Limiting W
  pub files : Files W
  pub details : DetailCache W
  pub wait : Exec W (Unit {0})
  pub lock_token : Result String
  pub trim_space : String → String
  pub liked_videos : LikedVideos W
  pub flights : Flights W
  pub local : Local W
  pub heap : Heap MergeItem
  pub sorts : Sorts
  pub waits : ℕ
  pub has_like_mq : Bool
  pub has_comment_mq : Bool
  pub has_popularity_mq : Bool
  pub has_social_mq : Bool

abbrev pub a_minute : ℕ
a_minute = 60000

module _ {W : Type 0} (parts : Parts W) where
  open parts use {
    env, cache, jwt, headers, bcrypt, limiting, files, details, wait, lock_token, trim_space,
    liked_videos, flights, local, heap, sorts, waits, has_like_mq, has_comment_mq,
    has_popularity_mq, has_social_mq,
  }

  abbrev pub like_service : LikeService
  like_service = record {
    has_video_repo = true;
    cache = cache;
    has_like_mq = has_like_mq;
    has_popularity_mq = has_popularity_mq;
  }

  abbrev pub comment_service : CommentService
  comment_service = record {
    cache = cache;
    has_comment_mq = has_comment_mq;
    has_popularity_mq = has_popularity_mq;
  }

  abbrev pub hard : String → Exec W Access
  hard = jwt_auth env cache jwt headers

  abbrev pub soft : String → Exec W Access
  soft = soft_jwt_auth env cache jwt headers

  abbrev pub ip_limiter : String → Context → Exec W Verdict
  ip_limiter key_prefix =
      limit env limiting cache key_prefix (pos 10) a_minute (some (key_by_ip env limiting))

  abbrev pub account_limiter : String → ℤ → Context → Exec W Verdict
  account_limiter key_prefix max =
      sliding_window_limit_by_account env limiting cache key_prefix max a_minute

  -- The middlewares and the handler of each route. The group /feed has the soft middleware, and the
  -- one route of it that needs a token has both.
  unfoldable pub serve : Call → GinContext → Exec W (Answer Body)
  serve (account_register b) c =
      within (ip_limiter "account_register")
        (λ c'. answer_as a_message (handle_create_account env jwt bcrypt cache b)) c
  serve (account_login b) c =
      within (ip_limiter "account_login")
        (λ c'. answer_as a_token (handle_login env jwt bcrypt cache b)) c
  serve (account_change_password b) c =
      answer_as a_message (handle_change_password env jwt bcrypt cache b)
  serve (account_find_by_id b) c = answer_as an_account (handle_find_by_id env jwt bcrypt cache b)
  serve (account_find_by_username b) c =
      answer_as an_account (handle_find_by_username env jwt bcrypt cache b)
  serve account_logout c =
      behind hard (λ c'. answer_as a_message (handle_logout env jwt bcrypt cache c')) c
  serve (account_rename b) c =
      behind hard (λ c'. answer_as a_token (handle_rename env jwt bcrypt cache b c')) c
  serve (video_list_by_author_id b) c =
      answer_as videos (handle_list_by_author_id env details cache b)
  serve (video_get_detail b) c =
      answer_as a_video (handle_get_detail env details cache wait lock_token b)
  serve (video_upload_video o f) c =
      behind hard (λ c'. answer_as uploaded (handle_upload_video env files o f c')) c
  serve (video_upload_cover o f) c =
      behind hard (λ c'. answer_as uploaded (handle_upload_cover env files o f c')) c
  serve (video_publish b) c =
      behind hard (λ c'. answer_as a_video (handle_publish_video env details cache trim_space b c'))
        c
  serve (video_delete b) c =
      behind hard (λ c'. answer_as a_message (handle_delete_video env details cache b c')) c
  serve (video_update_likes_count b) c =
      behind hard (λ c'. answer_as a_message (handle_update_likes_count env details cache b)) c
  serve (like_like b) c =
      behind hard
        (within (account_limiter "like_write" (pos 30))
          (λ c'. answer_as a_message (handle_like env like_service b c')))
        c
  serve (like_unlike b) c =
      behind hard
        (within (account_limiter "like_write" (pos 30))
          (λ c'. answer_as a_message (handle_unlike env like_service b c')))
        c
  serve (like_is_liked b) c =
      behind hard (λ c'. answer_as liked (handle_is_liked env like_service b c')) c
  serve like_list_my_liked_videos c =
      behind hard
        (λ c'. answer_as videos (handle_list_my_liked_videos env like_service liked_videos c')) c
  serve (comment_list_all b) c = answer_as comments (handle_get_all_comments env comment_service b)
  serve (comment_publish b) c =
      behind hard
        (within (account_limiter "comment_write" (pos 10))
          (λ c'. answer_as a_message (handle_publish_comment env comment_service trim_space b c')))
        c
  serve (comment_delete b) c =
      behind hard
        (within (account_limiter "comment_write" (pos 10))
          (λ c'. answer_as a_message (handle_delete_comment env comment_service b c')))
        c
  serve (social_follow b) c =
      behind hard
        (within (account_limiter "social_write" (pos 20))
          (λ c'. answer_as a_message (handle_follow env has_social_mq b c')))
        c
  serve (social_unfollow b) c =
      behind hard
        (within (account_limiter "social_write" (pos 20))
          (λ c'. answer_as a_message (handle_unfollow env has_social_mq b c')))
        c
  serve (social_get_all_followers b) c =
      behind hard (λ c'. answer_as accounts (handle_get_all_followers env has_social_mq b c')) c
  serve (social_get_all_vloggers b) c =
      behind hard (λ c'. answer_as accounts (handle_get_all_vloggers env has_social_mq b c')) c
  serve (feed_list_latest b) c =
      behind soft
        (λ c'. answer_as a_timed_page (
          with_body b (
            handle_list_latest (list_latest env flights local cache waits)
              (get_account_id c'.account_id))))
        c
  serve (feed_list_likes_count b) c =
      behind soft
        (λ c'. answer_as a_likes_page (
          with_body b
            (handle_list_likes_count (list_likes_count env) (get_account_id c'.account_id))))
        c
  serve (feed_list_by_popularity b) c =
      behind soft
        (λ c'. answer_as a_popularity_page (
          with_body b (
            handle_list_by_popularity (list_by_popularity env cache)
              (get_account_id c'.account_id))))
        c
  serve (feed_list_by_following b) c =
      behind soft
        (behind hard (λ c'. answer_as a_timed_page (
          with_body b (
            handle_list_by_following (list_by_following env heap sorts local cache)
              (get_account_id c'.account_id)))))
        c
