-- ===== src/Http/Call.antt =====
-- The routes of router.go, each with what gin bound of its body, and the bodies of the answers.
use feed_system_golang.Base.{Bool, Option, List, Result}
use feed_system_golang.Backend.Entity.{Video, Comment}
use feed_system_golang.Account.Service.{LoginRequest, ChangePasswordRequest}
use feed_system_golang.Account.Handler.{
  CreateAccountRequest, FindByIdRequest, FindByUsernameRequest, RenameRequest, AccountJson,
}
use feed_system_golang.Social.Handler.{VloggerRequest, GetAllVloggersRequest}
use feed_system_golang.Video.Handler.{
  ListByAuthorIdRequest, GetDetailRequest, PublishVideoRequest, DeleteVideoRequest,
  UpdateLikesCountRequest,
}
use feed_system_golang.Video.Upload.{FileHeader, Origin, Uploaded}
use feed_system_golang.Video.LikeHandler.{LikeRequest}
use feed_system_golang.Video.CommentHandler.{
  GetAllCommentsRequest, PublishCommentRequest, DeleteCommentRequest,
}
use feed_system_golang.Feed.Listing.{
  TimedResponse, ListLikesCountResponse, ListByPopularityResponse,
}
use feed_system_golang.Feed.Handler.{TimedRequest, ListLikesCountRequest, ListByPopularityRequest}
use feed_system_golang.Http.Context.{Message, TokenBody}

-- One constructor for each `POST`.
pub data Call : Type 0 where
  account_register : Result CreateAccountRequest → Call
  account_login : Result LoginRequest → Call
  account_change_password : Result ChangePasswordRequest → Call
  account_find_by_id : Result FindByIdRequest → Call
  account_find_by_username : Result FindByUsernameRequest → Call
  account_logout : Call
  account_rename : Result RenameRequest → Call
  video_list_by_author_id : Result ListByAuthorIdRequest → Call
  video_get_detail : Result GetDetailRequest → Call
  video_upload_video : Origin → Option FileHeader → Call
  video_upload_cover : Origin → Option FileHeader → Call
  video_publish : Result PublishVideoRequest → Call
  video_delete : Result DeleteVideoRequest → Call
  video_update_likes_count : Result UpdateLikesCountRequest → Call
  like_like : Result LikeRequest → Call
  like_unlike : Result LikeRequest → Call
  like_is_liked : Result LikeRequest → Call
  like_list_my_liked_videos : Call
  comment_list_all : Result GetAllCommentsRequest → Call
  comment_publish : Result PublishCommentRequest → Call
  comment_delete : Result DeleteCommentRequest → Call
  social_follow : Result VloggerRequest → Call
  social_unfollow : Result VloggerRequest → Call
  social_get_all_followers : Result VloggerRequest → Call
  social_get_all_vloggers : Result GetAllVloggersRequest → Call
  feed_list_latest : Result TimedRequest → Call
  feed_list_likes_count : Result ListLikesCountRequest → Call
  feed_list_by_popularity : Result ListByPopularityRequest → Call
  feed_list_by_following : Result TimedRequest → Call

-- The body of an answer.
pub data Body : Type 0 where
  a_message : Message → Body
  a_token : TokenBody → Body
  an_account : AccountJson → Body
  accounts : List AccountJson → Body
  a_video : Video → Body
  videos : List Video → Body
  uploaded : Uploaded → Body
  liked : Bool → Body
  comments : List Comment → Body
  a_timed_page : TimedResponse → Body
  a_likes_page : ListLikesCountResponse → Body
  a_popularity_page : ListByPopularityResponse → Body
