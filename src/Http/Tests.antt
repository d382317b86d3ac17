-- ===== src/Http/Tests.antt =====
-- A video and a comment are deleted through the router, and a cover is uploaded.
use feed_system_golang.Base.{◌≡◌, refl, ◌⊎◌, pos, some, [], ok, false, ◌>>=◌}
use feed_system_golang.Backend.Memory.{memory}
use feed_system_golang.Backend.Memory.Laws.{memory-MysqlLaws, memory-QuietLaws}
use feed_system_golang.Account.Token.{parse_token}
use feed_system_golang.Account.Auth.{
  Identity, uint, string, jwt_auth, jwt_auth_bearer, bearer_of, check, get_account_id,
}
use feed_system_golang.Account.Repo.{find_by_id}
use feed_system_golang.Cache.Commands.{when_cached}
use feed_system_golang.Video.Service.{delete}
use feed_system_golang.Video.Repo.{video_detail, delete_video}
use feed_system_golang.Video.Handler.{handle_delete_video}
use feed_system_golang.Video.Service.Deleting.{DeletedOwn}
use feed_system_golang.Video.Upload.{FileHeader, Origin}
use feed_system_golang.Http.Context.{GinContext, respond, given}
use feed_system_golang.Http.Call.{video_delete}
use feed_system_golang.Http.Middleware.{behind, answer_as}
use feed_system_golang.Http.Router.{serve}
use feed_system_golang.Http.Guard.{TokenOf, TurnedAway, serve-Checked}
use feed_system_golang.Http.Acting.{serve-DeletedOwn}
use feed_system_golang.Http.Sample.{parts, start, request, parse-Quiet, unhold-Quiet}
use feed_system_golang.RateLimit.Limiter.{
  is_off, slide_subject, sliding_window_limit, sliding_window_limit_by_account,
}
use feed_system_golang.Video.Comments.Delete.{Deleted}
use feed_system_golang.Http.Commenting.{serve-Deleted}
use feed_system_golang.Http.Call.{comment_delete}
use feed_system_golang.Http.Middleware.{within, admit}
use feed_system_golang.Video.CommentHandler.{handle_delete_comment}
use feed_system_golang.Video.Comments as Comments
use feed_system_golang.Mq.{try_send, send_comment_delete}

deleted :
    (memory.tables (serve parts (video_delete (ok (record { id = 3 }))) request start).1).videos
    ≡ []
unfolding serve behind answer_as respond given handle_delete_video delete video_detail delete_video
    jwt_auth jwt_auth_bearer bearer_of check parse_token find_by_id when_cached get_account_id ◌>>=◌
deleted = refl

serve-Checked_example :
    TurnedAway parts memory-MysqlLaws memory-QuietLaws parse-Quiet
      (memory.tables start)
      (serve parts (video_delete (ok (record { id = 3 }))) request start)
    ⊎ ((who : Identity) × TokenOf parts memory-MysqlLaws memory-QuietLaws parse-Quiet request
          (memory.tables start)
          who)
serve-Checked_example =
    serve-Checked parts memory-MysqlLaws memory-QuietLaws parse-Quiet
      (video_delete (ok (record { id = 3 }))) request start refl

serve-DeletedOwn_example :
    (memory.tables (serve parts (video_delete (ok (record { id = 3 }))) request start).1
      ≡ memory.tables start)
    ⊎ ((who : Identity) × TokenOf parts memory-MysqlLaws memory-QuietLaws parse-Quiet request
          (memory.tables start)
          who
        × DeletedOwn 3 who.account_id
            (memory.tables start)
            (memory.tables (serve parts (video_delete (ok (record { id = 3 }))) request start).1))
serve-DeletedOwn_example =
    serve-DeletedOwn parts memory-MysqlLaws memory-QuietLaws parse-Quiet unhold-Quiet
      (record { id = 3 }) request start

serve-Deleted_example :
    (memory.tables (serve parts (comment_delete (ok (record { comment_id = 5 }))) request start).1
      ≡ memory.tables start)
    ⊎ ((who : Identity) × TokenOf parts memory-MysqlLaws memory-QuietLaws parse-Quiet request
          (memory.tables start)
          who
        × Deleted 5 who.account_id (memory.tables start) (
            memory.tables
              (serve parts (comment_delete (ok (record { comment_id = 5 }))) request start).1))
serve-Deleted_example =
    serve-Deleted parts memory-MysqlLaws memory-QuietLaws parse-Quiet
      (λ key window max now member. record { at = λ m. refl }) (record { at = λ m. refl })
      (record { comment_id = 5 }) request start

-- The comment's message is sent, so its worker is to delete it; without the queue the row is gone.
comment_deleted :
    (memory.tables
      (serve
        (record parts { has_comment_mq = false })
        (comment_delete (ok (record { comment_id = 5 })))
        request
        start).1).comments
    ≡ []
unfolding serve behind answer_as respond given handle_delete_comment within admit is_off
    slide_subject sliding_window_limit sliding_window_limit_by_account Comments.delete
    Comments.delete_unsent Comments.delete_found Comments.delete_comment Comments.get_by_id
    Comments.found_comment Comments.invalidate_comment_cache try_send send_comment_delete jwt_auth
    jwt_auth_bearer bearer_of check parse_token find_by_id when_cached get_account_id ◌>>=◌
comment_deleted = refl

abbrev cover : FileHeader
cover = record { file_name = "c.png"; size = pos 1000 }

abbrev origin : Origin
origin = record { has_tls = false; forwarded_proto = ""; host = "localhost" }

abbrev as_ann : GinContext
as_ann = record request { account_id = some (uint 7); username = some (string "ann") }
