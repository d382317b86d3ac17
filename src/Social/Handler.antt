-- ===== src/Social/Handler.antt =====
-- social/handler.go. An id of 0 in a request for a list is the caller's own.
use feed_system_golang.Base.{
  ℕ, Bool, List, map, Result, ok, Exec, pure, ◌==◌, ◌>>=◌, ◌>>◌, if◌then◌else◌,
}
use feed_system_golang.Backend.{Backend}
use feed_system_golang.Backend.Entity.{Social}
use feed_system_golang.Account.Auth.{get_account_id}
use feed_system_golang.Account.Handler.{AccountJson, account_json}
use feed_system_golang.Social.Service.{follow, unfollow, get_all_followers, get_all_vloggers}
use feed_system_golang.Http.Context.{
  GinContext, Answer, Message, said, respond, given, with_body, with_account,
}

-- `FollowRequest`, `UnfollowRequest` and `GetAllFollowersRequest`, which have the one field.
pub record VloggerRequest : Type 0 where
  pub vlogger_id : ℕ

pub record GetAllVloggersRequest : Type 0 where
  pub follower_id : ℕ

abbrev pub social_of : ℕ → VloggerRequest → Social
social_of follower_id req = record {
  id = 0;
  follower_id = follower_id;
  vlogger_id = req.vlogger_id;
}

abbrev pub or_own : ℕ → GinContext → Result ℕ
or_own id c = if id == 0 then get_account_id c.account_id else ok id

module _ {W : Type 0} (env : Backend W) (has_social_mq : Bool) where
  unfoldable pub handle_follow : Result VloggerRequest → GinContext → Exec W (Answer Message)
  handle_follow body c = with_body body (λ req. with_account 401 c (λ follower_id.
      respond 500 (follow env has_social_mq (social_of follower_id req) >> pure (said "followed"))))

  unfoldable pub handle_unfollow : Result VloggerRequest → GinContext → Exec W (Answer Message)
  handle_unfollow body c = with_body body (λ req. with_account 401 c (λ follower_id.
      respond 500
        (unfollow env has_social_mq (social_of follower_id req) >> pure (said "unfollowed"))))

  unfoldable pub handle_get_all_followers :
      Result VloggerRequest → GinContext → Exec W (Answer (List AccountJson))
  handle_get_all_followers body c = with_body body (λ req.
      given 401 (or_own req.vlogger_id c) (λ vlogger_id. respond 500 (do
        followers ← get_all_followers env has_social_mq vlogger_id
        pure (map account_json followers))))

  unfoldable pub handle_get_all_vloggers :
      Result GetAllVloggersRequest → GinContext → Exec W (Answer (List AccountJson))
  handle_get_all_vloggers body c = with_body body (λ req.
      given 401 (or_own req.follower_id c) (λ follower_id. respond 500 (do
        vloggers ← get_all_vloggers env has_social_mq follower_id
        pure (map account_json vloggers))))
