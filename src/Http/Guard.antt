-- ===== src/Http/Guard.antt =====
-- The routes behind the token middleware.
use feed_system_golang.Base.{
  String, ◌≡◌, refl, sym, subst, ◌⊎◌, inl, inr, Bool, true, false, none, some, message, Result, ok,
  Exec, pure, continue, ◌>>=◌,
}
use feed_system_golang.Backend.Sql.{Tables}
use feed_system_golang.Backend.Quiet.{Quiet}
use feed_system_golang.Backend.Laws.{MysqlLaws, QuietLaws}
use feed_system_golang.Account.Token.{Method}
use feed_system_golang.Account.Auth.{Identity, Access, rejected, let_through}
use feed_system_golang.Account.Guard.{jwt_auth-Quiet, soft_jwt_auth-Quiet}
use feed_system_golang.Account.Accepting.{
  Authenticated, Outcome, jwt_auth_outcome, soft_jwt_auth_answers,
}
use feed_system_golang.Http.Context.{GinContext, Answer, refuse}
use feed_system_golang.Http.Call.{
  Call, account_register, account_login, account_change_password, account_find_by_id,
  account_find_by_username, account_logout, account_rename, video_list_by_author_id,
  video_get_detail, video_upload_video, video_upload_cover, video_publish, video_delete,
  video_update_likes_count, like_like, like_unlike, like_is_liked, like_list_my_liked_videos,
  comment_list_all, comment_publish, comment_delete, social_follow, social_unfollow,
  social_get_all_followers, social_get_all_vloggers, feed_list_latest, feed_list_likes_count,
  feed_list_by_popularity, feed_list_by_following,
}
use feed_system_golang.Http.Middleware.{stored, enter, behind}
use feed_system_golang.Http.Router.{Parts, hard, soft, serve}

-- The routes that only an account may use.
abbrev pub needs_token : Call → Bool
needs_token (account_register b) = false
needs_token (account_login b) = false
needs_token (account_change_password b) = false
needs_token (account_find_by_id b) = false
needs_token (account_find_by_username b) = false
needs_token (video_list_by_author_id b) = false
needs_token (video_get_detail b) = false
needs_token (comment_list_all b) = false
needs_token (feed_list_latest b) = false
needs_token (feed_list_likes_count b) = false
needs_token (feed_list_by_popularity b) = false
needs_token _ = true

module _ {W : Type 0} (parts : Parts W) (laws : MysqlLaws parts.env) (quiet : QuietLaws parts.env)
    (parse-Quiet : (key : Method → Result String) (token : String)
      → Quiet parts.env (parts.jwt.parse key token)) where
  open parts use {env, cache, jwt, headers}

  abbrev pub TokenOf : GinContext → Tables → Identity → Type 0
  TokenOf c t who = Authenticated laws quiet cache jwt parse-Quiet headers c.authorization t who

  -- Status 401, and the tables as they were.
  abbrev pub TurnedAway : {A : Type 0} → Tables → Result (Answer A) × W → Type 0
  TurnedAway t r =
      ((reason : String) × (r.0 ≡ ok (refuse 401 (message reason)))) × (env.tables r.1 ≡ t)

  -- Turned away, or the handler runs for the account of an accepted token.
  abbrev pub Entered :
      {A : Type 0}
      → (GinContext → Exec W (Answer A))
      → GinContext
      → Tables
      → Result (Answer A) × W
      → Type 0
  Entered handler c t r =
      TurnedAway t r
      ⊎ ((who : Identity) × TokenOf c t who
          × ((inside : W) × (env.tables inside ≡ t) × (r ≡ handler (stored (some who) c) inside)))

  entered :
      {A : Type 0} (handler : GinContext → Exec W (Answer A)) (c : GinContext) (w w1 : W)
      (r : Result Access)
      → env.tables w1 ≡ env.tables w
      → Outcome laws quiet cache jwt parse-Quiet headers c.authorization (env.tables w) r
      → Entered handler c (env.tables w) (continue r (enter c handler) w1)
  unfolding enter pure
  entered handler c w w1 r same (inl (reason, q)) =
      subst (λ r. Entered handler c (env.tables w) (continue r (enter c handler) w1)) (sym q)
        (inl ((reason, refl), same))
  entered handler c w w1 r same (inr (who, q, token)) =
      subst (λ r. Entered handler c (env.tables w) (continue r (enter c handler) w1)) (sym q)
        (inr (who, token, (w1, same, refl)))

  pub behind-Entered :
      {A : Type 0} (handler : GinContext → Exec W (Answer A)) (c : GinContext) (w : W)
      → Entered handler c (env.tables w) (behind (hard parts) handler c w)
  unfolding behind ◌>>=◌
  behind-Entered handler c w =
      entered handler c w _ _
        ((jwt_auth-Quiet laws quiet cache jwt parse-Quiet headers c.authorization).at w)
        (jwt_auth_outcome laws quiet cache jwt parse-Quiet headers c.authorization w)

  -- What the caller is told, or the account that the token is for.
  abbrev pub Checked : {A : Type 0} → GinContext → Tables → Result (Answer A) × W → Type 0
  Checked c t r = TurnedAway t r ⊎ ((who : Identity) × TokenOf c t who)

  behind-Checked :
      {A : Type 0} (handler : GinContext → Exec W (Answer A)) (c : GinContext) (w : W)
      → Checked c (env.tables w) (behind (hard parts) handler c w)
  behind-Checked handler c w = elim (behind-Entered handler c w) [
    | inl away ↦ inl away
    | inr (who, token, inside) ↦ inr (who, token)
  ]

  softened :
      {A : Type 0} (handler : GinContext → Exec W (Answer A)) (c : GinContext) (t : Tables) (w : W)
      (access : Access)
      → env.tables w ≡ t
      → Checked c t (enter c (behind (hard parts) handler) access w)
  unfolding enter pure
  softened handler c t w (rejected reason) same = inl ((reason, refl), same)
  softened handler c t w (let_through none) same =
      subst (λ t. Checked c t (behind (hard parts) handler c w)) same (behind-Checked handler c w)
  softened handler c t w (let_through (some who)) same =
      subst (λ t. Checked c t (behind (hard parts) handler (stored (some who) c) w)) same
        (behind-Checked handler (stored (some who) c) w)

  soft-Checked :
      {A : Type 0} (handler : GinContext → Exec W (Answer A)) (c : GinContext) (w : W)
      → Checked c (env.tables w) (behind (soft parts) (behind (hard parts) handler) c w)
  unfolding behind ◌>>=◌
  soft-Checked handler c w =
      let (access, q) =
        soft_jwt_auth_answers laws quiet cache jwt parse-Quiet headers c.authorization w in
      let w1 = (soft parts c.authorization w).1 in
      subst (λ r. Checked c (env.tables w) (continue r (enter c (behind (hard parts) handler)) w1))
        (sym q)
        (softened handler c (env.tables w) w1 access
          ((soft_jwt_auth-Quiet laws quiet cache jwt parse-Quiet headers c.authorization).at w))

  -- A route that needs a token answers status 401 and leaves the tables alone, or the caller sent a
  -- token that parses and that the cache or the account's row vouches for.
  pub serve-Checked :
      (call : Call) (c : GinContext) (w : W)
      → needs_token call ≡ true
      → TurnedAway (env.tables w) (serve parts call c w)
        ⊎ ((who : Identity) × TokenOf c (env.tables w) who)
  unfolding serve
  serve-Checked account_logout c w h = behind-Checked _ c w
  serve-Checked (account_rename b) c w h = behind-Checked _ c w
  serve-Checked (video_upload_video o f) c w h = behind-Checked _ c w
  serve-Checked (video_upload_cover o f) c w h = behind-Checked _ c w
  serve-Checked (video_publish b) c w h = behind-Checked _ c w
  serve-Checked (video_delete b) c w h = behind-Checked _ c w
  serve-Checked (video_update_likes_count b) c w h = behind-Checked _ c w
  serve-Checked (like_like b) c w h = behind-Checked _ c w
  serve-Checked (like_unlike b) c w h = behind-Checked _ c w
  serve-Checked (like_is_liked b) c w h = behind-Checked _ c w
  serve-Checked like_list_my_liked_videos c w h = behind-Checked _ c w
  serve-Checked (comment_publish b) c w h = behind-Checked _ c w
  serve-Checked (comment_delete b) c w h = behind-Checked _ c w
  serve-Checked (social_follow b) c w h = behind-Checked _ c w
  serve-Checked (social_unfollow b) c w h = behind-Checked _ c w
  serve-Checked (social_get_all_followers b) c w h = behind-Checked _ c w
  serve-Checked (social_get_all_vloggers b) c w h = behind-Checked _ c w
  serve-Checked (feed_list_by_following b) c w h = soft-Checked _ c w
  serve-Checked (account_register b) c w h = cc
  serve-Checked (account_login b) c w h = cc
  serve-Checked (account_change_password b) c w h = cc
  serve-Checked (account_find_by_id b) c w h = cc
  serve-Checked (account_find_by_username b) c w h = cc
  serve-Checked (video_list_by_author_id b) c w h = cc
  serve-Checked (video_get_detail b) c w h = cc
  serve-Checked (comment_list_all b) c w h = cc
  serve-Checked (feed_list_latest b) c w h = cc
  serve-Checked (feed_list_likes_count b) c w h = cc
  serve-Checked (feed_list_by_popularity b) c w h = cc
