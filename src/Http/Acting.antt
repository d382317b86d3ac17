-- ===== src/Http/Acting.antt =====
-- On whose behalf the routes that delete and follow act.
use feed_system_golang.Base.{
  ℕ, String, ◌≡◌, refl, sym, subst, ◌⊎◌, inl, inr, some, Result, ok, err, Exec, pure, attempt,
  continue, ◌>>=◌, ◌>>◌,
}
use feed_system_golang.Backend.Quiet.{Quiet}
use feed_system_golang.Backend.Laws.{MysqlLaws, QuietLaws}
use feed_system_golang.Account.Token.{Method}
use feed_system_golang.Account.Auth.{Identity, get_account_id}
use feed_system_golang.Video.Service as Service
use feed_system_golang.Video.Service.Deleting.{DeletedOwn, delete-DeletedOwn}
use feed_system_golang.Video.Handler.{DeleteVideoRequest, handle_delete_video}
use feed_system_golang.Http.Context.{GinContext, respond, given, said}
use feed_system_golang.Http.Call.{video_delete, Body, a_message}
use feed_system_golang.Http.Middleware.{stored, answer_as}
use feed_system_golang.Http.Router.{Parts, serve}
use feed_system_golang.Http.Guard.{TokenOf, behind-Entered}

module _ {W : Type 0} where
  continue_world :
      {A B : Type 0} (r : Result A) (b : B) (w : W) → (continue r (λ _. pure b) w).1 ≡ w
  unfolding pure
  continue_world (ok a) b w = refl
  continue_world (err e) b w = refl

  -- What an answer is made of changes nothing more.
  pub answer_world :
      {A B : Type 0} (f : B → Body) (status : ℕ) (m : Exec W A) (b : B) (w : W)
      → (answer_as f (respond status (m >> pure b)) w).1 ≡ (m w).1
  unfolding answer_as respond attempt pure ◌>>=◌
  answer_world f status m b w = continue_world (m w).0 b (m w).1

module _ {W : Type 0} (parts : Parts W) (laws : MysqlLaws parts.env) (quiet : QuietLaws parts.env)
    (parse-Quiet : (key : Method → Result String) (token : String)
      → Quiet parts.env (parts.jwt.parse key token))
    (unhold-Quiet : (id : ℕ) → Quiet parts.env (parts.details.unhold id)) where
  open parts use {env, cache, details}

  deleted_inside :
      (req : DeleteVideoRequest) (c : GinContext) (who : Identity) (w : W)
      → DeletedOwn req.id who.account_id (env.tables w) (
          env.tables
            (answer_as a_message
              (handle_delete_video env details cache (ok req) (stored (some who) c))
              w).1)
  unfolding handle_delete_video given get_account_id
  deleted_inside req c who w =
      subst (λ v. DeletedOwn req.id who.account_id (env.tables w) (env.tables v))
        (sym (
          answer_world a_message 400 (Service.delete env details cache req.id who.account_id)
            (said "video deleted") w))
        (delete-DeletedOwn laws quiet details cache unhold-Quiet req.id who.account_id w)

  -- Through the router, whatever calls fail: a request to delete a video leaves every table as it
  -- was, or it carries an accepted token, and the rows of that id are taken away, one of which the
  -- token's account has published.
  pub serve-DeletedOwn :
      (req : DeleteVideoRequest) (c : GinContext) (w : W)
      → (env.tables (serve parts (video_delete (ok req)) c w).1 ≡ env.tables w)
        ⊎ ((who : Identity) × TokenOf parts laws quiet parse-Quiet c (env.tables w) who
            × DeletedOwn req.id who.account_id
                (env.tables w)
                (env.tables (serve parts (video_delete (ok req)) c w).1))
  unfolding serve
  serve-DeletedOwn req c w =
      elim (behind-Entered parts laws quiet parse-Quiet
        (λ c'. answer_as a_message (handle_delete_video env details cache (ok req) c')) c w) [
          | inl (_, same) ↦ inl same
          | inr (who, token, (inside, same, ran)) ↦ inr (
            who,
            token,
            subst (λ r. DeletedOwn req.id who.account_id (env.tables w) (env.tables r.1)) (sym ran)
                (subst
                  (λ t. DeletedOwn req.id who.account_id t (
                    env.tables
                      (answer_as a_message
                        (handle_delete_video env details cache (ok req) (stored (some who) c))
                        inside).1))
                  same (deleted_inside req c who inside)),
          )
        ]
