-- ===== src/Http/Commenting.antt =====
-- On whose behalf the route that deletes comments acts, with its limiter.
use feed_system_golang.Base.{
  ℕ, ℤ, pos, String, ◌≡◌, refl, sym, subst, ◌⊎◌, inl, inr, Option, none, some, Result, ok, Exec,
  pure,
}
use feed_system_golang.Backend.Sql.{Tables}
use feed_system_golang.Backend.Quiet.{
  Quiet, quiet_rules, Quiet-bind, Quiet-gets, Quiet-attempt, Quiet-pure,
}
use feed_system_golang.Backend.Keeps.{bind_both}
use feed_system_golang.Backend.Laws.{MysqlLaws, QuietLaws}
use feed_system_golang.Account.Token.{Method}
use feed_system_golang.Account.Auth.{Identity, get_account_id}
use feed_system_golang.RateLimit.Limiter.{
  Context, KeyFunc, Verdict, next, refused, ask_script, slide_subject, sliding_window_limit,
  sliding_window_limit_by_account,
}
use feed_system_golang.Backend.Redis.{Key}
use feed_system_golang.Video.Comments as Comments
use feed_system_golang.Video.Comments.Delete.{Deleted, delete-Deleted}
use feed_system_golang.Video.CommentHandler.{DeleteCommentRequest, handle_delete_comment}
use feed_system_golang.Http.Context.{GinContext, Answer, given, said}
use feed_system_golang.Http.Call.{comment_delete, a_message}
use feed_system_golang.Http.Middleware.{stored, answer_as, within, admit, limited_context}
use feed_system_golang.Http.Router.{Parts, serve, comment_service, account_limiter}
use feed_system_golang.Http.Guard.{TokenOf, behind-Entered}
use feed_system_golang.Http.Acting.{answer_world}

module _ {W : Type 0} (parts : Parts W) (laws : MysqlLaws parts.env) (quiet : QuietLaws parts.env)
    (parse-Quiet : (key : Method → Result String) (token : String)
      → Quiet parts.env (parts.jwt.parse key token))
    (run_sliding-Quiet : (key : Key) (window : ℕ) (max now : ℤ) (member : String)
      → Quiet parts.env (parts.limiting.run_sliding key window max now member))
    (next_seq-Quiet : Quiet parts.env parts.limiting.next_seq) where
  open parts use {env, cache, limiting}

  ask_script-Quiet :
      (key_prefix : String) (max : ℤ) (window : ℕ) (subject : String)
      → Quiet env (ask_script env limiting key_prefix max window subject)
  unfolding ask_script
  ask_script-Quiet key_prefix max window subject = Quiet-bind (Quiet-gets _) (λ now.
      Quiet-bind (Quiet-gets _) (λ t.
        Quiet-bind next_seq-Quiet
          (λ seq. Quiet-bind (Quiet-attempt (run_sliding-Quiet _ _ _ _ _)) (λ r. Quiet-pure _))))

  slide_subject-Quiet :
      (key_prefix : String) (max : ℤ) (window : ℕ) (subject : Option String)
      → Quiet env (slide_subject env limiting cache key_prefix max window subject)
  unfolding slide_subject
  slide_subject-Quiet key_prefix max window none = search quiet_rules
  slide_subject-Quiet key_prefix max window (some subject) = search (quiet_rules, ask_script-Quiet)

  sliding_window_limit-Quiet :
      (key_prefix : String) (max : ℤ) (window : ℕ) (key_func : Option KeyFunc) (c : Context)
      → Quiet env (sliding_window_limit env limiting cache key_prefix max window key_func c)
  unfolding sliding_window_limit
  sliding_window_limit-Quiet key_prefix max window key_func c =
      search (quiet_rules, slide_subject-Quiet)

  account_limiter-Quiet :
      (key_prefix : String) (max : ℤ) (c : Context)
      → Quiet env (account_limiter parts key_prefix max c)
  unfolding sliding_window_limit_by_account
  account_limiter-Quiet key_prefix max c = sliding_window_limit-Quiet key_prefix max _ _ c

  -- What holds of the tables as they are, and after the handler, holds behind a limiter.
  within_both :
      {A : Type 0} (P : Tables → Type 0) (limiter : Context → Exec W Verdict)
      (handler : GinContext → Exec W (Answer A)) (c : GinContext) (w : W)
      → Quiet env (limiter (limited_context c))
      → P (env.tables w)
      → ((v : W) → env.tables v ≡ env.tables w → P (env.tables (handler c v).1))
      → P (env.tables (within limiter handler c w).1)
  unfolding within pure
  within_both P limiter handler c w q unchanged handled =
      bind_both (λ r. P (env.tables r.1)) (limiter (limited_context c)) _ w (λ _ _. limited)
        (λ v _. admitted v)
    where
      after : W
      after = (limiter (limited_context c) w).1

      limited : P (env.tables after)
      limited = subst P (sym (q.at w)) unchanged

      admitted : (v : Verdict) → P (env.tables (admit (handler c) v after).1)
      admitted refused = limited
      admitted next = handled after (q.at w)

  handle_delete_comment-Deleted :
      (req : DeleteCommentRequest) (c : GinContext) (who : Identity) (w : W)
      → Deleted req.comment_id who.account_id (env.tables w) (
          env.tables
            (answer_as a_message
              (handle_delete_comment env (comment_service parts) (ok req) (stored (some who) c))
              w).1)
  unfolding handle_delete_comment given get_account_id
  handle_delete_comment-Deleted req c who w =
      subst (λ v. Deleted req.comment_id who.account_id (env.tables w) (env.tables v))
        (sym (
          answer_world a_message 400
            (Comments.delete env (comment_service parts) req.comment_id who.account_id)
            (said "comment deleted successfully") w))
        (delete-Deleted laws quiet (comment_service parts) req.comment_id who.account_id w)

  within-Deleted :
      (req : DeleteCommentRequest) (c : GinContext) (who : Identity) (w : W)
      → Deleted req.comment_id who.account_id (env.tables w) (
          env.tables
            (within
              (account_limiter parts "comment_write" (pos 10))
              (λ c'.
                answer_as a_message (handle_delete_comment env (comment_service parts) (ok req) c'))
              (stored (some who) c)
              w).1)
  within-Deleted req c who w =
      within_both (Deleted req.comment_id who.account_id (env.tables w)) _ _ _ w
        (account_limiter-Quiet "comment_write" (pos 10) _) (inl refl)
        (λ v same.
          subst
            (λ t. Deleted req.comment_id who.account_id t (
              env.tables
                (answer_as a_message
                  (handle_delete_comment env (comment_service parts) (ok req) (stored (some who) c))
                  v).1))
            same (handle_delete_comment-Deleted req c who v))

  -- Through the router, the limiter included and whatever calls fail: a request to delete a comment
  -- leaves every table as it was, or it carries an accepted token, and the rows of that id are taken
  -- away, one of which the token's account has written.
  pub serve-Deleted :
      (req : DeleteCommentRequest) (c : GinContext) (w : W)
      → (env.tables (serve parts (comment_delete (ok req)) c w).1 ≡ env.tables w)
        ⊎ ((who : Identity) × TokenOf parts laws quiet parse-Quiet c (env.tables w) who
            × Deleted req.comment_id who.account_id
                (env.tables w)
                (env.tables (serve parts (comment_delete (ok req)) c w).1))
  unfolding serve
  serve-Deleted req c w =
      elim (behind-Entered parts laws quiet parse-Quiet
        (within (account_limiter parts "comment_write" (pos 10)) (λ c'.
          answer_as a_message (handle_delete_comment env (comment_service parts) (ok req) c')))
        c w) [
          | inl (_, same) ↦ inl same
          | inr (who, token, (inside, same, ran)) ↦ inr (
            who,
            token,
            subst (λ r. Deleted req.comment_id who.account_id (env.tables w) (env.tables r.1))
                (sym ran)
                (subst
                  (λ t. Deleted req.comment_id who.account_id t (
                    env.tables
                      (within (account_limiter parts "comment_write" (pos 10))
                        (λ c'.
                          answer_as a_message
                            (handle_delete_comment env (comment_service parts) (ok req) c'))
                        (stored (some who) c) inside).1))
                  same (within-Deleted req c who inside)),
          )
        ]
