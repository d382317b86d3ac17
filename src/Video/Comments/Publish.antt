-- ===== src/Video/Comments/Publish.antt =====
-- What publishing and deleting a comment do to the tables.
use feed_system_golang.Base.{
  ℕ, String, ℤ, pos, ◌≡◌, refl, sym, ap, subst, ◌∙◌, ◌⊎◌, inl, inr, Bool, true, false, Error,
  Result, ok, err, Exec, pure, raise, gets, attempt, ◌>>=◌, ◌==◌, ◌||◌, str_eq, if◌then◌else◌,
  arith,
}
use feed_system_golang.Backend.{Backend}
use feed_system_golang.Backend.Entity.{Video, Comment}
use feed_system_golang.Backend.Sql.{Tables, apply, insert_comment, update_videos}
use feed_system_golang.Backend.Quiet.{Quiet, quiet_rules}
use feed_system_golang.Backend.Laws.{MysqlLaws, QuietLaws}
use feed_system_golang.Backend.Keeps.{bind_both, quiet_then, bind_then}
use feed_system_golang.Cache.Quiet.{del_key-Quiet}
use feed_system_golang.Mq.Quiet.{try_send-Quiet, send_comment-Quiet, send_popularity-Quiet}
use feed_system_golang.Video.Repo.{is_exist, add_popularity}
use feed_system_golang.Video.Effects.{change_popularity_ok, inserted_id, is_exist-Quiet}
use feed_system_golang.Video.Popularity.Quiet.{update_popularity_cache-Quiet}
use feed_system_golang.Video.Comments.{
  CommentService, create_comment, invalidate_comment_cache, require_video, publish_body,
  write_unless, bump_unless, publish_found, publish_checked, publish, trimmed,
}

-- The tables with one more comment and one more point for its video.
abbrev pub commented : Comment → ℕ → ℤ → Tables → Tables
commented c id now t =
    apply (update_videos (λ v. v.id == c.video_id) (add_popularity (pos 1))) 0
      (apply (insert_comment (record c { created_at = now })) id t)

-- Nothing, or both changes.
abbrev pub Published : Comment → Tables → Tables → Type 0
Published c t after = (after ≡ t) ⊎ ((id : ℕ) × (now : ℤ) × (after ≡ commented c id now t))

module _ {W : Type 0} {env : Backend W} (laws : MysqlLaws env) (quiet : QuietLaws env)
    (s : CommentService) where
  open env use {tables}

  created_row :
      (c : Comment) (w : W)
      → (create_comment env c w).0 ≡ ok tt
      → tables (create_comment env c w).1
        ≡ apply
            (insert_comment (record c { created_at = env.clock w }))
            (inserted_id (env.exec (insert_comment (record c { created_at = env.clock w })) w).0)
            (tables w)
  unfolding create_comment gets ◌>>=◌
  created_row c w h =
      ground (arith, laws.exec_cases (insert_comment (record c { created_at = env.clock w })) w)

  create_comment_ok :
      (c : Comment) (w : W)
      → (create_comment env c w).0 ≡ ok tt
      → (id : ℕ) × (now : ℤ) × (tables (create_comment env c w).1
          ≡ apply (insert_comment (record c { created_at = now })) id (tables w))
  create_comment_ok c w h = (
    inserted_id (env.exec (insert_comment (record c { created_at = env.clock w })) w).0,
    env.clock w,
    created_row c w h,
  )

  require_video-Quiet : (r : Result Video) → Quiet env (require_video env s r)
  unfolding require_video
  require_video-Quiet (ok v) = search quiet_rules
  require_video-Quiet (err e) = search quiet_rules

  first : (c : Comment) → Quiet env (attempt (env.first_video (λ v. v.id == c.video_id)))
  first c = search (quiet_rules, laws.first_video-Quiet)

  publish_body-Published :
      (c : Comment) (t : Tables) (w : W)
      → tables w ≡ t
      → (publish_body env s c w).0 ≡ ok tt
      → Published c t (tables (publish_body env s c w).1)
  unfolding publish_body
  publish_body-Published c t w h r =
      bind_then (λ v. Published c t (tables v))
        (attempt (env.first_video (λ v. v.id == c.video_id))) _ w tt r
        (λ found _ r1.
          let w1 = (attempt (env.first_video (λ v. v.id == c.video_id)) w).1 in
          let h1 = (first c).at w ∙ h in
          bind_then (λ v. Published c t (tables v)) (require_video env s found) _ w1 tt r1
            (λ _ _ r2.
              let w2 = (require_video env s found w1).1 in
              let h2 = (require_video-Quiet found).at w1 ∙ h1 in
              bind_then (λ v. Published c t (tables v)) (create_comment env c) _ w2 tt r2
                (λ _ q r3.
                  let w3 = (create_comment env c w2).1 in
                  let (id, now, e) = create_comment_ok c w2 q in
                  inr (
                    id,
                    now,
                    (change_popularity_ok laws c.video_id (pos 1) w3 r3).0
                        ∙ ap
                            (apply
                              (update_videos (λ v. v.id == c.video_id) (add_popularity (pos 1))) 0)
                            (e ∙ ap (apply (insert_comment (record c { created_at = now })) id) h2),
                  ))))

  write_unless-Published :
      (c : Comment) (sent : Bool) (t : Tables) (w : W)
      → tables w ≡ t
      → Published c t (tables (write_unless env s c sent w).1)
  unfolding write_unless pure
  write_unless-Published c true t w h = inl h
  write_unless-Published c false t w h = elim (laws.transaction_cases (publish_body env s c) w) [
    | inl (e, r, same) ↦ inl (same ∙ h)
    | inr (begun, b, done, r, same) ↦
        subst (Published c t) (sym same) (publish_body-Published c t begun (b ∙ h) done)
  ]

  bump_unless-Quiet : (c : Comment) (sent : Bool) → Quiet env (bump_unless env s c sent)
  unfolding bump_unless
  bump_unless-Quiet c true = search quiet_rules
  bump_unless-Quiet c false = update_popularity_cache-Quiet quiet s.cache c.video_id (pos 1)

  invalidate-Quiet : (id : ℕ) → Quiet env (invalidate_comment_cache env s id)
  unfolding invalidate_comment_cache
  invalidate-Quiet id = search (quiet_rules, del_key-Quiet quiet s.cache)

  rest-Quiet :
      (c : Comment) (sent : Bool)
      → Quiet env (bump_unless env s c sent >>= λ _. invalidate_comment_cache env s c.video_id)
  rest-Quiet c sent = search (quiet_rules, bump_unless-Quiet, invalidate-Quiet)

  module _ (c : Comment) (t : Tables) where
    Done : Result (Unit {0}) × W → Type 0
    Done r = Published c t (tables r.1)

    refused : (e : Error) (w : W) → tables w ≡ t → Done (err e, w)
    unfolding Done
    refused e w h = inl h

    found-Published : (found : Bool) (w : W) → tables w ≡ t → Done (publish_found env s c found w)
    unfolding Done publish_found raise
    found-Published false w h = inl h
    found-Published true w h =
        quiet_then t Done refused _ _ w
          (try_send-Quiet quiet s.has_comment_mq _
            (send_comment-Quiet quiet c.username c.video_id c.author_id c.content))
          h
          (λ comment_sent _ h1.
            quiet_then t Done refused _ _ _
              (try_send-Quiet quiet s.has_popularity_mq _
                (send_popularity-Quiet quiet c.video_id (pos 1)))
              h1
              (λ popularity_sent _ h2.
                bind_both Done (write_unless env s c comment_sent) _ _
                  (λ e _. write_unless-Published c comment_sent t _ h2)
                  (λ _ _.
                    subst (Published c t) (sym ((rest-Quiet c popularity_sent).at _))
                      (write_unless-Published c comment_sent t _ h2))))

    exists-Published :
        (w : W) → tables w ≡ t → Done ((is_exist env c.video_id >>= publish_found env s c) w)
    exists-Published w h =
        quiet_then t Done refused _ _ w (is_exist-Quiet laws c.video_id) h
          (λ found _ h1. found-Published found _ h1)

    checked-Published : (w : W) → tables w ≡ t → Done (publish_checked env s c w)
    unfolding publish_checked raise
    checked-Published w h =
        either (c.video_id == 0 || c.author_id == 0) _ _ w (refused _ w h)
          (either (str_eq c.content "") _ _ w (refused _ w h) (exists-Published w h))
      where
        either :
            (b : Bool) (m n : Exec W (Unit {0})) (w : W)
            → Done (m w)
            → Done (n w)
            → Done ((if b then m else n) w)
        either true m n w p q = p
        either false m n w p q = q

  -- Whatever calls fail: publishing a comment leaves every table as it was, or it has added the
  -- trimmed comment and one point to its video's popularity, never only one of the two.
  pub publish-Published :
      (trim : String → String) (c : Comment) (w : W)
      → Published (trimmed trim c) (tables w) (tables (publish env s trim c w).1)
  unfolding publish Done
  publish-Published trim c w = checked-Published (trimmed trim c) (tables w) w refl
