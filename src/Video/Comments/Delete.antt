-- ===== src/Video/Comments/Delete.antt =====
-- Who may delete a comment.
use feed_system_golang.Base.{
  ℕ, ◌≡◌, refl, sym, ap, subst, ◌∙◌, ◌⊎◌, inl, inr, Bool, true, false, Option, none, some, Error,
  message, Result, ok, err, Exec, pure, raise, attempt, ◌>>=◌, ◌==◌, if◌then◌else◌, ==_iff, Elem,
  arith,
}
use feed_system_golang.Backend.{Backend}
use feed_system_golang.Backend.Entity.{Comment}
use feed_system_golang.Backend.Sql.{Tables, apply, delete_comments}
use feed_system_golang.Backend.Quiet.{Quiet, quiet_rules}
use feed_system_golang.Backend.Laws.{MysqlLaws, QuietLaws}
use feed_system_golang.Backend.Keeps.{quiet_then, bind_both}
use feed_system_golang.Cache.Quiet.{del_key-Quiet}
use feed_system_golang.Mq.{try_send, send_comment_delete}
use feed_system_golang.Mq.Quiet.{try_send-Quiet, send_comment_delete-Quiet}
use feed_system_golang.Video.Comments.{
  CommentService, delete_comment, found_comment, get_by_id, invalidate_comment_cache, delete_unsent,
  delete_found, delete,
}

-- Nothing, or a comment of that id, of that account, is gone.
abbrev pub Deleted : ℕ → ℕ → Tables → Tables → Type 0
Deleted comment_id account_id t after =
    (after ≡ t)
    ⊎ ((c : Comment) × Elem c t.comments
        × (c.id ≡ comment_id)
        × (c.author_id ≡ account_id)
        × (after ≡ apply (delete_comments (λ d. d.id == c.id)) 0 t))

module _ {W : Type 0} {env : Backend W} (laws : MysqlLaws env) (quiet : QuietLaws env)
    (s : CommentService) where
  open env use {tables}

  -- What `GetByID` finds is a row with the id.
  Found : ℕ → Tables → Option Comment → Type 0
  Found id t none = Unit {0}
  Found id t (some c) = (c.id ≡ id) × Elem c t.comments

  found_or : Comment → Result (Option Comment) → Comment
  found_or c (ok (some d)) = d
  found_or c _ = c

  found_comment-Found :
      (id : ℕ) (t : Tables) (r : Result Comment) (w : W) (o : Option Comment)
      → ((c : Comment) → r ≡ ok c → (c.id ≡ id) × Elem c t.comments)
      → (found_comment env r w).0 ≡ ok o
      → Found id t o
  unfolding found_comment pure raise Found found_or
  found_comment-Found id t (ok c) w none f h = tt
  found_comment-Found id t (ok c) w (some d) f h =
      subst (λ x. (x.id ≡ id) × Elem x t.comments) (ap (found_or c) h) (f c refl)
  found_comment-Found id t (err e) w none f h = tt
  found_comment-Found id t (err e) w (some d) f h = ground arith

  delete_comment-cases :
      (c : Comment) (w : W)
      → (tables (delete_comment env c w).1 ≡ tables w)
        ⊎ (tables (delete_comment env c w).1
            ≡ apply (delete_comments (λ d. d.id == c.id)) 0 (tables w))
  unfolding delete_comment ◌>>=◌
  delete_comment-cases c w = ground (arith, laws.exec_cases (delete_comments (λ d. d.id == c.id)) w)

  is_found :
      (id : ℕ) (t : Tables) (w : W) (c : Comment)
      → tables w ≡ t
      → (env.first_comment (λ d. d.id == id) w).0 ≡ ok c
      → (c.id ≡ id) × Elem c t.comments
  is_found id t w c h q = elim (laws.first_comment-Finds (λ d. d.id == id) w) [
    | inl (e, failed) ↦ cc
    | inr (d, q', same, i) ↦
        let e : d ≡ c = ap (result_or c) (sym q' ∙ q) in
        (
          ap (λ k. k.id) (sym e) ∙ (==_iff d.id id).0 same,
          subst (λ u. Elem c u.comments) h (subst (λ k. Elem k (tables w).comments) e i),
        )
  ]
    where
      result_or : Comment → Result Comment → Comment
      result_or k (ok d) = d
      result_or k (err e) = k

  get_by_id-Found :
      (id : ℕ) (t : Tables) (w : W) (o : Option Comment)
      → tables w ≡ t
      → (get_by_id env id w).0 ≡ ok o
      → Found id t o
  unfolding get_by_id attempt ◌>>=◌
  get_by_id-Found id t w o h q =
      found_comment-Found id t (env.first_comment (λ d. d.id == id) w).0 _ o
        (λ c. is_found id t w c h) q

  found_comment-Quiet : (r : Result Comment) → Quiet env (found_comment env r)
  unfolding found_comment
  found_comment-Quiet (ok c) = search quiet_rules
  found_comment-Quiet (err e) = search quiet_rules

  get_by_id-Quiet : (id : ℕ) → Quiet env (get_by_id env id)
  unfolding get_by_id
  get_by_id-Quiet id = search (quiet_rules, laws.first_comment-Quiet, found_comment-Quiet)

  invalidate-Quiet : (id : ℕ) → Quiet env (invalidate_comment_cache env s id)
  unfolding invalidate_comment_cache
  invalidate-Quiet id = search (quiet_rules, del_key-Quiet quiet s.cache)

  module _ (comment_id account_id : ℕ) (t : Tables) where
    Done : Result (Unit {0}) × W → Type 0
    Done r = Deleted comment_id account_id t (tables r.1)

    refused : (e : Error) (w : W) → tables w ≡ t → Done (err e, w)
    unfolding Done
    refused e w h = inl h

    module _ (c : Comment) (right : (c.id ≡ comment_id) × Elem c t.comments)
        (own : c.author_id ≡ account_id) where
      delete_comment-Deleted :
          (w : W)
          → tables w ≡ t
          → Deleted comment_id account_id t (tables (delete_comment env c w).1)
      delete_comment-Deleted w h = elim (delete_comment-cases c w) [
        | inl same ↦ inl (same ∙ h)
        | inr gone ↦
            inr (
              c,
              right.1,
              right.0,
              own,
              gone ∙ ap (apply (delete_comments (λ d. d.id == c.id)) 0) h,
            )
      ]

      unsent-Deleted : (sent : Bool) (w : W) → tables w ≡ t → Done (delete_unsent env s c sent w)
      unfolding Done delete_unsent
      unsent-Deleted true w h = inl ((invalidate-Quiet c.video_id).at w ∙ h)
      unsent-Deleted false w h =
          bind_both Done (delete_comment env c) _ w (λ e _. delete_comment-Deleted w h)
            (λ _ _.
              subst (Deleted comment_id account_id t) (sym ((invalidate-Quiet c.video_id).at _))
                (delete_comment-Deleted w h))

    found-Deleted :
        (o : Option Comment) (w : W)
        → Found comment_id t o
        → tables w ≡ t
        → Done (delete_found env s account_id o w)
    unfolding Done delete_found raise Found
    found-Deleted none w f h = inl h
    found-Deleted (some c) w f h = owned (c.author_id == account_id) refl
      where
        attempted : Exec W (Unit {0})
        attempted =
            try_send s.has_comment_mq (send_comment_delete env c.id) >>= delete_unsent env s c

        owned :
            (own : Bool)
            → (c.author_id == account_id) ≡ own
            → Done ((if own then attempted else raise (message "permission denied")) w)
        owned false e = inl h
        owned true e =
            quiet_then t Done refused _ _ w
              (try_send-Quiet quiet s.has_comment_mq _ (send_comment_delete-Quiet quiet c.id)) h
              (λ sent _ i. unsent-Deleted c f ((==_iff c.author_id account_id).0 e) sent _ i)

    delete-outcome : (w : W) → tables w ≡ t → Done (delete env s comment_id account_id w)
    unfolding delete
    delete-outcome w h =
        quiet_then t Done refused _ _ w (get_by_id-Quiet comment_id) h
          (λ o q i. found-Deleted o _ (get_by_id-Found comment_id t w o h q) i)

  -- Whatever calls fail: deleting a comment leaves every table as it was, or takes away the comment
  -- with that id, which then is one that the calling account has written.
  pub delete-Deleted :
      (comment_id account_id : ℕ) (w : W)
      → Deleted comment_id account_id (tables w) (tables (delete env s comment_id account_id w).1)
  unfolding Done
  delete-Deleted comment_id account_id w = delete-outcome comment_id account_id (tables w) w refl
