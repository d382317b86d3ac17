-- ===== src/Worker/Like/Redelivery.antt =====
-- A like message that comes again, and an unlike without a like, change nothing.
use feed_system_golang.Base.{
  ℕ, ℤ, pos, negsuc, ltb, ◌≡◌, refl, ap, ◌∙◌, inl, inr, Bool, true, false, ok, Exec, pure, gets,
}
use feed_system_golang.Backend.{Backend}
use feed_system_golang.Backend.Entity.{Like}
use feed_system_golang.Backend.Sql.{Tables, any}
use feed_system_golang.Backend.Quiet.{Quiet-pure}
use feed_system_golang.Backend.Laws.{MysqlLaws}
use feed_system_golang.Backend.Keeps.{Keeps, Keeps-Quiet, Keeps-bind, Keeps-transaction, bind_then}
use feed_system_golang.Video.Repo.{like_ignore_duplicate, delete_like, is_like_of}
use feed_system_golang.Video.Effects.{like_ignore_duplicate_ok, delete_like_ok, is_exist-Quiet}
use feed_system_golang.Video.Tally.{likes_by, delete_none}
use feed_system_golang.Worker.Like.{
  count_change, like_transaction, unlike_transaction, if_exists, apply_like, apply_unlike,
}

module _ {W : Type 0} {env : Backend W} (laws : MysqlLaws env) where
  open env use {tables}

  count_change-none :
      (x : ℕ) (n : ℤ) (changed : Bool) (w : W)
      → changed ≡ false
      → tables (count_change env x n changed w).1 ≡ tables w
  unfolding count_change pure
  count_change-none x n false w e = refl
  count_change-none x n true w e = cc

  like_row : ℕ → ℕ → ℤ → Like
  like_row user_id video_id now = record {
    id = 0;
    video_id = video_id;
    account_id = user_id;
    created_at = now;
  }

  module _ (t : Tables) (user_id video_id : ℕ) where
    like_again :
        any (is_like_of video_id user_id) t.likes ≡ true
        → (w : W) → tables w ≡ t
        → (like_transaction env user_id video_id w).0 ≡ ok tt
        → tables (like_transaction env user_id video_id w).1 ≡ t
    unfolding like_transaction gets like_row
    like_again liked w h r =
        bind_then (λ v. tables v ≡ t) (gets env.clock) _ w tt r
          (λ now _ r'.
            bind_then (λ v. tables v ≡ t)
              (like_ignore_duplicate env (like_row user_id video_id now)) _ w tt r'
              (λ created q r''.
                elim (like_ignore_duplicate_ok laws (like_row user_id video_id now) w created q) [
                  | inl (no_row, same) ↦
                      count_change-none video_id (pos 1) created _ no_row ∙ same ∙ h
                  | inr (row, (_, fresh)) ↦ cc (liked, h)
                ]))

    unlike_again :
        ltb 0 (likes_by video_id user_id t.likes) ≡ false
        → (w : W) → tables w ≡ t
        → (unlike_transaction env user_id video_id w).0 ≡ ok tt
        → tables (unlike_transaction env user_id video_id w).1 ≡ t
    unfolding unlike_transaction
    unlike_again gone w h r =
        bind_then (λ v. tables v ≡ t) (delete_like env video_id user_id) _ w tt r
          (λ deleted q r'. elim (delete_like_ok laws video_id user_id w deleted q) [
            | inl (none_deleted, same) ↦
                count_change-none video_id (negsuc 0) deleted _ none_deleted ∙ same ∙ h
            | inr ((same, _), count) ↦
                let empty : ltb 0 (likes_by video_id user_id (tables w).likes) ≡ false =
                  ap (λ (s : Tables). ltb 0 (likes_by video_id user_id s.likes)) h ∙ gone in
                count_change-none video_id (negsuc 0) deleted _ (count ∙ empty)
                ∙ same
                ∙ delete_none video_id user_id (tables w) empty
                ∙ h
          ])

    if_exists-same :
        (m : Exec W (Unit {0})) (found : Bool)
        → Keeps env (λ s. s ≡ t) m
        → Keeps env (λ s. s ≡ t) (if_exists env m found)
    unfolding if_exists
    if_exists-same m false k = Keeps-Quiet (Quiet-pure tt)
    if_exists-same m true k = k

    apply_like-same :
        any (is_like_of video_id user_id) t.likes ≡ true
        → Keeps env (λ s. s ≡ t) (apply_like env user_id video_id)
    unfolding apply_like
    apply_like-same liked = Keeps-bind (Keeps-Quiet (is_exist-Quiet laws video_id)) (λ found.
        if_exists-same _ found (
          Keeps-transaction (λ s. s ≡ t) laws (like_transaction env user_id video_id)
            (like_again liked)))

    apply_unlike-same :
        ltb 0 (likes_by video_id user_id t.likes) ≡ false
        → Keeps env (λ s. s ≡ t) (apply_unlike env user_id video_id)
    unfolding apply_unlike
    apply_unlike-same gone = Keeps-bind (Keeps-Quiet (is_exist-Quiet laws video_id)) (λ found.
        if_exists-same _ found (
          Keeps-transaction (λ s. s ≡ t) laws (unlike_transaction env user_id video_id)
            (unlike_again gone)))

  -- If the account has liked the video, applying its like message again leaves every table as it
  -- was, whatever calls fail.
  pub apply_like_again :
      (user_id video_id : ℕ) (w : W)
      → any (is_like_of video_id user_id) (tables w).likes ≡ true
      → tables (apply_like env user_id video_id w).1 ≡ tables w
  apply_like_again user_id video_id w liked =
      (apply_like-same (tables w) user_id video_id liked).at w refl

  -- If the account has no like of the video, applying an unlike message leaves every table as it
  -- was, whatever calls fail.
  pub apply_unlike_again :
      (user_id video_id : ℕ) (w : W)
      → ltb 0 (likes_by video_id user_id (tables w).likes) ≡ false
      → tables (apply_unlike env user_id video_id w).1 ≡ tables w
  apply_unlike_again user_id video_id w gone =
      (apply_unlike-same (tables w) user_id video_id gone).at w refl
