-- ===== src/Worker/Like/Invariant.antt =====
-- The like worker keeps the counters equal to the rows, whatever fails and whatever it is sent.
use feed_system_golang.Base.{
  ℕ, ℤ, pos, negsuc, ◌==◌, ◌||◌, ◌≡◌, sym, subst, ◌∙◌, inl, inr, Bool, true, false, Option, none,
  some, List, [], ◌∷◌, ok, Exec, pure, gets, str_eq,
}
use feed_system_golang.Backend.{Backend}
use feed_system_golang.Backend.Entity.{Like}
use feed_system_golang.Backend.Events.{LikeEvent}
use feed_system_golang.Backend.Quiet.{Quiet-pure}
use feed_system_golang.Backend.Laws.{MysqlLaws}
use feed_system_golang.Backend.Keeps.{
  Keeps, Keeps-Quiet, Keeps-if, Keeps-bind, Keeps-attempt, Keeps-transaction, bind_then,
}
use feed_system_golang.Video.Repo.{like_ignore_duplicate, delete_like}
use feed_system_golang.Video.Effects.{like_ignore_duplicate_ok, delete_like_ok, is_exist-Quiet}
use feed_system_golang.Video.Tally.{Tallied, delete_none}
use feed_system_golang.Video.Counters.{counters_ok, inserted-Tallied, deleted-Tallied}
use feed_system_golang.Worker.Delivery.{deliver}
use feed_system_golang.Worker.Like.{
  count_change, like_transaction, unlike_transaction, if_exists, apply_like, apply_unlike, dispatch,
  process,
}

module _ {W : Type 0} {env : Backend W} (laws : MysqlLaws env) where
  open env use {tables}

  like_row : ℕ → ℕ → ℤ → Like
  like_row user_id video_id now = record {
    id = 0;
    video_id = video_id;
    account_id = user_id;
    created_at = now;
  }

  counted-like :
      (l : Like) (w : W) (created : Bool)
      → (like_ignore_duplicate env l w).0 ≡ ok created
      → (count_change env l.video_id (pos 1) created (like_ignore_duplicate env l w).1).0 ≡ ok tt
      → Tallied (tables w)
      → Tallied
          (tables (count_change env l.video_id (pos 1) created (like_ignore_duplicate env l w).1).1)
  unfolding count_change pure
  counted-like l w false q r h = elim (like_ignore_duplicate_ok laws l w false q) [
    | inl (_, t) ↦ subst Tallied (sym t) h
    | inr (c, t) ↦ cc
  ]
  counted-like l w true q r h = elim (like_ignore_duplicate_ok laws l w true q) [
    | inl (c, t) ↦ cc
    | inr (_, t) ↦
        inserted-Tallied laws l w (like_ignore_duplicate env l w).1 _ t
          (counters_ok laws l.video_id (pos 1) (like_ignore_duplicate env l w).1 r) h
  ]

  like_transaction-Tallied :
      (user_id video_id : ℕ) (w : W)
      → Tallied (tables w)
      → (like_transaction env user_id video_id w).0 ≡ ok tt
      → Tallied (tables (like_transaction env user_id video_id w).1)
  unfolding like_transaction gets like_row
  like_transaction-Tallied user_id video_id w h r =
      bind_then (λ v. Tallied (tables v)) (gets env.clock) _ w tt r
        (λ now _ r'.
          bind_then (λ v. Tallied (tables v))
            (like_ignore_duplicate env (like_row user_id video_id now)) _ w tt r'
            (λ created q r''. counted-like (like_row user_id video_id now) w created q r'' h))

  counted-unlike :
      (x a : ℕ) (w : W) (gone : Bool)
      → (delete_like env x a w).0 ≡ ok gone
      → (count_change env x (negsuc 0) gone (delete_like env x a w).1).0 ≡ ok tt
      → Tallied (tables w)
      → Tallied (tables (count_change env x (negsuc 0) gone (delete_like env x a w).1).1)
  unfolding count_change pure
  counted-unlike x a w false q r h = elim (delete_like_ok laws x a w false q) [
    | inl (_, t) ↦ subst Tallied (sym t) h
    | inr (t, c) ↦ subst Tallied (sym (t.0 ∙ delete_none x a (tables w) (sym c))) h
  ]
  counted-unlike x a w true q r h = elim (delete_like_ok laws x a w true q) [
    | inl (c, t) ↦ cc
    | inr (t, c) ↦
        deleted-Tallied laws x a w (delete_like env x a w).1 _ t (sym c)
          (counters_ok laws x (negsuc 0) (delete_like env x a w).1 r) h
  ]

  unlike_transaction-Tallied :
      (user_id video_id : ℕ) (w : W)
      → Tallied (tables w)
      → (unlike_transaction env user_id video_id w).0 ≡ ok tt
      → Tallied (tables (unlike_transaction env user_id video_id w).1)
  unfolding unlike_transaction
  unlike_transaction-Tallied user_id video_id w h r =
      bind_then (λ v. Tallied (tables v)) (delete_like env video_id user_id) _ w tt r
        (λ gone q r'. counted-unlike video_id user_id w gone q r' h)

  if_exists-Tallied :
      (m : Exec W (Unit {0})) (found : Bool)
      → Keeps env Tallied m
      → Keeps env Tallied (if_exists env m found)
  unfolding if_exists
  if_exists-Tallied m false k = Keeps-Quiet (Quiet-pure tt)
  if_exists-Tallied m true k = k

  pub apply_like-Tallied :
      (user_id video_id : ℕ) → Keeps env Tallied (apply_like env user_id video_id)
  unfolding apply_like
  apply_like-Tallied user_id video_id =
      Keeps-bind (Keeps-Quiet (is_exist-Quiet laws video_id)) (λ found. if_exists-Tallied _ found (
        Keeps-transaction Tallied laws (like_transaction env user_id video_id)
          (like_transaction-Tallied user_id video_id)))

  pub apply_unlike-Tallied :
      (user_id video_id : ℕ) → Keeps env Tallied (apply_unlike env user_id video_id)
  unfolding apply_unlike
  apply_unlike-Tallied user_id video_id =
      Keeps-bind (Keeps-Quiet (is_exist-Quiet laws video_id)) (λ found. if_exists-Tallied _ found (
        Keeps-transaction Tallied laws (unlike_transaction env user_id video_id)
          (unlike_transaction-Tallied user_id video_id)))

  process-Tallied : (body : Option LikeEvent) → Keeps env Tallied (process env body)
  unfolding process dispatch
  process-Tallied none = Keeps-Quiet (Quiet-pure tt)
  process-Tallied (some evt) =
      Keeps-if (evt.user_id == 0 || evt.video_id == 0) (Keeps-Quiet (Quiet-pure tt)) (
        Keeps-if (str_eq evt.action "like") (apply_like-Tallied evt.user_id evt.video_id) (
          Keeps-if (str_eq evt.action "unlike") (apply_unlike-Tallied evt.user_id evt.video_id)
            (Keeps-Quiet (Quiet-pure tt))))

  -- Whatever messages the like worker is sent, malformed ones and repetitions included, and whatever
  -- calls fail on the way: if each video's `likes_count` was the number of its like rows, and no
  -- account had liked a video twice, then this is so after the messages.
  pub deliver-Tallied :
      (bodies : List (Option LikeEvent)) (w : W)
      → Tallied (tables w)
      → Tallied (tables (deliver (process env) bodies w))
  unfolding deliver
  deliver-Tallied [] w h = h
  deliver-Tallied (body ∷ bodies) w h =
      deliver-Tallied bodies _ (
        (Keeps-bind (Keeps-attempt (process-Tallied body)) (λ r. Keeps-Quiet (Quiet-pure _))).at w
          h)
