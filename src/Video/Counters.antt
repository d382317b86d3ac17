-- ===== src/Video/Counters.antt =====
-- The counter updates at the end of a like transaction, and the tally after them.
use feed_system_golang.Base.{
  ℕ, ℤ, pos, negsuc, ltb, ◌==◌, ◌≡◌, sym, subst, ap, ◌∙◌, true, ok, ◌>>=◌,
}
use feed_system_golang.Backend.{Backend}
use feed_system_golang.Backend.Entity.{Like}
use feed_system_golang.Backend.Sql.{apply, update_videos, deleted, insert_like, delete_likes}
use feed_system_golang.Backend.Laws.{MysqlLaws}
use feed_system_golang.Backend.Keeps.{bind_ok}
use feed_system_golang.Video.Repo.{
  is_like_of, add_popularity, change_likes_count, change_popularity,
}
use feed_system_golang.Video.Effects.{
  Applied, inserted_id, change_likes_count_ok, change_popularity_ok,
}
use feed_system_golang.Video.Tally.{Tallied, moved, insert-Tallied, delete-Tallied}

module _ {W : Type 0} {env : Backend W} (laws : MysqlLaws env) where
  open env use {tables}

  -- Both updates were done, if their chain succeeds.
  pub counters_ok :
      (x : ℕ) (n : ℤ) (w : W)
      → ((change_likes_count env x n >>= λ _. change_popularity env x n) w).0 ≡ ok tt
      → tables ((change_likes_count env x n >>= λ _. change_popularity env x n) w).1
        ≡ moved x n (tables w)
  counters_ok x n w h =
      let (u, q, e) =
        bind_ok (change_likes_count env x n) (λ _. change_popularity env x n) w tt h in
      let w' = (change_likes_count env x n w).1 in
      ap (λ r. tables r.1) e
      ∙ (change_popularity_ok laws x n w' (ap (λ r. r.0) (sym e) ∙ h)).0
      ∙ ap (apply (update_videos (λ v. v.id == x) (add_popularity n)) 0)
          (change_likes_count_ok laws x n w q).0

  pub inserted-Tallied :
      (l : Like) (w : W) (w' : W) (w'' : W)
      → Applied env (insert_like l) w (tables w')
      → tables w'' ≡ moved l.video_id (pos 1) (tables w')
      → Tallied (tables w)
      → Tallied (tables w'')
  inserted-Tallied l w w' w'' (t, fresh) m h =
      subst Tallied (sym (m ∙ ap (moved l.video_id (pos 1)) t))
        (insert-Tallied l (inserted_id (env.exec (insert_like l) w).0) (tables w) fresh h)

  pub deleted-Tallied :
      (x a : ℕ) (w w' w'' : W)
      → Applied env (delete_likes (is_like_of x a)) w (tables w')
      → ltb 0 (deleted (delete_likes (is_like_of x a)) (tables w)) ≡ true
      → tables w'' ≡ moved x (negsuc 0) (tables w')
      → Tallied (tables w)
      → Tallied (tables w'')
  deleted-Tallied x a w w' w'' (t, _) gone m h =
      subst Tallied (sym (m ∙ ap (moved x (negsuc 0)) t)) (delete-Tallied x a (tables w) gone h)
