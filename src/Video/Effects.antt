-- ===== src/Video/Effects.antt =====
-- What the statements of the repositories do to the tables when they succeed.
use feed_system_golang.Base.{
  ℕ, ℤ, ltb, ◌==◌, ◌≡◌, ◌⊎◌, inl, inr, Bool, true, false, Result, ok, err, ◌>>=◌, arith,
}
use feed_system_golang.Backend.{Backend}
use feed_system_golang.Backend.Entity.{Video, Like}
use feed_system_golang.Backend.Sql.{
  Write, Outcome, Tables, apply, violates, deleted, is_deletion, insert_like, update_videos,
  delete_likes,
}
use feed_system_golang.Backend.Quiet.{Quiet, quiet_rules, Quiet-bind, Quiet-attempt}
use feed_system_golang.Backend.Laws.{MysqlLaws}
use feed_system_golang.Video.Repo.{
  is_like_of, add_likes, add_popularity, change_likes_count, change_popularity,
  like_ignore_duplicate, like_in_tx, delete_like, delete_like_in_tx, is_exist, exists_result,
}

-- The key that an insertion was given.
abbrev pub inserted_id : Result Outcome → ℕ
inserted_id (ok o) = o.last_insert_id
inserted_id (err e) = 0

-- The statement was executed at `w`, and left the tables `t`.
abbrev pub Applied : {W : Type 0} → Backend W → Write → W → Tables → Type 0
Applied env s w t =
    (t ≡ apply s (inserted_id (env.exec s w).0) (env.tables w))
    × (violates s (env.tables w) ≡ false)

module _ {W : Type 0} {env : Backend W} (laws : MysqlLaws env) where
  open env use {tables}

  pub exec_ok :
      (s : Write) (w : W) (o : Outcome)
      → (env.exec s w).0 ≡ ok o
      → Applied env s w (tables (env.exec s w).1)
        × (is_deletion s ≡ true → o.rows_affected ≡ deleted s (tables w))
  exec_ok s w o h = elim (laws.exec_cases s w) [
    | inl (e, q, t) ↦ cc
    | inr (o', q, t, v, r) ↦ ((ground arith, v), ground arith)
  ]

  pub change_likes_count_ok :
      (id : ℕ) (n : ℤ) (w : W)
      → (change_likes_count env id n w).0 ≡ ok tt
      → Applied env
          (update_videos (λ v. v.id == id) (add_likes n))
          w
          (tables (change_likes_count env id n w).1)
  unfolding change_likes_count ◌>>=◌
  change_likes_count_ok id n w h =
      ground (arith, laws.exec_cases (update_videos (λ v. v.id == id) (add_likes n)) w)

  pub change_popularity_ok :
      (id : ℕ) (n : ℤ) (w : W)
      → (change_popularity env id n w).0 ≡ ok tt
      → Applied env
          (update_videos (λ v. v.id == id) (add_popularity n))
          w
          (tables (change_popularity env id n w).1)
  unfolding change_popularity ◌>>=◌
  change_popularity_ok id n w h =
      ground (arith, laws.exec_cases (update_videos (λ v. v.id == id) (add_popularity n)) w)

  -- A like is inserted, or there was one, and then nothing happens.
  pub like_ignore_duplicate_ok :
      (l : Like) (w : W) (created : Bool)
      → (like_ignore_duplicate env l w).0 ≡ ok created
      → ((created ≡ false) × (tables (like_ignore_duplicate env l w).1 ≡ tables w))
        ⊎ ((created ≡ true)
            × Applied env (insert_like l) w (tables (like_ignore_duplicate env l w).1))
  unfolding like_ignore_duplicate ◌>>=◌
  like_ignore_duplicate_ok l w created h = ground (arith, laws.exec_cases (insert_like l) w)

  pub like_in_tx_ok :
      (l : Like) (w : W)
      → (like_in_tx env l w).0 ≡ ok tt
      → Applied env (insert_like l) w (tables (like_in_tx env l w).1)
  unfolding like_in_tx ◌>>=◌
  like_in_tx_ok l w h = ground (arith, laws.exec_cases (insert_like l) w)

  -- The rows that were deleted decide the answer.
  pub delete_like_ok :
      (x a : ℕ) (w : W) (gone : Bool)
      → (delete_like env x a w).0 ≡ ok gone
      → ((gone ≡ false) × (tables (delete_like env x a w).1 ≡ tables w))
        ⊎ (Applied env (delete_likes (is_like_of x a)) w (tables (delete_like env x a w).1)
            × (gone ≡ ltb 0 (deleted (delete_likes (is_like_of x a)) (tables w))))
  unfolding delete_like ◌>>=◌
  delete_like_ok x a w gone h = ground (arith, laws.exec_cases (delete_likes (is_like_of x a)) w)

  pub delete_like_in_tx_ok :
      (x a : ℕ) (w : W)
      → (delete_like_in_tx env x a w).0 ≡ ok tt
      → Applied env (delete_likes (is_like_of x a)) w (tables (delete_like_in_tx env x a w).1)
        × (ltb 0 (deleted (delete_likes (is_like_of x a)) (tables w)) ≡ true)
  unfolding delete_like_in_tx ◌>>=◌
  delete_like_in_tx_ok x a w h = ground (arith, laws.exec_cases (delete_likes (is_like_of x a)) w)

  exists_result-Quiet : (r : Result Video) → Quiet env (exists_result env r)
  unfolding exists_result
  exists_result-Quiet (ok v) = search quiet_rules
  exists_result-Quiet (err e) = search quiet_rules

  pub is_exist-Quiet : (id : ℕ) → Quiet env (is_exist env id)
  unfolding is_exist
  is_exist-Quiet id =
      Quiet-bind (Quiet-attempt (laws.first_video-Quiet (λ v. v.id == id))) exists_result-Quiet
