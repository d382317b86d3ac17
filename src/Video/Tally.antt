-- ===== src/Video/Tally.antt =====
-- The counter `likes_count` of a video against the rows of the table `likes`: facts about tables.
use feed_system_golang.Base.{
  ℕ, ◌+◌, ◌≤◌, ◌≡◌, refl, ap, ◌∙◌, ℤ, pos, negsuc, ◌+ℤ◌, max_ℤ, ltb, true, false, List, [], ◌∷◌,
  ◌++◌, length, select, Elem, Elem-map_inv, ◌==◌, ◌&&◌, if◌then◌else◌, Bool-cases, ==_iff, inl, inr,
  arith,
}
use feed_system_golang.Backend.Entity.{Video, Like}
use feed_system_golang.Backend.Sql.{
  Tables, apply, violates, deleted, any, delete_where, update_where, insert_like, update_videos,
  delete_likes,
}
use feed_system_golang.Video.Repo.{is_like_of, add_likes, add_popularity}

-- The likes of a video, and those of one account.
abbrev pub likes_of : ℕ → List Like → ℕ
likes_of x ls = length (select (λ l. l.video_id == x) ls)

abbrev pub likes_by : ℕ → ℕ → List Like → ℕ
likes_by x a ls = length (select (is_like_of x a) ls)

-- Each video's counter is the number of its likes, and an account likes a video at most once.
pub record Tallied (t : Tables) : Type 0 where
  pub counted : (v : Video) → Elem v t.videos → v.likes_count ≡ pos (likes_of v.id t.likes)
  pub unique : (x a : ℕ) → likes_by x a t.likes ≤ 1

likes_of-insert :
    (y : ℕ) (l : Like) (ls : List Like)
    → likes_of y (ls ++ l ∷ []) ≡ likes_of y ls + (if l.video_id == y then 1 else 0)
likes_of-insert y l [] = ground arith
likes_of-insert y l (k ∷ ls) = ground (arith, likes_of-insert y l ls)

likes_by-insert :
    (y b : ℕ) (l : Like) (ls : List Like)
    → likes_by y b (ls ++ l ∷ []) ≡ likes_by y b ls + (if is_like_of y b l then 1 else 0)
likes_by-insert y b l [] = ground arith
likes_by-insert y b l (k ∷ ls) = ground (arith, likes_by-insert y b l ls)

-- A row that no unique index refuses is the first of its account for its video.
likes_by-fresh :
    (l : Like) (ls : List Like)
    → any (λ r. r.video_id == l.video_id && r.account_id == l.account_id) ls ≡ false
    → likes_by l.video_id l.account_id ls ≡ 0
likes_by-fresh l [] h = refl
likes_by-fresh l (k ∷ ls) h = ground (arith, likes_by-fresh l ls)

likes_of-delete :
    (y x a : ℕ) (ls : List Like)
    → likes_of y (delete_where (is_like_of x a) ls) + (if x == y then likes_by x a ls else 0)
      ≡ likes_of y ls
likes_of-delete y x a [] = ground arith
likes_of-delete y x a (l ∷ ls) = ground (arith, likes_of-delete y x a ls)

likes_by-delete :
    (y b x a : ℕ) (ls : List Like)
    → likes_by y b (delete_where (is_like_of x a) ls) ≤ likes_by y b ls
likes_by-delete y b x a [] = omega arith
likes_by-delete y b x a (l ∷ ls) = ground (arith, likes_by-delete y b x a ls)

-- Both counters of a video moved by `n`.
abbrev pub moved : ℕ → ℤ → Tables → Tables
moved x n t =
    apply (update_videos (λ v. v.id == x) (add_popularity n)) 0
      (apply (update_videos (λ v. v.id == x) (add_likes n)) 0 t)

-- A video after the two updates, from the row that it was.
abbrev step_video : ℕ → ℤ → Video → Video
step_video x n u =
    let v = if u.id == x then add_likes n u else u in if v.id == x then add_popularity n v else v

moved_row :
    (x : ℕ) (n : ℤ) (t : Tables) (v : Video)
    → Elem v (moved x n t).videos
    → (u : Video) × Elem u t.videos × (v ≡ step_video x n u)
moved_row x n t v i =
    let (y, j, e) =
      Elem-map_inv (λ u. if u.id == x then add_popularity n u else u) v
        (update_where (λ u. u.id == x) (add_likes n) t.videos) i in
    let (u, k, f) = Elem-map_inv (λ u. if u.id == x then add_likes n u else u) y t.videos j in
    (u, k, e ∙ ap (λ (z : Video). if z.id == x then add_popularity n z else z) f)

step_video-id : (x : ℕ) (n : ℤ) (u : Video) → (step_video x n u).id ≡ u.id
step_video-id x n u = elim (Bool-cases (u.id == x)) [ inl q ↦ rw (q, q) | inr q ↦ rw (q, q) ]

step_video-same :
    (x : ℕ) (n : ℤ) (u : Video)
    → (u.id == x) ≡ true
    → (step_video x n u).likes_count ≡ max_ℤ (u.likes_count +ℤ n) (pos 0)
step_video-same x n u q = rw (q, q)

step_video-other :
    (x : ℕ) (n : ℤ) (u : Video)
    → (u.id == x) ≡ false
    → (step_video x n u).likes_count ≡ u.likes_count
step_video-other x n u q = rw (q, q)

max_up : (c : ℕ) → max_ℤ (pos c +ℤ pos 1) (pos 0) ≡ pos (c + 1)
unfolding ◌+ℤ◌
max_up c = ground arith

max_down : (c : ℕ) → max_ℤ (pos (c + 1) +ℤ negsuc 0) (pos 0) ≡ pos c
unfolding ◌+ℤ◌
max_down c = ground arith

-- The tables after a like is inserted and counted.
pub insert-Tallied :
    (l : Like) (id : ℕ) (t : Tables)
    → violates (insert_like l) t ≡ false
    → Tallied t
    → Tallied (moved l.video_id (pos 1) (apply (insert_like l) id t))
insert-Tallied l id t fresh h = record {
  counted = λ v i.
      let (u, j, e) = moved_row l.video_id (pos 1) (apply (insert_like l) id t) v i in
      rw e (count u j);
  unique = λ y b. ground (
    arith,
    h.unique y b,
    likes_by-insert y b (record l { id = id }) t.likes,
    likes_by-fresh l t.likes,
  );
}
  where
    count :
        (u : Video)
        → Elem u t.videos
        → (step_video l.video_id (pos 1) u).likes_count
          ≡ pos
              (likes_of (step_video l.video_id (pos 1) u).id (t.likes ++ record l { id = id } ∷ []))
    count u j = elim (Bool-cases (u.id == l.video_id)) [
      | inl q ↦
          step_video-same l.video_id (pos 1) u q
          ∙ ap (λ c. max_ℤ (c +ℤ pos 1) (pos 0)) (h.counted u j)
          ∙ max_up (likes_of u.id t.likes)
          ∙ ap pos (
              rw (step_video-id l.video_id (pos 1) u)
                (ground (arith, likes_of-insert u.id (record l { id = id }) t.likes)))
      | inr q ↦
          step_video-other l.video_id (pos 1) u q
          ∙ h.counted u j
          ∙ ap pos (
              rw (step_video-id l.video_id (pos 1) u)
                (ground (arith, likes_of-insert u.id (record l { id = id }) t.likes)))
    ]

-- The tables after a like is deleted and discounted.
pub delete-Tallied :
    (x a : ℕ) (t : Tables)
    → ltb 0 (deleted (delete_likes (is_like_of x a)) t) ≡ true
    → Tallied t
    → Tallied (moved x (negsuc 0) (apply (delete_likes (is_like_of x a)) 0 t))
delete-Tallied x a t gone h = record {
  counted = λ v i.
      let (u, j, e) = moved_row x (negsuc 0) (apply (delete_likes (is_like_of x a)) 0 t) v i in
      rw e (count u j);
  unique = λ y b. ground (arith, h.unique y b, likes_by-delete y b x a t.likes);
}
  where
    left : ℕ
    left = likes_of x (delete_where (is_like_of x a) t.likes)

    count :
        (u : Video)
        → Elem u t.videos
        → (step_video x (negsuc 0) u).likes_count
          ≡ pos (likes_of (step_video x (negsuc 0) u).id (delete_where (is_like_of x a) t.likes))
    count u j = elim (Bool-cases (u.id == x)) [
      | inl q ↦
          step_video-same x (negsuc 0) u q
          ∙ ap (λ c. max_ℤ (c +ℤ negsuc 0) (pos 0))
              (h.counted u j
                ∙ ap pos (
                    ground
                      (arith, likes_of-delete u.id x a t.likes, h.unique x a, (==_iff u.id x).0 q)))
          ∙ max_down left
          ∙ ap pos (rw (step_video-id x (negsuc 0) u, (==_iff u.id x).0 q) refl)
      | inr q ↦
          step_video-other x (negsuc 0) u q
          ∙ h.counted u j
          ∙ ap pos
              (rw (step_video-id x (negsuc 0) u) (ground (arith, likes_of-delete u.id x a t.likes)))
    ]

delete_where-none :
    (x a : ℕ) (ls : List Like)
    → ltb 0 (likes_by x a ls) ≡ false
    → delete_where (is_like_of x a) ls ≡ ls
delete_where-none x a [] h = refl
delete_where-none x a (l ∷ ls) h = ground (arith, delete_where-none x a ls)

-- A deletion that finds no row changes nothing.
pub delete_none :
    (x a : ℕ) (t : Tables)
    → ltb 0 (deleted (delete_likes (is_like_of x a)) t) ≡ false
    → apply (delete_likes (is_like_of x a)) 0 t ≡ t
delete_none x a t h = ap (λ ls. record t { likes = ls }) (delete_where-none x a t.likes h)
