-- ===== src/Video/Service/Deleting.antt =====
-- Who may delete a video.
use feed_system_golang.Base.{
  ℕ, ◌≡◌, refl, sym, ap, subst, ◌∙◌, ◌⊎◌, inl, inr, ◌==◌, ==_iff, Bool, true, false, Option,
  message, Result, ok, raise, ◌>>=◌, ◌>>◌, if◌then◌else◌, Elem, arith,
}
use feed_system_golang.Backend.{Backend}
use feed_system_golang.Backend.Entity.{Video}
use feed_system_golang.Backend.Sql.{Tables, apply, delete_videos}
use feed_system_golang.Backend.Quiet.{Quiet, quiet_rules}
use feed_system_golang.Backend.Laws.{MysqlLaws, QuietLaws}
use feed_system_golang.Backend.Keeps.{quiet_then, bind_both}
use feed_system_golang.Cache.{Client}
use feed_system_golang.Cache.Quiet.{del_key-Quiet, when_cached-Quiet}
use feed_system_golang.Video.Repo.{video_detail, delete_video}
use feed_system_golang.Video.Service.{DetailCache, forget_detail, delete_owned, delete}

-- Nothing, or the videos of that id are gone, and one of them was the account's.
abbrev pub DeletedOwn : ℕ → ℕ → Tables → Tables → Type 0
DeletedOwn id author_id t after =
    (after ≡ t)
    ⊎ ((v : Video) × Elem v t.videos
        × (v.id ≡ id)
        × (v.author_id ≡ author_id)
        × (after ≡ apply (delete_videos (λ u. u.id == id)) 0 t))

module _ {W : Type 0} {env : Backend W} (laws : MysqlLaws env) (quiet : QuietLaws env)
    (local : DetailCache W) (cache : Option Client)
    (unhold-Quiet : (id : ℕ) → Quiet env (local.unhold id)) where
  open env use {tables}

  found_video :
      (id : ℕ) (w : W) (v : Video)
      → (video_detail env id w).0 ≡ ok v
      → (v.id ≡ id) × Elem v (tables w).videos
  unfolding video_detail
  found_video id w v q = elim (laws.first_video-Finds (λ u. u.id == id) w) [
    | inl (e, failed) ↦ cc
    | inr (u, found, same, i) ↦ ground (arith, found, q, same, i)
  ]

  video_detail-Quiet : (id : ℕ) → Quiet env (video_detail env id)
  unfolding video_detail
  video_detail-Quiet id = laws.first_video-Quiet (λ u. u.id == id)

  forget_detail-Quiet : (id : ℕ) → Quiet env (forget_detail env local cache id)
  unfolding forget_detail
  forget_detail-Quiet id =
      search (quiet_rules, unhold-Quiet, when_cached-Quiet cache, del_key-Quiet quiet cache)

  delete_video-cases :
      (id : ℕ) (w : W)
      → (tables (delete_video env id w).1 ≡ tables w)
        ⊎ (tables (delete_video env id w).1 ≡ apply (delete_videos (λ u. u.id == id)) 0 (tables w))
  unfolding delete_video ◌>>=◌
  delete_video-cases id w = ground (arith, laws.exec_cases (delete_videos (λ u. u.id == id)) w)

  module _ (id author_id : ℕ) (t : Tables) where
    Done : Result (Unit {0}) × W → Type 0
    Done r = DeletedOwn id author_id t (tables r.1)

    deletion :
        (v : Video) (w : W)
        → (v.id ≡ id) × Elem v t.videos
        → v.author_id ≡ author_id
        → tables w ≡ t
        → DeletedOwn id author_id t (tables (delete_video env id w).1)
    deletion v w (same, i) own h = elim (delete_video-cases id w) [
      | inl kept ↦ inl (kept ∙ h)
      | inr gone ↦ inr (v, i, same, own, gone ∙ ap (apply (delete_videos (λ u. u.id == id)) 0) h)
    ]

    delete_owned-Done :
        (v : Video) (w : W)
        → (v.id ≡ id) × Elem v t.videos
        → tables w ≡ t
        → Done (delete_owned env local cache id author_id v w)
    unfolding Done delete_owned raise
    delete_owned-Done v w found h = owned (v.author_id == author_id) refl
      where
        owned :
            (own : Bool)
            → (v.author_id == author_id) ≡ own
            → Done (
                (if own
                    then delete_video env id >> forget_detail env local cache id
                    else raise (message "unauthorized"))
                  w)
        owned false e = inl h
        owned true e =
            let gone = deletion v w found ((==_iff v.author_id author_id).0 e) h in
            bind_both Done (delete_video env id) _ w (λ _ _. gone)
              (λ _ _. subst (DeletedOwn id author_id t) (sym ((forget_detail-Quiet id).at _)) gone)

    delete-Done : (w : W) → tables w ≡ t → Done (delete env local cache id author_id w)
    unfolding delete Done
    delete-Done w h =
        quiet_then t Done (λ e v k. inl k) _ _ w (video_detail-Quiet id) h
          (λ v q k.
            let (same, i) = found_video id w v q in
            delete_owned-Done v _ (same, subst (λ u. Elem v u.videos) h i) k)

  -- Whatever calls fail: deleting a video leaves every table as it was, or takes away the rows of
  -- that id, one of which the calling account has published.
  pub delete-DeletedOwn :
      (id author_id : ℕ) (w : W)
      → DeletedOwn id author_id (tables w) (tables (delete env local cache id author_id w).1)
  unfolding Done
  delete-DeletedOwn id author_id w = delete-Done id author_id (tables w) w refl
