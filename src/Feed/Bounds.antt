-- ===== src/Feed/Bounds.antt =====
-- How long the pages of ListLikesCount are, and the quotas of ListByFollowing.
use feed_system_golang.Base.{
  ℕ, zero, suc, ◌+◌, ◌-◌, ◌≤◌, min, ℤ, ◌≡◌, refl, sym, ap, subst, ◌∙◌, inl, inr, String, ◌⊎◌,
  Option, List, [], ◌∷◌, map, length, length-map, length-take-le, All, Result, Result-cases, ok,
  Exec, ◌>>=◌, arith, Bool-cases,
}
use feed_system_golang.Backend.{Backend}
use feed_system_golang.Backend.Entity.{Video}
use feed_system_golang.Backend.Keeps.{bind_ok}
use feed_system_golang.Feed.Repo.{
  LikesCountCursor, by_likes, under_likes, find_by_likes, batch_get_liked,
}
use feed_system_golang.Feed.Listing.{
  ListLikesCountResponse, feed_item, build_feed_videos, likes_page, list_likes_count,
}
use feed_system_golang.Feed.Cursor.{PageLaws, asked}
use feed_system_golang.Feed.Pages.{by_likes-IsOrder, by_likes-IsTotal}
use feed_system_golang.Feed.Handler.{
  ListLikesCountRequest, page_limit, likes_cursor, handle_list_likes_count, viewer_or_zero,
}
use feed_system_golang.Http.Context.{ok_json, respond}
use feed_system_golang.Feed.Following.{BigV, is_stale, quotas}

abbrev pub quota_total : List (ℕ × ℕ) → ℕ
quota_total [] = 0
quota_total ((id, n) ∷ qs) = n + quota_total qs

-- Between one and ten.
abbrev pub IsQuota : ℕ × ℕ → Type 0
IsQuota q = (1 ≤ q.1) × (q.1 ≤ 10)

abbrev Bounded : ℕ → List (ℕ × ℕ) → Type 0
Bounded n qs = (quota_total qs ≤ n) × All IsQuota qs

-- The quotas add up to what is needed at most, and each is from one to ten.
pub quotas_bounded :
    (n : ℕ) (oldest : Option ℤ) (bs : List BigV)
    → (quota_total (quotas n oldest bs) ≤ n) × All IsQuota (quotas n oldest bs)
unfolding quotas
quotas_bounded zero oldest bs = (omega arith, tt)
quotas_bounded (suc n) oldest [] = (omega arith, tt)
quotas_bounded (suc n) oldest (b ∷ bs) =
    let (total, each) = quotas_bounded (suc n - min (suc n) 10) oldest bs in
    let (total', each') = quotas_bounded (suc n) oldest bs in
    elim (Bool-cases (is_stale oldest b.newest_at)) [
      | inl stale ↦
          let skipped : quotas (suc n) oldest (b ∷ bs) ≡ quotas (suc n) oldest bs =
            ground (arith, stale) in
          subst (Bounded (suc n)) (sym skipped) (total', each')
      | inr fresh ↦
          let taken : quotas (suc n) oldest (b ∷ bs)
              ≡ (b.id, min (suc n) 10) ∷ quotas (suc n - min (suc n) 10) oldest bs =
            ground (arith, fresh) in
          subst (Bounded (suc n)) (sym taken)
            (omega (arith, total), ((omega arith, omega arith), each))
    ]

page_limit_bounded : (limit : ℤ) → (1 ≤ page_limit limit) × (page_limit limit ≤ 50)
page_limit_bounded limit = (ground arith, ground arith)

module _ {W : Type 0} {env : Backend W} (laws : PageLaws env) where
  length-likes_page :
      (limit viewer : ℕ) (found : List Video) (w : W) (resp : ListLikesCountResponse)
      → (likes_page env limit viewer found w).0 ≡ ok resp
      → length resp.video_list ≡ length found
  unfolding likes_page build_feed_videos ◌>>=◌
  length-likes_page limit viewer found w resp h =
      elim (Result-cases (batch_get_liked env (map (λ v. v.id) found) viewer w).0) [
        | inl (e, q) ↦ ground (arith, q, h)
        | inr (liked, q) ↦ ground (arith, q, h, length-map (feed_item liked) found)
      ]

  list_likes_count_bounded :
      (limit : ℕ) (cursor : Option LikesCountCursor) (viewer : ℕ) (w : W)
      (resp : ListLikesCountResponse)
      → (list_likes_count env limit cursor viewer w).0 ≡ ok resp
      → length resp.video_list ≤ limit
  unfolding list_likes_count find_by_likes
  list_likes_count_bounded limit cursor viewer w resp h =
      let (found, q, step) =
        bind_ok (find_by_likes env limit cursor) (likes_page env limit viewer) w resp h in
      let (all, _, _, cut) =
        laws.find_videos-Answered (asked by_likes by_likes-IsTotal limit (under_likes cursor)) w
          found by_likes-IsOrder q in
      let same =
        length-likes_page limit viewer found (find_by_likes env limit cursor w).1 resp
          (ap (λ r. r.0) (sym step) ∙ h) in
      ground (arith, same, cut, length-take-le limit all)

  -- Whatever limit a request names, the answer of ListLikesCount's handler holds 50 videos at most.
  pub handle_list_likes_count_bounded :
      (viewer : Result ℕ) (req : ListLikesCountRequest) (w : W) (resp : ListLikesCountResponse)
      → (handle_list_likes_count (list_likes_count env) viewer req w).0 ≡ ok (ok_json resp)
      → length resp.video_list ≤ 50
  unfolding handle_list_likes_count respond ◌>>=◌
  handle_list_likes_count_bounded viewer req w resp h =
      go (likes_cursor req.likes_count_before req.id_before) refl
    where
      served : Option LikesCountCursor → Exec W ListLikesCountResponse
      served cursor = list_likes_count env (page_limit req.limit) cursor (viewer_or_zero viewer)

      go :
          (c : String ⊎ Option LikesCountCursor)
          → likes_cursor req.likes_count_before req.id_before ≡ c
          → length resp.video_list ≤ 50
      go (inl reason) q = ground (arith, q, h)
      go (inr cursor) q = elim (Result-cases (served cursor w).0) [
        | inl (e, failed) ↦ ground (arith, q, h, failed)
        | inr (answer, done) ↦ ground (
          arith,
          q,
          h,
          done,
          page_limit_bounded req.limit,
          list_likes_count_bounded (page_limit req.limit) cursor (viewer_or_zero viewer) w answer
              done,
        )
      ]
