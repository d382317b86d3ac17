-- ===== src/Feed/PopularPages.antt =====
-- The pages of ListByPopularity that come from MySQL: a client that follows their cursors.
use feed_system_golang.Base.{
  ok_same, ℕ, ◌+◌, ◌<◌, ◌≤◌, ℤ, pos_part, neg_part, ◌<ℤ◌, length-map, ◌≡◌, refl, sym, ap, subst,
  ◌∙◌, ◌⊎◌, inl, inr, Bool, true, false, Option, none, some, List, map, length, Elem, arith,
  Option-cases, Result-cases, ok, pure, ◌>>=◌, ◌==◌, ◌||◌, Bool-cases, pos,
}
use feed_system_golang.Backend.{Backend}
use feed_system_golang.Backend.Entity.{Video, Time}
use feed_system_golang.Backend.Sql.{Tables}
use feed_system_golang.Backend.Keeps.{bind_ok}
use feed_system_golang.Feed.Repo.{
  by_popularity, under_popularity, find_by_popularity, batch_get_liked,
}
use feed_system_golang.Feed.Listing.{
  ListByPopularityResponse, FeedVideoItem, feed_item, last_of, build_feed_videos, popularity_page,
  list_by_popularity_from_db,
}
use feed_system_golang.Feed.Cursor.{
  PageLaws, OneVideo, is_after, IsTotal, IsClosed, InAnswer, asked, answer-InAnswer, order-IsClosed,
  feed_item_ids, page_row,
}
use feed_system_golang.Feed.Sorting.{last_of-Elem}

-- Two integers with the same value.
abbrev Same : ℤ → ℤ → Type 0
Same a b = pos_part a + neg_part b ≡ pos_part b + neg_part a

-- `v` stands where `w` does, or further down: by the popularity, the time, the id.
abbrev NoLater : Video → Video → Type 0
NoLater v w =
    (v.popularity <ℤ w.popularity)
    ⊎ (Same v.popularity w.popularity
        × ((v.create_time <ℤ w.create_time) ⊎ (Same v.create_time w.create_time × (v.id ≤ w.id))))

no_later : (v w : Video) → by_popularity v w ≡ false → NoLater v w
no_later v w h = ground arith

NoLater-false : (v w : Video) → NoLater v w → by_popularity v w ≡ false
NoLater-false v w (inl p) = ground arith
NoLater-false v w (inr (p, inl t)) = ground arith
NoLater-false v w (inr (p, inr (t, i))) = ground arith

NoLater-trans : (a b c : Video) → NoLater b a → NoLater c b → NoLater c a
NoLater-trans a b c (inl p) (inl q) = inl (omega arith)
NoLater-trans a b c (inl p) (inr (q, y)) = inl (omega arith)
NoLater-trans a b c (inr (p, x)) (inl q) = inl (omega arith)
NoLater-trans a b c (inr (p, inl t)) (inr (q, inl u)) = inr (omega arith, inl (omega arith))
NoLater-trans a b c (inr (p, inl t)) (inr (q, inr (u, j))) = inr (omega arith, inl (omega arith))
NoLater-trans a b c (inr (p, inr (t, i))) (inr (q, inl u)) = inr (omega arith, inl (omega arith))
NoLater-trans a b c (inr (p, inr (t, i))) (inr (q, inr (u, j))) =
    inr (omega arith, inr (omega arith, omega arith))

NoLater-ids : (v w : Video) → NoLater v w → NoLater w v → v.id ≡ w.id
NoLater-ids v w (inl p) k = ground arith
NoLater-ids v w (inr (p, inl t)) k = ground arith
NoLater-ids v w (inr (p, inr (t, i))) k = ground arith

by_popularity-IsTotal : IsTotal by_popularity
by_popularity-IsTotal = record {
  order = record {
    asym = λ a b h. ground arith;
    negtrans =
        λ a b c h k. NoLater-false c a (NoLater-trans a b c (no_later b a h) (no_later c b k));
  };
  same_ids = λ v w h k. NoLater-ids v w (no_later v w h) (no_later w v k);
}

-- Does the cursor of an answer, sent back, let a video through? An answer without one is the last.
abbrev pub admits_popular : ListByPopularityResponse → Video → Bool
admits_popular resp v = elim resp.next_latest_popularity [
  | none ↦ false
  | some p ↦ elim resp.next_latest_id_before [
    | none ↦ false
    | some id ↦ under_popularity p resp.next_latest_before id v
  ]
]

-- The answer that is built of a page and its items.
abbrev page_of : ℕ → List FeedVideoItem → List Video → ListByPopularityResponse
page_of limit items found = record {
  video_list = items;
  as_of = pos 0;
  next_offset = pos 0;
  has_more = length items == limit;
  next_latest_popularity = elim (last_of found) [ none ↦ none | some v ↦ some v.popularity ];
  next_latest_before = elim (last_of found) [ none ↦ none | some v ↦ some v.create_time ];
  next_latest_id_before = elim (last_of found) [ none ↦ none | some v ↦ some v.id ];
}

-- What an answer to the cursor shows of a video, and what its own cursor asks for.
abbrev pub InPopularAnswer : (Video → Bool) → Video → ListByPopularityResponse → Type 0
InPopularAnswer asked_for v resp =
    InAnswer asked_for (admits_popular resp) (map (λ i. i.id) resp.video_list) resp.has_more v

-- Ids begin at 1.
abbrev pub ArePositive : Tables → Type 0
ArePositive t = (v : Video) → Elem v t.videos → 0 < v.id

named : (id : ℕ) → 0 < id → (id == 0) ≡ false
named id h = ground arith

admits_after :
    (limit : ℕ) (items : List FeedVideoItem) (found : List Video) (v : Video)
    → ((last : Video) → last_of found ≡ some last → 0 < last.id)
    → admits_popular (page_of limit items found) v ≡ is_after by_popularity (last_of found) v
admits_after limit items found v positive = elim (Option-cases (last_of found)) [
  | inl ended ↦ rw ended refl
  | inr (last, q) ↦ rw q (past last (positive last q))
]
  where
    past :
        (last : Video)
        → 0 < last.id
        → under_popularity last.popularity (some last.create_time) last.id v ≡ by_popularity last v
    past last h = rw (named last.id h) refl

under_popularity-IsClosed :
    (p : ℤ) (before : Option Time) (id : ℕ) → IsClosed by_popularity (under_popularity p before id)
under_popularity-IsClosed p none id last v under later = refl
under_popularity-IsClosed p (some t) id last v under later = elim (Bool-cases (id == 0)) [
  | inl unnamed ↦ rw unnamed refl
  | inr known ↦
      let place : Video = record last { popularity = p; create_time = t; id = id } in
      rw known (
        order-IsClosed by_popularity by_popularity-IsTotal.order place last v
          (subst (λ b. (b || by_popularity place last) ≡ true) known under) later)
]

module _ {W : Type 0} {env : Backend W} (laws : PageLaws env) where
  shown :
      (limit viewer : ℕ) (found : List Video) (w : W) (resp : ListByPopularityResponse)
      → ((build_feed_videos env found viewer >>= λ items.
            pure (popularity_page env limit (pos 0) (pos 0) found items))
          w).0
        ≡ ok resp
      → (liked : ℕ → Bool) × (page_of limit (map (feed_item liked) found) found ≡ resp)
  unfolding build_feed_videos popularity_page pure ◌>>=◌
  shown limit viewer found w resp h =
      elim (Result-cases (batch_get_liked env (map (λ v. v.id) found) viewer w).0) [
        | inl (e, q) ↦ ground (arith, q, h)
        | inr (liked, q) ↦ (liked, ok_same _ _ (sym (served liked q) ∙ h))
      ]
    where
      served :
          (liked : ℕ → Bool)
          → (batch_get_liked env (map (λ v. v.id) found) viewer w).0 ≡ ok liked
          → ((build_feed_videos env found viewer >>= λ items.
                pure (popularity_page env limit (pos 0) (pos 0) found items))
              w).0
            ≡ ok (page_of limit (map (feed_item liked) found) found)
      served liked q = rw q refl

  -- Of every video in the table, for one page of the popularity ranking that MySQL gives: if it is
  -- not below the cursor that was sent, it is not in the answer, and the answer's cursor does not ask
  -- for it. If it is below, either it is in the answer, and the answer's cursor does not ask for it; or
  -- it is not in the answer, which says that there is more, and whose cursor asks for it. So following
  -- the cursors of an unchanged table shows each video on one page. The limit is positive, and the id
  -- is a primary key that begins at 1.
  pub list_by_popularity_from_db-InPopularAnswer :
      (limit : ℕ) (popularity : ℤ) (before : Option Time) (id_before viewer : ℕ) (w : W)
      (resp : ListByPopularityResponse)
      → 0 < limit
      → OneVideo (env.tables w)
      → ArePositive (env.tables w)
      → (list_by_popularity_from_db env limit popularity before id_before viewer w).0 ≡ ok resp
      → (v : Video) → Elem v (env.tables w).videos
      → InPopularAnswer (under_popularity popularity before id_before) v resp
  unfolding list_by_popularity_from_db find_by_popularity popularity_page build_feed_videos
  list_by_popularity_from_db-InPopularAnswer limit popularity before id_before viewer w resp
        some_left one positive h v i =
      let (found, q, step) =
        bind_ok (find_by_popularity env limit popularity before id_before) _ w resp h in
      let matches = under_popularity popularity before id_before in
      let answered =
        laws.find_videos-Answered (asked by_popularity by_popularity-IsTotal limit matches) w found
          by_popularity-IsTotal.order q in
      let (liked, made) = shown limit viewer found _ resp (ap (λ r. r.0) (sym step) ∙ h) in
      let items = map (feed_item liked) found in
      subst (InPopularAnswer matches v) made (
        subst
          (λ ids.
            InAnswer matches (admits_popular (page_of limit items found)) ids
              (length items == limit) v)
          (sym (feed_item_ids liked found))
          (answer-InAnswer by_popularity by_popularity-IsTotal limit matches (env.tables w) found v
            (admits_popular (page_of limit items found)) (length items == limit) some_left one
            (under_popularity-IsClosed popularity before id_before) answered i
            (λ full. ground (arith, full, length-map (feed_item liked) found))
            (admits_after limit items found v (λ last e.
              positive last
                (page_row by_popularity by_popularity-IsTotal limit matches (env.tables w).videos
                  found last answered (last_of-Elem found last e)).0))))
