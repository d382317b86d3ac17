-- ===== src/Feed/Pages.antt =====
-- The pages of ListLikesCount: what is relied on of a query with an order and a limit, and what a
-- client that follows the cursors gets to see.
use feed_system_golang.Base.{
  ok_same, ℕ, ◌<◌, ◌≡◌, refl, sym, ap, subst, ◌∙◌, inl, inr, Bool, false, Option, none, some, List,
  length, map, Elem, arith, Option-cases, Result-cases, ok, ◌>>=◌, ◌==◌,
}
use feed_system_golang.Backend.{Backend}
use feed_system_golang.Backend.Entity.{Video}
use feed_system_golang.Backend.Keeps.{bind_ok}
use feed_system_golang.Feed.Repo.{
  LikesCountCursor, by_likes, under_likes, find_by_likes, batch_get_liked,
}
use feed_system_golang.Feed.Listing.{
  ListLikesCountResponse, feed_item, last_of, build_feed_videos, likes_page, list_likes_count,
}
use feed_system_golang.Feed.Cursor.{
  PageLaws, OneVideo, is_after, IsTotal, IsClosed, InAnswer, asked, answer-InAnswer, feed_item_ids,
}
use feed_system_golang.Feed.Sorting.{IsOrder}

pub by_likes-IsOrder : IsOrder by_likes
by_likes-IsOrder = record { asym = λ a b h. ground arith; negtrans = λ a b c h k. ground arith }

-- Does a cursor let a video through? No cursor means that the list is at its end.
abbrev pub admits : Option LikesCountCursor → Video → Bool
admits none v = false
admits (some c) v = under_likes (some c) v

abbrev pub cursor_after : Option Video → Option LikesCountCursor
cursor_after none = none
cursor_after (some v) = some (record { likes_count = v.likes_count; id = v.id })

pub by_likes-IsTotal : IsTotal by_likes
by_likes-IsTotal = record { order = by_likes-IsOrder; same_ids = λ v w h k. ground arith }

under_likes-IsClosed : (cursor : Option LikesCountCursor) → IsClosed by_likes (under_likes cursor)
under_likes-IsClosed none last v under later = refl
under_likes-IsClosed (some c) last v under later = ground (arith, under, later)

-- The cursor that a client sends for the next page.
abbrev pub next_cursor : ListLikesCountResponse → Option LikesCountCursor
next_cursor resp = elim resp.next_likes_count_before [
  | none ↦ none
  | some likes_count ↦ elim resp.next_id_before [
    | none ↦ none
    | some id ↦ some (record { likes_count = likes_count; id = id })
  ]
]

-- What an answer to the cursor shows of a video, and what its own cursor asks for.
abbrev pub InOneAnswer : Option LikesCountCursor → Video → ListLikesCountResponse → Type 0
InOneAnswer cursor v resp =
    InAnswer (under_likes cursor) (admits (next_cursor resp)) (map (λ i. i.id) resp.video_list)
      resp.has_more v

-- The answer that is built of a page and the map of the liked videos.
abbrev answer_of : ℕ → (ℕ → Bool) → List Video → ListLikesCountResponse
answer_of limit liked found = record {
  video_list = map (feed_item liked) found;
  next_likes_count_before = elim (last_of found) [ none ↦ none | some v ↦ some v.likes_count ];
  next_id_before = elim (last_of found) [ none ↦ none | some v ↦ some v.id ];
  has_more = length found == limit;
}

next_cursor_after :
    (limit : ℕ) (liked : ℕ → Bool) (found : List Video)
    → next_cursor (answer_of limit liked found) ≡ cursor_after (last_of found)
next_cursor_after limit liked found = elim (Option-cases (last_of found)) [
  | inl ended ↦ ground (arith, ended)
  | inr (v, last) ↦ ground (arith, last)
]

admits_after :
    (limit : ℕ) (liked : ℕ → Bool) (found : List Video) (v : Video)
    → admits (next_cursor (answer_of limit liked found)) v ≡ is_after by_likes (last_of found) v
admits_after limit liked found v =
    ap (λ c. admits c v) (next_cursor_after limit liked found) ∙ after (last_of found)
  where
    after : (o : Option Video) → admits (cursor_after o) v ≡ is_after by_likes o v
    after none = refl
    after (some last) = refl

module _ {W : Type 0} {env : Backend W} (laws : PageLaws env) where
  -- The answer is built of the page.
  served :
      (limit viewer : ℕ) (found : List Video) (w : W) (resp : ListLikesCountResponse)
      → (likes_page env limit viewer found w).0 ≡ ok resp
      → (liked : ℕ → Bool) × (answer_of limit liked found ≡ resp)
  unfolding likes_page build_feed_videos ◌>>=◌
  served limit viewer found w resp h =
      elim (Result-cases (batch_get_liked env (map (λ v. v.id) found) viewer w).0) [
        | inl (e, q) ↦ ground (arith, q, h)
        | inr (liked, q) ↦
            let step : (likes_page env limit viewer found w).0 ≡ ok (answer_of limit liked found) =
              ground (arith, q) in
            (liked, ok_same _ _ (sym step ∙ h))
      ]

  -- Of every video in the table, for one page of ListLikesCount: if it is not below the cursor that
  -- was sent, it is not in the answer, and the answer's cursor does not ask for it. If it is below,
  -- either it is in the answer, and the answer's cursor does not ask for it; or it is not in the
  -- answer, which says that there is more, and whose cursor asks for it. So following the cursors of
  -- an unchanged table shows each video on one page. The limit is positive, and the id is a primary
  -- key.
  pub list_likes_count-InOneAnswer :
      (limit : ℕ) (cursor : Option LikesCountCursor) (viewer : ℕ) (w : W)
      (resp : ListLikesCountResponse)
      → 0 < limit
      → OneVideo (env.tables w)
      → (list_likes_count env limit cursor viewer w).0 ≡ ok resp
      → (v : Video) → Elem v (env.tables w).videos
      → InOneAnswer cursor v resp
  unfolding list_likes_count find_by_likes
  list_likes_count-InOneAnswer limit cursor viewer w resp some_left one h v i =
      let (found, q, step) =
        bind_ok (find_by_likes env limit cursor) (likes_page env limit viewer) w resp h in
      let (liked, made) = served limit viewer found _ resp (ap (λ r. r.0) (sym step) ∙ h) in
      let answered =
        laws.find_videos-Answered (asked by_likes by_likes-IsTotal limit (under_likes cursor)) w
          found by_likes-IsOrder q in
      subst (InOneAnswer cursor v) made (
        subst
          (λ ids.
            InAnswer (under_likes cursor) (admits (next_cursor (answer_of limit liked found))) ids
              (length found == limit) v)
          (sym (feed_item_ids liked found))
          (answer-InAnswer by_likes by_likes-IsTotal limit (under_likes cursor) (env.tables w) found
            v (admits (next_cursor (answer_of limit liked found))) (length found == limit) some_left
            one (under_likes-IsClosed cursor) answered i (λ full. ground (arith, full))
            (admits_after limit liked found v)))
