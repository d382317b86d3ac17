-- ===== src/Feed/Cursor.antt =====
-- A page of a query with an order and a limit, and the rows that come after its last one: what is
-- relied on, and what a client that goes on after the last row gets to see.
use feed_system_golang.Base.{
  Elem-select, Elem-take-drop, Elem-take, length-take_full, ℕ, ◌<◌, ◌≡◌, refl, sym, ap, subst, ◌∙◌,
  ◌⊎◌, inl, inr, Bool, true, false, Option, none, some, List, length, take, drop, select,
  select-Elem, select-passes, Elem, Elem-map, Elem-map_inv, Elem-perm, map, [], ◌∷◌, arith,
  Bool-cases, Option-cases, ok,
}
use mathlib.Core.List.{Permᴰ}
use mathlib.Core.List.Permᴰ
use feed_system_golang.Backend.{Backend}
use feed_system_golang.Backend.Entity.{Video}
use feed_system_golang.Backend.Sql.{Tables, Query}
use feed_system_golang.Feed.Listing.{last_of, feed_item}
use feed_system_golang.Feed.Sorting.{
  Sorted, IsOrder, Sorted-take, Sorted-cut, last_of-Elem, last_of-some, last_of-Sorted,
}

abbrev pub limited : {A : Type 0} → Option ℕ → List A → List A
limited none xs = xs
limited (some n) xs = take n xs

-- The rows that match, in the query's order, from the offset on, as many as the limit says.
abbrev pub Answered : Query Video → List Video → List Video → Type 0
Answered q rows found =
    (all : List Video) × Permᴰ (select q.matches rows) all
    × Sorted q.before all
    × (found ≡ limited q.limit (drop q.offset all))

pub record PageLaws {W : Type 0} (env : Backend W) : Type 0 where
  pub find_videos-Answered :
      (q : Query Video) (w : W) (found : List Video)
      → IsOrder q.before
      → (env.find_videos q w).0 ≡ ok found
      → Answered q (env.tables w).videos found

-- The id is a primary key.
abbrev pub OneVideo : Tables → Type 0
OneVideo t = (a b : Video) → Elem a t.videos → Elem b t.videos → a.id ≡ b.id → a ≡ b

-- Is a video after the page's last one? Without a last one the list is at its end.
abbrev pub is_after : (Video → Video → Bool) → Option Video → Video → Bool
is_after before none v = false
is_after before (some last) v = before last v

-- A video that the page was not asked for is not in it, nor after its last one. One that it was asked
-- for is in it, and not after its last one; or the page is full, and the video is not in it, but after
-- its last one.
abbrev pub InPage : (Video → Video → Bool) → (Video → Bool) → ℕ → List Video → Video → Type 0
InPage before matches limit found v =
    ((matches v ≡ false) × (¬ Elem v found) × (is_after before (last_of found) v ≡ false))
    ⊎ ((matches v ≡ true) × Elem v found × (is_after before (last_of found) v ≡ false))
    ⊎ ((matches v ≡ true)
        × (¬ Elem v found)
        × (length found ≡ limit)
        × (is_after before (last_of found) v ≡ true))

-- The same of the ids that an answer shows, and of the videos that its cursor asks for next: a video
-- that was not asked for is neither shown nor asked for next. One that was asked for is shown and not
-- asked for next; or it is not shown, there is more, and it is asked for next.
abbrev pub InAnswer : (Video → Bool) → (Video → Bool) → List ℕ → Bool → Video → Type 0
InAnswer matches next ids has_more v =
    ((matches v ≡ false) × (¬ Elem v.id ids) × (next v ≡ false))
    ⊎ ((matches v ≡ true) × Elem v.id ids × (next v ≡ false))
    ⊎ ((matches v ≡ true) × (¬ Elem v.id ids) × (has_more ≡ true) × (next v ≡ true))

-- What comes after a row that was asked for was asked for too.
abbrev pub IsClosed : (Video → Video → Bool) → (Video → Bool) → Type 0
IsClosed before matches =
    (last v : Video) → matches last ≡ true → before last v ≡ true → matches v ≡ true

-- An order in which only videos with one id stand side by side.
pub record IsTotal (before : Video → Video → Bool) : Type 0 where
  pub order : IsOrder before
  pub same_ids : (v w : Video) → before v w ≡ false → before w v ≡ false → v.id ≡ w.id

module _ (before : Video → Video → Bool) (total : IsTotal before) (limit : ℕ)
    (matches : Video → Bool) where
  abbrev pub asked : Query Video
  asked = record { matches = matches; before = before; offset = 0; limit = some limit }

  kept-InPage :
      (all : List Video) (v : Video)
      → Sorted before all
      → (o : Option Video) → last_of (take limit all) ≡ o
      → Elem v (take limit all)
      → is_after before o v ≡ false
  kept-InPage all v s none e i = refl
  kept-InPage all v s (some last) e i =
      last_of-Sorted before total.order (take limit all) last v (Sorted-take before limit all s) e i

  -- One that was asked for.
  ShownOrLeft : List Video → Video → Type 0
  ShownOrLeft found v =
      (Elem v found × (is_after before (last_of found) v ≡ false))
      ⊎ ((length found ≡ limit) × (is_after before (last_of found) v ≡ true))

  page-ShownOrLeft :
      (t : Tables) (found : List Video) (v : Video)
      → 0 < limit
      → OneVideo t
      → Answered asked t.videos found
      → Elem v t.videos
      → matches v ≡ true
      → ShownOrLeft found v
  unfolding ShownOrLeft
  page-ShownOrLeft t found v some_left one (all, perm, sorted, e) i under =
      subst (λ l. ShownOrLeft l v) (sym e)
        (elim (Elem-take-drop limit all v
          (Elem-perm v perm (Elem-select matches t.videos v i under))) [
            | inl kept ↦ inl (kept, kept-InPage all v sorted (last_of (take limit all)) refl kept)
            | inr cut ↦
                let full = length-take_full limit all v cut in
                let (last, is_last) = last_of-some (take limit all) (omega arith) in
                let is_kept = last_of-Elem (take limit all) last is_last in
                elim (Bool-cases (before last v)) [
                  | inl later ↦ inr (full, ap (λ o. is_after before o v) is_last ∙ later)
                  | inr no_later ↦
                      let there =
                        select-Elem matches t.videos last
                          (Elem-perm last (Permᴰ.symm perm) (Elem-take limit all last is_kept)) in
                      let same : v ≡ last = one v last i there (
                        total.same_ids v last
                          (Sorted-cut before limit all last v sorted is_kept cut) no_later) in
                      let kept = subst (λ x. Elem x (take limit all)) (sym same) is_kept in
                      inl (kept, kept-InPage all v sorted (last_of (take limit all)) refl kept)
                ]
          ])

  -- The rows of a page are rows of the table, and were asked for.
  pub page_row :
      (rows found : List Video) (v : Video)
      → Answered asked rows found
      → Elem v found
      → Elem v rows × (matches v ≡ true)
  page_row rows found v (all, perm, sorted, e) i =
      let selected = Elem-perm v (Permᴰ.symm perm) (Elem-take limit all v (subst (Elem v) e i)) in
      (select-Elem matches rows v selected, select-passes matches rows v selected)

  -- The last row of a page is not before another of them.
  kept_not_after :
      (rows found : List Video) (v : Video)
      → Answered asked rows found
      → Elem v found
      → is_after before (last_of found) v ≡ false
  kept_not_after rows found v (all, perm, sorted, e) i =
      subst (λ l. is_after before (last_of l) v ≡ false) (sym e)
        (kept-InPage all v sorted (last_of (take limit all)) refl (subst (Elem v) e i))

  unasked_not_after :
      (rows found : List Video) (v : Video)
      → IsClosed before matches
      → Answered asked rows found
      → matches v ≡ false
      → is_after before (last_of found) v ≡ false
  unasked_not_after rows found v closed answered out = elim (Option-cases (last_of found)) [
    | inl ended ↦ rw ended refl
    | inr (last, q) ↦ rw q (elim (Bool-cases (before last v)) [
      | inr no_later ↦ no_later
      | inl later ↦
          let (_, asked_last) = page_row rows found last answered (last_of-Elem found last q) in
          let wrong = closed last v asked_last later in ground (arith, wrong, out)
    ])
  ]

  page-InPage :
      (t : Tables) (found : List Video) (v : Video)
      → 0 < limit
      → OneVideo t
      → IsClosed before matches
      → Answered asked t.videos found
      → Elem v t.videos
      → InPage before matches limit found v
  unfolding ShownOrLeft
  page-InPage t found v some_left one closed answered i = elim (Bool-cases (matches v)) [
    | inr out ↦ inl (
      out,
      (λ j. let (_, under) = page_row t.videos found v answered j in ground (arith, under, out)),
      unasked_not_after t.videos found v closed answered out,
    )
    | inl under ↦ elim (page-ShownOrLeft t found v some_left one answered i under) [
      | inl (shown, ended) ↦ inr (inl (under, shown, ended))
      | inr (full, later) ↦ inr (
          inr (
            under,
            (λ j.
                let kept = kept_not_after t.videos found v answered j in
                ground (arith, kept, later)),
            full,
            later,
          ))
    ]
  ]

  module _ (t : Tables) (found : List Video) (v : Video) (one : OneVideo t)
      (answered : Answered asked t.videos found) (i : Elem v t.videos) where
    -- A row whose id is shown is on the page.
    shown_row : Elem v.id (map (λ w. w.id) found) → Elem v found
    shown_row j =
        let (w, k, e) = Elem-map_inv (λ w. w.id) v.id found j in
        let (there, _) = page_row t.videos found w answered k in
        subst (λ u. Elem u found) (sym (one v w i there e)) k

    page-InAnswer :
        (next : Video → Bool) (has_more : Bool)
        → (length found ≡ limit → has_more ≡ true)
        → next v ≡ is_after before (last_of found) v
        → InPage before matches limit found v
        → InAnswer matches next (map (λ w. w.id) found) has_more v
    page-InAnswer next has_more full_more same (inl (out, absent, after)) =
        inl (out, (λ j. absent (shown_row j)), same ∙ after)
    page-InAnswer next has_more full_more same (inr (inl (under, shown, after))) =
        inr (inl (under, Elem-map (λ w. w.id) v found shown, same ∙ after))
    page-InAnswer next has_more full_more same (inr (inr (under, absent, full, after))) =
        inr (inr (under, (λ j. absent (shown_row j)), full_more full, same ∙ after))

  -- What the answer to a page shows and leaves.
  pub answer-InAnswer :
      (t : Tables) (found : List Video) (v : Video) (next : Video → Bool) (has_more : Bool)
      → 0 < limit
      → OneVideo t
      → IsClosed before matches
      → Answered asked t.videos found
      → Elem v t.videos
      → (length found ≡ limit → has_more ≡ true)
      → next v ≡ is_after before (last_of found) v
      → InAnswer matches next (map (λ w. w.id) found) has_more v
  answer-InAnswer t found v next has_more some_left one closed answered i full_more same =
      page-InAnswer t found v one answered i next has_more full_more same
        (page-InPage t found v some_left one closed answered i)

-- An order that asks for what comes after a given place is closed.
pub order-IsClosed :
    (before : Video → Video → Bool) (o : IsOrder before) (place : Video)
    → IsClosed before (before place)
order-IsClosed before o place last v under later = elim (Bool-cases (before place v)) [
  | inl good ↦ good
  | inr bad ↦
      let wrong = o.negtrans last v place (o.asym last v later) bad in ground (arith, wrong, under)
]

-- The items of an answer show the ids of its videos.
pub feed_item_ids :
    (liked : ℕ → Bool) (found : List Video)
    → map (λ i. i.id) (map (feed_item liked) found) ≡ map (λ v. v.id) found
feed_item_ids liked [] = refl
feed_item_ids liked (v ∷ vs) = ap (λ l. v.id ∷ l) (feed_item_ids liked vs)
