-- ===== src/Feed/Sample.antt =====
-- A database that sorts what it answers, and three videos on it.
use mathlib.Core.List.{Permᴰ}
use mathlib.Core.List.Permᴰ
use feed_system_golang.Base.{
  ok_same, ℕ, ◌≡◌, inl, inr, refl, sym, subst, pos, Bool, true, false, List, [], ◌∷◌, select, drop,
  All-Elem, All-at, Elem, Elem-perm, ok, if◌then◌else◌,
}
use feed_system_golang.Backend.{Backend}
use feed_system_golang.Backend.Entity.{Video}
use feed_system_golang.Backend.Sql.{Query}
use feed_system_golang.Backend.Memory.{Memory, memory, memory_of, no_tables}
use feed_system_golang.Feed.Sorting.{Sorted, IsOrder}
use feed_system_golang.Feed.Cursor.{PageLaws, limited}

abbrev put_in : {A : Type 0} → (A → A → Bool) → A → List A → List A
put_in before x [] = x ∷ []
put_in before x (y ∷ ys) =
    let rest = put_in before x ys in if before y x then y ∷ rest else x ∷ y ∷ ys

abbrev in_order : {A : Type 0} → (A → A → Bool) → List A → List A
in_order before [] = []
in_order before (x ∷ xs) = put_in before x (in_order before xs)

module _ {A : Type 0} (before : A → A → Bool) (o : IsOrder before) where
  put_in-perm : (x : A) (l : List A) → Permᴰ (x ∷ l) (put_in before x l)
  put_in-perm x [] = Permᴰ.cons refl Permᴰ.nil
  put_in-perm x (y ∷ ys) = go (put_in-perm x ys) (before y x)
    where
      go :
          Permᴰ (x ∷ ys) (put_in before x ys)
          → (b : Bool) → Permᴰ (x ∷ y ∷ ys) (if b then y ∷ put_in before x ys else x ∷ y ∷ ys)
      go p true = Permᴰ.trans (Permᴰ.swap refl refl) (Permᴰ.cons refl p)
      go p false = Permᴰ.refl (x ∷ y ∷ ys)

  in_order-perm : (l : List A) → Permᴰ l (in_order before l)
  in_order-perm [] = Permᴰ.nil
  in_order-perm (x ∷ xs) =
      Permᴰ.trans (Permᴰ.cons refl (in_order-perm xs)) (put_in-perm x (in_order before xs))

  put_in-Sorted : (x : A) (l : List A) → Sorted before l → Sorted before (put_in before x l)
  put_in-Sorted x [] s = (tt, tt)
  put_in-Sorted x (y ∷ ys) (a, s) = go (put_in-Sorted x ys s) (before y x) refl
    where
      follows : (z : A) → Elem z (put_in before x ys) → before y x ≡ true → before z y ≡ false
      follows z i h = elim (Elem-perm z (Permᴰ.symm (put_in-perm x ys)) i) [
        | inl e ↦ subst (λ u. before u y ≡ false) (sym e) (o.asym y x h)
        | inr j ↦ All-at (λ u. before u y ≡ false) ys a z j
      ]

      go :
          Sorted before (put_in before x ys)
          → (b : Bool) → before y x ≡ b
          → Sorted before (if b then y ∷ put_in before x ys else x ∷ y ∷ ys)
      go p true h =
          (All-Elem (λ z. before z y ≡ false) (put_in before x ys) (λ z i. follows z i h), p)
      go p false h = (
        (
          h,
          All-Elem (λ z. before z x ≡ false) ys
              (λ z i. o.negtrans x y z h (All-at (λ u. before u y ≡ false) ys a z i)),
        ),
        (a, s),
      )

  in_order-Sorted : (l : List A) → Sorted before (in_order before l)
  in_order-Sorted [] = tt
  in_order-Sorted (x ∷ xs) = put_in-Sorted x (in_order before xs) (in_order-Sorted xs)

abbrev found_in : Query Video → List Video → List Video
found_in q rows = limited q.limit (drop q.offset (in_order q.before (select q.matches rows)))

abbrev pub sorting : Backend Memory
sorting = record memory { find_videos = λ q m. (ok (found_in q m.tables.videos), m) }

pub sorting-PageLaws : PageLaws sorting
sorting-PageLaws = record {
  find_videos-Answered = λ q w found o h. (
    in_order q.before (select q.matches w.tables.videos),
    in_order-perm q.before o (select q.matches w.tables.videos),
    in_order-Sorted q.before o (select q.matches w.tables.videos),
    sym (ok_same _ _ h),
  );
}

abbrev pub video_of : ℕ → ℕ → Video
video_of id likes = record {
  id = id;
  author_id = 1;
  username = "ann";
  title = "t";
  description = "";
  play_url = "p";
  cover_url = "c";
  create_time = pos 5;
  likes_count = pos likes;
  popularity = pos 0;
}

abbrev pub three : Memory
three = memory_of (record no_tables { videos = video_of 1 4 ∷ video_of 2 9 ∷ video_of 3 4 ∷ [] })
