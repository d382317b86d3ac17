-- ===== src/Feed/Merge/Rounds.antt =====
-- What the loop of the merge adds to its result, from any heap and any set of seen videos.
use mathlib.Core.List.{Permᴰ}
use feed_system_golang.Base.{
  ℕ, suc, ◌≤◌, ◌≡◌, sym, ap, subst, ◌∙◌, ◌≢◌, ◌⊎◌, inl, inr, ◌≤ℤ◌, Bool, true, false, List, [], ◌∷◌,
  map, length, All, All-Elem, Elem, Elem-map_inv, Distinct, arith,
}
use feed_system_golang.Feed.Merge.{VideoWithTime, MergeItem, less, Heap, mark, refill}
use feed_system_golang.Feed.Merge.Laws.{HeapLaws}
use feed_system_golang.Feed.Merge.Step.{Descending, Pending, AllDescending}
use feed_system_golang.Feed.Merge.Pop

abbrev pub ids : List VideoWithTime → List ℕ
ids = map (λ v. v.video_id)

abbrev pub Newer : VideoWithTime → List VideoWithTime → Type 0
Newer v picks = (p : VideoWithTime) → Elem p picks → v.create_time ≤ℤ p.create_time

-- `picks` is what up to `n` more results are made of.
pub record Merged (n : ℕ) (h : List MergeItem) (seen : ℕ → Bool) (picks : List VideoWithTime)
    : Type 0 where
  pub sound : (p : VideoWithTime) → Elem p picks → Pending p h
  pub fresh : (p : VideoWithTime) → Elem p picks → seen p.video_id ≡ false
  pub distinct : Distinct (ids picks)
  pub short : length picks ≤ n
  pub complete :
      (v : VideoWithTime)
      → Pending v h
      → (seen v.video_id ≡ true) ⊎ (Elem v.video_id (ids picks) ⊎ (length picks ≡ n))
  pub descending : AllDescending h → Descending picks
  pub newest :
      AllDescending h
      → (v : VideoWithTime) → Pending v h
      → (seen v.video_id ≡ true) ⊎ (Elem v.video_id (ids picks) ⊎ Newer v picks)

pub Merged-full : (h : List MergeItem) (seen : ℕ → Bool) (n : ℕ) → n ≡ 0 → Merged n h seen []
Merged-full h seen n e = record {
  sound = λ p i. absurd i;
  fresh = λ p i. absurd i;
  distinct = tt;
  short = omega arith;
  complete = λ v i. inr (inr (sym e));
  descending = λ d. tt;
  newest = λ d v i. inr (inr (λ p j. absurd j));
}

pub Merged-empty : (seen : ℕ → Bool) (n : ℕ) → Merged n [] seen []
Merged-empty seen n = record {
  sound = λ p i. absurd i;
  fresh = λ p i. absurd i;
  distinct = tt;
  short = omega arith;
  complete = λ v i. absurd i.1;
  descending = λ d. tt;
  newest = λ d v i. absurd i.1;
}

mark-false : (id j : ℕ) (seen : ℕ → Bool) → mark id seen j ≡ false → (seen j ≡ false) × (id ≢ j)
mark-false id j seen h = ground arith

mark-true : (id j : ℕ) (seen : ℕ → Bool) → mark id seen j ≡ true → (j ≡ id) ⊎ (seen j ≡ true)
mark-true id j seen h = ground arith

module _ (heap : Heap MergeItem) (laws : HeapLaws less heap) (h r : List MergeItem) (x : MergeItem)
    (ordered : laws.IsHeap r) (perm : Permᴰ h (x ∷ r)) (least : All (λ b. less b x ≡ false) r)
    (n : ℕ) (seen : ℕ → Bool) (picks : List VideoWithTime) where
  rest : List MergeItem
  rest = refill heap x.cursor r

  popped : (v : VideoWithTime) → Pending v h → (v ≡ x.video) ⊎ Pending v (refill heap x.cursor r)
  popped = Pop.Pending-pop heap laws h r x ordered perm least

  kept : (v : VideoWithTime) → Pending v (refill heap x.cursor r) → Pending v h
  kept = Pop.Pending-refill heap laws h r x ordered perm least

  still : AllDescending h → AllDescending (refill heap x.cursor r)
  still = Pop.AllDescending-refill heap laws h r x ordered perm least

  -- The video that left the heap was in the result before.
  pub Merged-skip :
      seen x.video.video_id ≡ true
      → Merged n (refill heap x.cursor r) seen picks
      → Merged n h seen picks
  Merged-skip e m = record {
    sound = λ p i. kept p (m.sound p i);
    fresh = m.fresh;
    distinct = m.distinct;
    short = m.short;
    complete = λ v i. elim (popped v i) [
      | inl q ↦ inl (ap (λ (w : VideoWithTime). seen w.video_id) q ∙ e)
      | inr j ↦ m.complete v j
    ];
    descending = λ d. m.descending (still d);
    newest = λ d v i. elim (popped v i) [
      | inl q ↦ inl (ap (λ (w : VideoWithTime). seen w.video_id) q ∙ e)
      | inr j ↦ m.newest (still d) v j
    ];
  }

  module _ (e : seen x.video.video_id ≡ false)
      (m : Merged n (refill heap x.cursor r) (mark x.video.video_id seen) picks) where
    take_sound : (p : VideoWithTime) → Elem p (x.video ∷ picks) → Pending p h
    take_sound p (inl q) =
        subst (λ w. Pending w h) (sym q) (Pop.Pending-top heap laws h r x ordered perm least)
    take_sound p (inr i) = kept p (m.sound p i)

    take-fresh : (p : VideoWithTime) → Elem p (x.video ∷ picks) → seen p.video_id ≡ false
    take-fresh p (inl q) = ap (λ (w : VideoWithTime). seen w.video_id) q ∙ e
    take-fresh p (inr i) = (mark-false x.video.video_id p.video_id seen (m.fresh p i)).0

    take-Distinct : Distinct (ids (x.video ∷ picks))
    take-Distinct = (
      All-Elem (λ y. x.video.video_id ≢ y) (ids picks)
          (λ y i.
            let (p, j, q) = Elem-map_inv (λ v. v.video_id) y picks i in
            λ same. (mark-false x.video.video_id p.video_id seen (m.fresh p j)).1 (same ∙ q)),
      m.distinct,
    )

    take_complete :
        (v : VideoWithTime)
        → Pending v h
        → (seen v.video_id ≡ true)
          ⊎ (Elem v.video_id (ids (x.video ∷ picks)) ⊎ (length (x.video ∷ picks) ≡ suc n))
    take_complete v i = elim (popped v i) [
      | inl q ↦ inr (inl (inl (ap (λ (w : VideoWithTime). w.video_id) q)))
      | inr j ↦ elim (m.complete v j) [
        | inl s ↦ elim (mark-true x.video.video_id v.video_id seen s) [
          | inl same ↦ inr (inl (inl same))
          | inr old ↦ inl old
        ]
        | inr (inl k) ↦ inr (inl (inr k))
        | inr (inr k) ↦ inr (inr (ap suc k))
      ]
    ]

    Pending-below :
        AllDescending h
        → (v : VideoWithTime) → Pending v (refill heap x.cursor r)
        → v.create_time ≤ℤ x.video.create_time
    Pending-below = Pop.Pending-le heap laws h r x ordered perm least

    take-newest :
        AllDescending h
        → (v : VideoWithTime) → Pending v h
        → (seen v.video_id ≡ true)
          ⊎ (Elem v.video_id (ids (x.video ∷ picks)) ⊎ Newer v (x.video ∷ picks))
    take-newest d v i = elim (popped v i) [
      | inl q ↦ inr (inl (inl (ap (λ (w : VideoWithTime). w.video_id) q)))
      | inr j ↦ elim (m.newest (still d) v j) [
        | inl s ↦ elim (mark-true x.video.video_id v.video_id seen s) [
          | inl same ↦ inr (inl (inl same))
          | inr old ↦ inl old
        ]
        | inr (inl k) ↦ inr (inl (inr k))
        | inr (inr k) ↦ inr (inr (Newer-cons v j d k))
      ]
    ]
      where
        Newer-cons :
            (w : VideoWithTime)
            → Pending w (refill heap x.cursor r)
            → AllDescending h
            → Newer w picks
            → Newer w (x.video ∷ picks)
        Newer-cons w j d k p (inl q) = rw q (Pending-below d w j)
        Newer-cons w j d k p (inr l) = k p l

    -- The video that left the heap is the next result.
    pub Merged-take : Merged (suc n) h seen (x.video ∷ picks)
    Merged-take = record {
      sound = take_sound;
      fresh = take-fresh;
      distinct = take-Distinct;
      short = omega (arith, m.short);
      complete = take_complete;
      descending = λ d. (
        All-Elem (λ w. w.create_time ≤ℤ x.video.create_time) picks
            (λ w i. Pending-below d w (m.sound w i)),
        m.descending (still d),
      );
      newest = take-newest;
    }
