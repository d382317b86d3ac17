-- ===== src/Feed/Merge/Ranking.antt =====
-- `mergeAndDedup` from its streams: it returns the newest videos, each once, newest first.
use feed_system_golang.Base.{
  ℕ, ◌+◌, ◌≤◌, ◌≡◌, refl, sym, subst, ◌∙◌, ◌⊎◌, inl, inr, false, List, [], ◌∷◌, length, length-map,
  Elem, Elem-map_inv, Distinct, arith,
}
use feed_system_golang.Feed.Merge.{
  VideoWithTime, StreamCursor, MergeItem, less, Heap, Progress, remaining, total, refill, seed,
  merge_and_dedup,
}
use feed_system_golang.Feed.Merge.Laws.{HeapLaws}
use feed_system_golang.Feed.Merge.Step.{
  Descending, Pending, AllDescending, weight, Refilled, refill-Refilled,
}
use feed_system_golang.Feed.Merge.Rounds.{ids, Newer, Merged}
use feed_system_golang.Feed.Merge.Top.{merge_loop-Added}

-- A video that one of the cursors has yet to deliver.
abbrev pub InStreams : VideoWithTime → List StreamCursor → Type 0
InStreams v cs = (c : StreamCursor) × Elem c cs × Elem v (remaining c)

abbrev pub StreamsDescending : List StreamCursor → Type 0
StreamsDescending cs = (c : StreamCursor) → Elem c cs → Descending (remaining c)

module _ (heap : Heap MergeItem) (laws : HeapLaws less heap) where
  -- The heap after every cursor has put in its first video.
  record Seeded (cs : List StreamCursor) (h : List MergeItem) : Type 0 where
    ordered : laws.IsHeap (seed heap cs h)
    weighs : weight (seed heap cs h) ≡ total cs + weight h
    from : (v : VideoWithTime) → Pending v (seed heap cs h) → Pending v h ⊎ InStreams v cs
    into : (v : VideoWithTime) → Pending v h ⊎ InStreams v cs → Pending v (seed heap cs h)
    sorted : AllDescending h → StreamsDescending cs → AllDescending (seed heap cs h)

  Seeded-nil : (h : List MergeItem) → laws.IsHeap h → Seeded [] h
  unfolding seed
  Seeded-nil h g = record {
    ordered = g;
    weighs = omega arith;
    from = λ v i. inl i;
    into = λ v i. elim i [ inl j ↦ j | inr j ↦ absurd j.1 ];
    sorted = λ d s. d;
  }

  module _ (c : StreamCursor) (cs : List StreamCursor) (h : List MergeItem)
      (after : Refilled heap laws c h) (rest : Seeded cs (refill heap c h)) where
    cons-from :
        (v : VideoWithTime)
        → Pending v (seed heap cs (refill heap c h))
        → Pending v h ⊎ InStreams v (c ∷ cs)
    cons-from v i = elim (rest.from v i) [
      | inl (m, j, k) ↦ elim (after.only m j) [
        | inl old ↦ inl (m, old, k)
        | inr e ↦ inr (c, inl refl, subst (λ vs. Elem v vs) e k)
      ]
      | inr (d, j, k) ↦ inr (d, inr j, k)
    ]

    cons-into :
        (v : VideoWithTime)
        → Pending v h ⊎ InStreams v (c ∷ cs)
        → Pending v (seed heap cs (refill heap c h))
    cons-into v (inl (m, j, k)) = rest.into v (inl (m, after.old m j, k))
    cons-into v (inr (d, inl e, k)) =
        rest.into v (inl (after.new v (subst (λ x. Elem v (remaining x)) e k)))
    cons-into v (inr (d, inr j, k)) = rest.into v (inr (d, j, k))

    cons-sorted :
        AllDescending h
        → StreamsDescending (c ∷ cs)
        → AllDescending (seed heap cs (refill heap c h))
    cons-sorted d s =
        rest.sorted
          (λ m i. elim (after.only m i) [
            | inl j ↦ d m j
            | inr e ↦ subst Descending (sym e) (s c (inl refl))
          ])
          (λ x i. s x (inr i))

    Seeded-cons : Seeded (c ∷ cs) h
    unfolding seed
    Seeded-cons = record {
      ordered = rest.ordered;
      weighs = omega (arith, rest.weighs, after.weighs);
      from = cons-from;
      into = cons-into;
      sorted = cons-sorted;
    }

  seed-Seeded : (cs : List StreamCursor) (h : List MergeItem) → laws.IsHeap h → Seeded cs h
  seed-Seeded [] h g = Seeded-nil h g
  seed-Seeded (c ∷ cs) h g =
      let after = refill-Refilled heap laws c h g in
      Seeded-cons c cs h after (seed-Seeded cs (refill heap c h) after.ordered)

  abbrev start : Progress
  start = record { seen = λ _. false; result = [] }

  module _ (cursors : List StreamCursor) (limit : ℕ) where
    seeded : Seeded cursors []
    seeded = seed-Seeded cursors [] laws.nil-IsHeap

    merged :
        (picks : List VideoWithTime) × (merge_and_dedup heap cursors limit ≡ ids picks)
        × Merged limit (seed heap cursors []) (λ _. false) picks
    unfolding merge_and_dedup
    merged =
        let (picks, e, m) =
          merge_loop-Added heap laws (total cursors) limit (seed heap cursors []) start
            (omega (arith, seeded.weighs)) seeded.ordered in
        (picks, e, subst (λ n. Merged n (seed heap cursors []) (λ _. false) picks) (omega arith) m)

    source : (v : VideoWithTime) → Pending v (seed heap cursors []) → InStreams v cursors
    source v i = elim (seeded.from v i) [ inl j ↦ absurd j.1 | inr j ↦ j ]

    -- The merge returns at most `limit` ids, none twice, and each of a video that stands in a stream.
    pub merge_sound :
        (length (merge_and_dedup heap cursors limit) ≤ limit)
        × Distinct (merge_and_dedup heap cursors limit)
        × ((id : ℕ)
            → Elem id (merge_and_dedup heap cursors limit)
            → (v : VideoWithTime) × InStreams v cursors × (id ≡ v.video_id))
    merge_sound =
        let (picks, e, m) = merged in
        (
          rw e (omega (arith, m.short, length-map (λ (v : VideoWithTime). v.video_id) picks)),
          rw e m.distinct,
          rw e (λ id i.
              let (v, j, q) = Elem-map_inv (λ w. w.video_id) id picks i in
              (v, source v (m.sound v j), q)),
        )

    -- Every video of every stream is returned, unless the result is full.
    pub merge_complete :
        (v : VideoWithTime)
        → InStreams v cursors
        → Elem v.video_id (merge_and_dedup heap cursors limit)
          ⊎ (length (merge_and_dedup heap cursors limit) ≡ limit)
    merge_complete v i =
        let (picks, e, m) = merged in
        rw e (elim (m.complete v (seeded.into v (inr i))) [
          | inl s ↦ cc
          | inr (inl k) ↦ inl k
          | inr (inr k) ↦ inr (length-map (λ (w : VideoWithTime). w.video_id) picks ∙ k)
        ])

    -- If each stream is newest first, the ids returned are those of videos of the streams, newest
    -- first, and a video that is not returned is no newer than any that is.
    pub merge-newest :
        StreamsDescending cursors
        → (picks : List VideoWithTime) × (merge_and_dedup heap cursors limit ≡ ids picks)
          × Descending picks
          × ((p : VideoWithTime) → Elem p picks → InStreams p cursors)
          × ((v : VideoWithTime)
              → InStreams v cursors
              → Elem v.video_id (ids picks) ⊎ Newer v picks)
    merge-newest s =
        let (picks, e, m) = merged in
        let d : AllDescending (seed heap cursors []) = seeded.sorted (λ x i. absurd i) s in
        (
          picks,
          e,
          m.descending d,
          (λ p i. source p (m.sound p i)),
          (λ v i. elim (m.newest d v (seeded.into v (inr i))) [ inl no_mark ↦ cc | inr k ↦ k ]),
        )
