-- ===== src/Feed/Merge/Top.antt =====
-- `mergeAndDedup` as a whole: which videos it returns, and in what order.
use mathlib.Core.List.{Permᴰ, append-nil, append_assoc}
use feed_system_golang.Base.{
  ℕ, zero, suc, ◌-◌, ◌≤◌, ◌≡◌, refl, sym, ap, subst, ◌∙◌, inl, inr, ltb, true, false, none, some,
  List, [], ◌∷◌, ◌++◌, length, length-append, All, arith, Bool-cases,
}
use feed_system_golang.Feed.Merge.{
  VideoWithTime, MergeItem, less, Heap, Progress, collect, mark, refill, merge_loop,
}
use feed_system_golang.Feed.Merge.Laws.{HeapLaws}
use feed_system_golang.Feed.Merge.Step.{weight}
use feed_system_golang.Feed.Merge.Pop
use feed_system_golang.Feed.Merge.Rounds.{
  ids, Merged, Merged-full, Merged-empty, Merged-skip, Merged-take,
}

module _ (heap : Heap MergeItem) (laws : HeapLaws less heap) where
  abbrev Added : ℕ → ℕ → List MergeItem → Progress → Type 0
  Added fuel limit h p =
      (picks : List VideoWithTime) × (merge_loop heap fuel limit h p ≡ p.result ++ ids picks)
      × Merged (limit - length p.result) h p.seen picks

  Added-stop :
      (fuel limit : ℕ) (h : List MergeItem) (p : Progress)
      → merge_loop heap fuel limit h p ≡ p.result
      → Merged (limit - length p.result) h p.seen []
      → Added fuel limit h p
  Added-stop fuel limit h p e m = ([], e ∙ sym (append-nil p.result), m)

  collect-seen : (v : VideoWithTime) (p : Progress) → p.seen v.video_id ≡ true → collect v p ≡ p
  unfolding collect
  collect-seen v p e = rw (e, collect)

  collect-new :
      (v : VideoWithTime) (p : Progress)
      → p.seen v.video_id ≡ false
      → collect v p ≡ record { seen = mark v.video_id p.seen; result = p.result ++ v.video_id ∷ [] }
  unfolding collect
  collect-new v p e = rw (e, collect)

  merge_loop-full :
      (fuel limit : ℕ) (h : List MergeItem) (p : Progress)
      → ltb (length p.result) limit ≡ false
      → merge_loop heap (suc fuel) limit h p ≡ p.result
  unfolding merge_loop
  merge_loop-full fuel limit h p e = rw (e, merge_loop)

  merge_loop-empty :
      (fuel limit : ℕ) (h : List MergeItem) (p : Progress)
      → ltb (length p.result) limit ≡ true
      → heap.pop h ≡ none
      → merge_loop heap (suc fuel) limit h p ≡ p.result
  unfolding merge_loop
  merge_loop-empty fuel limit h p e q = rw (e, q, merge_loop)

  merge_loop-pop :
      (fuel limit : ℕ) (h r : List MergeItem) (x : MergeItem) (p : Progress)
      → ltb (length p.result) limit ≡ true
      → heap.pop h ≡ some (x, r)
      → merge_loop heap (suc fuel) limit h p
        ≡ merge_loop heap fuel limit (refill heap x.cursor r) (collect x.video p)
  unfolding merge_loop
  merge_loop-pop fuel limit h r x p e q = rw (e, q, merge_loop)

  module _ (fuel limit : ℕ) (h r : List MergeItem) (x : MergeItem) (p : Progress)
      (room : ltb (length p.result) limit ≡ true) (q : heap.pop h ≡ some (x, r)) (o : laws.IsHeap r)
      (perm : Permᴰ h (x ∷ r)) (least : All (λ b. less b x ≡ false) r) where
    Added-skip :
        p.seen x.video.video_id ≡ true
        → Added fuel limit (refill heap x.cursor r) (collect x.video p)
        → Added (suc fuel) limit h p
    Added-skip s next =
        let (picks, e, m) =
          subst (Added fuel limit (refill heap x.cursor r)) (collect-seen x.video p s) next in
        (
          picks,
          merge_loop-pop fuel limit h r x p room q
              ∙ ap (merge_loop heap fuel limit (refill heap x.cursor r)) (collect-seen x.video p s)
              ∙ e,
          Merged-skip heap laws h r x o perm least (limit - length p.result) p.seen picks s m,
        )

    Added-take :
        p.seen x.video.video_id ≡ false
        → Added fuel limit (refill heap x.cursor r) (collect x.video p)
        → Added (suc fuel) limit h p
    Added-take s next =
        let (picks, e, m) =
          subst (Added fuel limit (refill heap x.cursor r)) (collect-new x.video p s) next in
        let k = limit - length p.result - 1 in
        let fewer : limit - length (p.result ++ x.video.video_id ∷ []) ≡ k =
          omega (arith, length-append p.result (x.video.video_id ∷ [])) in
        let more : suc k ≡ limit - length p.result = ground arith in
        let m' : Merged k (refill heap x.cursor r) (mark x.video.video_id p.seen) picks =
          subst (λ n. Merged n (refill heap x.cursor r) (mark x.video.video_id p.seen) picks) fewer
            m in
        (
          x.video ∷ picks,
          merge_loop-pop fuel limit h r x p room q
              ∙ ap (merge_loop heap fuel limit (refill heap x.cursor r)) (collect-new x.video p s)
              ∙ e
              ∙ append_assoc p.result (x.video.video_id ∷ []) (ids picks),
          subst (λ n. Merged n h p.seen (x.video ∷ picks)) more
              (Merged-take heap laws h r x o perm least k p.seen picks s m'),
        )

    Added-pop :
        Added fuel limit (refill heap x.cursor r) (collect x.video p) → Added (suc fuel) limit h p
    Added-pop next = elim (Bool-cases (p.seen x.video.video_id)) [
      | inl s ↦ Added-skip s next
      | inr s ↦ Added-take s next
    ]

  pub merge_loop-Added :
      (fuel limit : ℕ) (h : List MergeItem) (p : Progress)
      → weight h ≤ fuel
      → laws.IsHeap h
      → Added fuel limit h p
  merge_loop-Added zero limit [] p w g =
      Added-stop zero limit [] p (unfold merge_loop in refl)
        (Merged-empty p.seen (limit - length p.result))
  merge_loop-Added zero limit (m ∷ h) p w g = absurd (omega arith)
  merge_loop-Added (suc fuel) limit h p w g = elim (Bool-cases (ltb (length p.result) limit)) [
    | inl room ↦ elim (laws.pop_cases h g) [
      | inl (e, q) ↦
          Added-stop (suc fuel) limit h p (merge_loop-empty fuel limit h p room q)
            (rw e (Merged-empty p.seen (limit - length p.result)))
      | inr (x, r, q, o, perm, least) ↦ Added-pop fuel limit h r x p room q o perm least (
          merge_loop-Added fuel limit (refill heap x.cursor r) (collect x.video p)
            (omega (arith, Pop.weight-pop heap laws h r x o perm least))
            (Pop.refill-IsHeap heap laws h r x o perm least))
    ]
    | inr full ↦
        Added-stop (suc fuel) limit h p (merge_loop-full fuel limit h p full)
          (Merged-full h p.seen (limit - length p.result) (ground arith))
  ]
