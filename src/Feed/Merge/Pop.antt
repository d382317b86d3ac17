-- ===== src/Feed/Merge/Pop.antt =====
-- A round of the merge seen from the heap: item `x` leaves `h`, `r` stays, and the cursor of `x`
-- comes back.
use mathlib.Core.List.{Permᴰ}
use mathlib.Core.List.Permᴰ
use feed_system_golang.Base.{
  suc, ◌≡◌, refl, sym, subst, ◌⊎◌, inl, inr, ◌≤ℤ◌, ltb_ℤ-false, ≤ℤ_trans, false, List, ◌∷◌, All,
  All-at, Elem, Elem-perm, arith,
}
use feed_system_golang.Feed.Merge.{VideoWithTime, MergeItem, less, Heap, remaining, refill}
use feed_system_golang.Feed.Merge.Laws.{HeapLaws}
use feed_system_golang.Feed.Merge.Step.{
  Descending, stream, Pending, AllDescending, weight, weight-perm, Refilled, refill-Refilled,
}

module _ (heap : Heap MergeItem) (laws : HeapLaws less heap) (h r : List MergeItem) (x : MergeItem)
    (ordered : laws.IsHeap r) (perm : Permᴰ h (x ∷ r)) (least : All (λ b. less b x ≡ false) r) where
  after : Refilled heap laws x.cursor r
  after = refill-Refilled heap laws x.cursor r ordered

  back : (m : MergeItem) → Elem m (x ∷ r) → Elem m h
  back m i = Elem-perm m (Permᴰ.symm perm) i

  pub Pending-pop :
      (v : VideoWithTime) → Pending v h → (v ≡ x.video) ⊎ Pending v (refill heap x.cursor r)
  Pending-pop v (m, i, j) = elim (Elem-perm m perm i) [
    | inl e ↦ elim (subst (λ n. Elem v (stream n)) e j) [
      | inl first ↦ inl first
      | inr behind ↦ inr (after.new v behind)
    ]
    | inr k ↦ inr (m, after.old m k, j)
  ]

  pub Pending-refill : (v : VideoWithTime) → Pending v (refill heap x.cursor r) → Pending v h
  Pending-refill v (m, i, j) = elim (after.only m i) [
    | inl k ↦ (m, back m (inr k), j)
    | inr e ↦ (x, back x (inl refl), inr (subst (λ vs. Elem v vs) e j))
  ]

  pub Pending-top : Pending x.video h
  Pending-top = (x, back x (inl refl), inl refl)

  pub AllDescending-refill : AllDescending h → AllDescending (refill heap x.cursor r)
  AllDescending-refill d m i = elim (after.only m i) [
    | inl k ↦ d m (back m (inr k))
    | inr e ↦ subst Descending (sym e) (d x (back x (inl refl))).1
  ]

  stream-le :
      (m : MergeItem) (v : VideoWithTime)
      → Descending (stream m)
      → Elem v (stream m)
      → v.create_time ≤ℤ m.video.create_time
  stream-le m v d (inl e) = rw e (omega arith)
  stream-le m v d (inr j) =
      All-at (λ w. w.create_time ≤ℤ m.video.create_time) (remaining m.cursor) d.0 v j

  -- What is still to come is no newer than what has left.
  pub Pending-le :
      AllDescending h
      → (v : VideoWithTime) → Pending v (refill heap x.cursor r)
      → v.create_time ≤ℤ x.video.create_time
  Pending-le d v (m, i, j) = elim (after.only m i) [
    | inl k ↦
        ≤ℤ_trans v.create_time m.video.create_time x.video.create_time
          (stream-le m v (d m (back m (inr k))) j)
          (ltb_ℤ-false m.video.create_time x.video.create_time
            (All-at (λ b. less b x ≡ false) r least m k))
    | inr e ↦ stream-le x v (d x (back x (inl refl))) (inr (subst (λ vs. Elem v vs) e j))
  ]

  pub weight-pop : weight h ≡ suc (weight (refill heap x.cursor r))
  weight-pop = omega (arith, weight-perm perm, after.weighs)

  pub refill-IsHeap : laws.IsHeap (refill heap x.cursor r)
  refill-IsHeap = after.ordered
