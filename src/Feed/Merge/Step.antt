-- ===== src/Feed/Merge/Step.antt =====
-- One round of the merge: what leaves the heap and what comes in.
use mathlib.Core.List.{Permᴰ}
use mathlib.Core.List.Permᴰ
use feed_system_golang.Base.{
  ℕ, zero, suc, ◌+◌, ◌≡◌, refl, ap, ◌∙◌, ◌⊎◌, inl, inr, ◌≤ℤ◌, none, some, List, [], ◌∷◌, length,
  get_elem?, drop, All, Elem, Elem-perm, Option-cases, arith,
}
use feed_system_golang.Feed.Merge.{
  VideoWithTime, StreamCursor, MergeItem, less, Heap, peek, advance, remaining, refill,
}
use feed_system_golang.Feed.Merge.Laws.{HeapLaws}

-- Newest first.
abbrev pub Descending : List VideoWithTime → Type 0
Descending [] = Unit {0}
Descending (v ∷ vs) = All (λ w. w.create_time ≤ℤ v.create_time) vs × Descending vs

-- The video of an item and those behind it.
abbrev pub stream : MergeItem → List VideoWithTime
stream m = m.video ∷ remaining m.cursor

-- A video that some item of the heap has yet to deliver.
abbrev pub Pending : VideoWithTime → List MergeItem → Type 0
Pending v h = (m : MergeItem) × Elem m h × Elem v (stream m)

abbrev pub AllDescending : List MergeItem → Type 0
AllDescending h = (m : MergeItem) → Elem m h → Descending (stream m)

abbrev pub weight : List MergeItem → ℕ
weight [] = 0
weight (m ∷ h) = length (stream m) + weight h

pub weight-perm : {g h : List MergeItem} → Permᴰ g h → weight g ≡ weight h
weight-perm Permᴰ.nil = refl
weight-perm (Permᴰ.cons e p) = omega (arith, ap (λ m. length (stream m)) e, weight-perm p)
weight-perm (Permᴰ.swap e f) =
    omega (arith, ap (λ m. length (stream m)) e, ap (λ m. length (stream m)) f)
weight-perm (Permᴰ.trans p q) = weight-perm p ∙ weight-perm q

drop-none : (vs : List VideoWithTime) (i : ℕ) → get_elem? vs i ≡ none → drop i vs ≡ []
drop-none [] zero h = refl
drop-none [] (suc i) h = refl
drop-none (v ∷ vs) zero h = cc
drop-none (v ∷ vs) (suc i) h = drop-none vs i h

drop-some :
    (vs : List VideoWithTime) (i : ℕ) (v : VideoWithTime)
    → get_elem? vs i ≡ some v
    → drop i vs ≡ v ∷ drop (suc i) vs
drop-some [] zero v h = cc
drop-some [] (suc i) v h = cc
drop-some (w ∷ vs) zero v h = cc
drop-some (w ∷ vs) (suc i) v h = drop-some vs i v h

-- A cursor at its end has nothing left; any other gives its next video and moves on.
pub peek_cases :
    (c : StreamCursor)
    → ((peek c ≡ none) × (remaining c ≡ []))
      ⊎ ((v : VideoWithTime) × (peek c ≡ some v) × (remaining c ≡ v ∷ remaining (advance c)))
unfolding peek advance
peek_cases c = elim (Option-cases (get_elem? c.items c.pos)) [
  | inl e ↦ inl (e, drop-none c.items c.pos e)
  | inr (v, e) ↦ inr (v, e, drop-some c.items c.pos v e)
]

module _ (heap : Heap MergeItem) (laws : HeapLaws less heap) where
  open laws use {IsHeap, push-IsHeap, push-perm}

  -- What `refill` leaves: the heap's items, and the cursor's videos as one more stream.
  pub record Refilled (c : StreamCursor) (h : List MergeItem) : Type 0 where
    pub ordered : IsHeap (refill heap c h)
    pub weighs : weight (refill heap c h) ≡ length (remaining c) + weight h
    pub old : (m : MergeItem) → Elem m h → Elem m (refill heap c h)
    pub new : (v : VideoWithTime) → Elem v (remaining c) → Pending v (refill heap c h)
    pub only : (m : MergeItem) → Elem m (refill heap c h) → Elem m h ⊎ (stream m ≡ remaining c)

  refill-none :
      (c : StreamCursor) (h : List MergeItem)
      → IsHeap h
      → peek c ≡ none
      → remaining c ≡ []
      → Refilled c h
  unfolding refill
  refill-none c h g e f = record {
    ordered = rw (e, refill) g;
    weighs = rw (e, refill, f) (omega arith);
    old = rw (e, refill) (λ m i. i);
    new = rw f (λ v i. absurd i);
    only = rw (e, refill) (λ m i. inl i);
  }

  refill-some :
      (c : StreamCursor) (h : List MergeItem) (v : VideoWithTime)
      → IsHeap h
      → peek c ≡ some v
      → remaining c ≡ v ∷ remaining (advance c)
      → Refilled c h
  unfolding refill
  refill-some c h v g e f =
      let item : MergeItem = record { video = v; cursor = advance c } in
      let p = push-perm item h in
      record {
        ordered = rw (e, refill) (push-IsHeap item h g);
        weighs = rw (e, refill, f) (weight-perm p);
        old = rw (e, refill) (λ m i. Elem-perm m (Permᴰ.symm p) (inr i));
        new = rw (e, refill, f) (λ w i. (item, Elem-perm item (Permᴰ.symm p) (inl refl), i));
        only =
            rw (e, refill, f)
              (λ m i. elim (Elem-perm m p i) [
                | inl q ↦ inr (ap (λ n. stream n) q)
                | inr j ↦ inl j
              ]);
      }

  pub refill-Refilled : (c : StreamCursor) (h : List MergeItem) → IsHeap h → Refilled c h
  refill-Refilled c h g = elim (peek_cases c) [
    | inl (e, f) ↦ refill-none c h g e f
    | inr (v, e, f) ↦ refill-some c h v g e f
  ]
