-- ===== src/Feed/Merge/Laws.antt =====
-- What the merge relies on of container/heap: `Push` adds an item, `Pop` takes out a least one.
use mathlib.Core.List.{Permᴰ}
use feed_system_golang.Base.{◌≡◌, ◌⊎◌, Bool, false, none, some, List, [], ◌∷◌, All}
use feed_system_golang.Feed.Merge.{Heap}

pub record HeapLaws {A : Type 0} (less : A → A → Bool) (heap : Heap A) : Type 1 where
  pub IsHeap : List A → Type 0
  pub nil-IsHeap : IsHeap []
  pub push-IsHeap : (a : A) (h : List A) → IsHeap h → IsHeap (heap.push a h)
  pub push-perm : (a : A) (h : List A) → Permᴰ (heap.push a h) (a ∷ h)
  pub pop_cases :
      (h : List A)
      → IsHeap h
      → ((h ≡ []) × (heap.pop h ≡ none))
        ⊎ ((a : A) × (r : List A) × (heap.pop h ≡ some (a, r))
            × IsHeap r
            × Permᴰ h (a ∷ r)
            × All (λ b. less b a ≡ false) r)
