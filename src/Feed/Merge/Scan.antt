-- ===== src/Feed/Merge/Scan.antt =====
-- A heap for tests: an unordered list that `pop` searches. It shows that `HeapLaws` can hold.
use mathlib.Core.List.{Permᴰ}
use mathlib.Core.List.Permᴰ
use feed_system_golang.Base.{
  ◌≡◌, refl, inl, inr, ◌⊎◌, true, false, some, none, Option, List, [], ◌∷◌, All, All-imp,
  if◌then◌else◌, Bool-cases, arith,
}
use feed_system_golang.Feed.Merge.{MergeItem, less, Heap}
use feed_system_golang.Feed.Merge.Laws.{HeapLaws}

extract : MergeItem → List MergeItem → MergeItem × List MergeItem
extract x [] = (x, [])
extract x (y ∷ ys) = let (m, r) = extract y ys in if less m x then (m, x ∷ r) else (x, m ∷ r)

scan_pop : List MergeItem → Option (MergeItem × List MergeItem)
scan_pop [] = none
scan_pop (x ∷ xs) = some (extract x xs)

unfoldable pub scan_heap : Heap MergeItem
unfolding scan_pop extract
scan_heap = record { push = λ x h. x ∷ h; pop = scan_pop }

abbrev NotBefore : MergeItem → MergeItem → Type 0
NotBefore m b = less b m ≡ false

NotBefore-trans : (a b c : MergeItem) → NotBefore a b → NotBefore b c → NotBefore a c
NotBefore-trans a b c h k = ground arith

less_asym : (a b : MergeItem) → less a b ≡ true → NotBefore a b
less_asym a b h = ground arith

record Extracted (x : MergeItem) (xs : List MergeItem) (e : MergeItem × List MergeItem)
    : Type 0 where
  perm : Permᴰ (x ∷ xs) (e.0 ∷ e.1)
  least : All (NotBefore e.0) e.1

extract-Extracted : (x : MergeItem) (xs : List MergeItem) → Extracted x xs (extract x xs)
unfolding extract
extract-Extracted x [] = record { perm = Permᴰ.refl (x ∷ []); least = tt }
extract-Extracted x (y ∷ ys) =
    let ih = extract-Extracted y ys in
    let m = (extract y ys).0 in
    let r = (extract y ys).1 in
    let inner : Permᴰ (x ∷ y ∷ ys) (x ∷ m ∷ r) = Permᴰ.cons refl ih.perm in
    elim (Bool-cases (less m x)) [
      | inl e ↦
          rw (e, extract)
            (record {
              perm = Permᴰ.trans inner (Permᴰ.swap refl refl);
              least = (less_asym m x e, ih.least);
            })
      | inr e ↦
          rw (e, extract)
            (record {
              perm = inner;
              least = (
                e,
                All-imp (NotBefore m) (NotBefore x) r (λ b h. NotBefore-trans x m b e h) ih.least,
              );
            })
    ]

scan_pop_cases :
    (h : List MergeItem)
    → ((h ≡ []) × (scan_pop h ≡ none))
      ⊎ ((a : MergeItem) × (r : List MergeItem) × (scan_pop h ≡ some (a, r))
          × Unit {0}
          × Permᴰ h (a ∷ r)
          × All (NotBefore a) r)
unfolding scan_pop
scan_pop_cases [] = inl (refl, refl)
scan_pop_cases (x ∷ xs) =
    let e = extract-Extracted x xs in
    inr ((extract x xs).0, (extract x xs).1, refl, tt, e.perm, e.least)

pub scan_laws : HeapLaws less scan_heap
unfolding scan_heap
scan_laws = record {
  IsHeap = λ h. Unit {0};
  nil-IsHeap = tt;
  push-IsHeap = λ a h g. tt;
  push-perm = λ a h. Permᴰ.refl (a ∷ h);
  pop_cases = λ h g. scan_pop_cases h;
}
