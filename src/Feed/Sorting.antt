-- ===== src/Feed/Sorting.antt =====
-- Sorted lists, and the page of one that a limit cuts off.
use feed_system_golang.Base.{
  ℕ, zero, suc, ◌<◌, ◌≡◌, refl, sym, subst, inl, inr, Bool, true, false, some, List, [], ◌∷◌,
  length, take, drop, Elem-take, Elem-drop, All, All-at, All-Elem, Elem, arith, Bool-cases,
}
use feed_system_golang.Backend.Entity.{Video}
use feed_system_golang.Feed.Listing.{last_of}

-- No element stands before one that it must follow.
abbrev pub Sorted : {A : Type 0} → (A → A → Bool) → List A → Type 0
Sorted before [] = Unit {0}
Sorted before (x ∷ xs) = All (λ y. before y x ≡ false) xs × Sorted before xs

-- A strict order, up to ties.
pub record IsOrder {A : Type 0} (before : A → A → Bool) : Type 0 where
  pub asym : (a b : A) → before a b ≡ true → before b a ≡ false
  pub negtrans : (a b c : A) → before b a ≡ false → before c b ≡ false → before c a ≡ false

module _ {A : Type 0} where
  module _ (before : A → A → Bool) where
    pub Sorted-take : (n : ℕ) (l : List A) → Sorted before l → Sorted before (take n l)
    Sorted-take zero l s = tt
    Sorted-take (suc n) [] s = tt
    Sorted-take (suc n) (x ∷ xs) (h, s) = (
      All-Elem (λ y. before y x ≡ false) (take n xs)
          (λ y i. All-at (λ y. before y x ≡ false) xs h y (Elem-take n xs y i)),
      Sorted-take n xs s,
    )

    pub Sorted-cut :
        (n : ℕ) (l : List A) (a b : A)
        → Sorted before l
        → Elem a (take n l)
        → Elem b (drop n l)
        → before b a ≡ false
    Sorted-cut zero l a b s i j = absurd i
    Sorted-cut (suc n) [] a b s i j = absurd i
    Sorted-cut (suc n) (x ∷ xs) a b (h, s) (inl e) j =
        subst (λ y. before b y ≡ false) (sym e)
          (All-at (λ y. before y x ≡ false) xs h b (Elem-drop n xs b j))
    Sorted-cut (suc n) (x ∷ xs) a b (h, s) (inr i) j = Sorted-cut n xs a b s i j

pub last_of-Elem : (l : List Video) (v : Video) → last_of l ≡ some v → Elem v l
last_of-Elem [] v h = ground arith
last_of-Elem (x ∷ []) v h = inl (ground arith)
last_of-Elem (x ∷ y ∷ ys) v h = inr (last_of-Elem (y ∷ ys) v h)

pub last_of-some : (l : List Video) → 0 < length l → (v : Video) × (last_of l ≡ some v)
last_of-some [] h = ground arith
last_of-some (x ∷ []) h = (x, refl)
last_of-some (x ∷ y ∷ ys) h = last_of-some (y ∷ ys) (omega arith)

irreflexive : {A : Type 0} (before : A → A → Bool) → IsOrder before → (a : A) → before a a ≡ false
irreflexive before o a = elim (Bool-cases (before a a)) [
  | inl same ↦ o.asym a a same
  | inr other ↦ other
]

only_last : (x last : Video) → last_of (x ∷ []) ≡ some last → x ≡ last
only_last x last h = ground arith

-- The last of a sorted list stands before none of the others.
pub last_of-Sorted :
    (before : Video → Video → Bool)
    → IsOrder before
    → (l : List Video) (last v : Video) → Sorted before l
    → last_of l ≡ some last
    → Elem v l
    → before last v ≡ false
last_of-Sorted before o [] last v s h i = absurd i
last_of-Sorted before o (x ∷ []) last v s h (inl e) =
    subst (λ z. before last z ≡ false) (sym e)
      (subst (λ z. before z x ≡ false) (only_last x last h) (irreflexive before o x))
last_of-Sorted before o (x ∷ []) last v s h (inr i) = absurd i
last_of-Sorted before o (x ∷ y ∷ ys) last v (a, s) h (inl e) =
    subst (λ z. before last z ≡ false) (sym e)
      (All-at (λ z. before z x ≡ false) (y ∷ ys) a last (last_of-Elem (y ∷ ys) last h))
last_of-Sorted before o (x ∷ y ∷ ys) last v (a, s) h (inr i) =
    last_of-Sorted before o (y ∷ ys) last v s h i
