-- ===== src/Base/Lists.antt =====
-- Lists measured by native numbers, and predicates on their elements by recursion.
use Prim.Native.Nat.{ℕ, zero, suc, ◌+◌, ◌≤◌}
use mathlib.Core.Path.{◌≡◌, refl, sym, ap, subst, ◌∙◌}
use mathlib.Core.Logic.{◌⊎◌, inl, inr, ◌≢◌}
use mathlib.Core.Bool.{Bool, true, false}
use mathlib.Core.List.{List, [], ◌∷◌, ◌++◌, map, Permᴰ}
use mathlib.Core.Option.{Option, none, some}
use native.Mathlib.Omega.{arith}
use feed_system_golang.Base.Tests.{if◌then◌else◌}

module _ {ℓ} {A : Type ℓ} where
  abbrev pub length : List A → ℕ
  length [] = 0
  length (x ∷ xs) = suc (length xs)

  abbrev pub get_elem? : List A → ℕ → Option A
  get_elem? [] i = none
  get_elem? (x ∷ xs) zero = some x
  get_elem? (x ∷ xs) (suc i) = get_elem? xs i

  abbrev pub take : ℕ → List A → List A
  take zero xs = []
  take (suc n) [] = []
  take (suc n) (x ∷ xs) = x ∷ take n xs

  abbrev pub drop : ℕ → List A → List A
  drop zero xs = xs
  drop (suc n) [] = []
  drop (suc n) (x ∷ xs) = drop n xs

  -- `xs[len(xs)-1]`, where there is one.
  abbrev pub get_last? : List A → Option A
  get_last? [] = none
  get_last? (x ∷ []) = some x
  get_last? (x ∷ y ∷ xs) = get_last? (y ∷ xs)

  -- The elements that pass a Boolean test.
  abbrev pub select : (A → Bool) → List A → List A
  select p [] = []
  select p (x ∷ xs) = if p x then x ∷ select p xs else select p xs

  abbrev pub All {κ} : (A → Type κ) → List A → Type κ
  All P [] = Unit
  All P (x ∷ xs) = P x × All P xs

-- Membership, with the place kept.
abbrev pub Elem : {A : Type 0} → A → List A → Type 0
Elem a [] = ⊥
Elem a (x ∷ xs) = (a ≡ x) ⊎ Elem a xs

module _ {ℓ} {A : Type ℓ} where
  pub length-append : (xs ys : List A) → length (xs ++ ys) ≡ length xs + length ys
  length-append [] ys = omega arith
  length-append (x ∷ xs) ys = omega (arith, length-append xs ys)

  pub length-take-le : (n : ℕ) (xs : List A) → length (take n xs) ≤ n
  length-take-le zero xs = omega arith
  length-take-le (suc n) [] = omega arith
  length-take-le (suc n) (x ∷ xs) = omega (arith, length-take-le n xs)

  pub All-append {κ} : (P : A → Type κ) (xs ys : List A) → All P xs → All P ys → All P (xs ++ ys)
  All-append P [] ys hx hy = hy
  All-append P (x ∷ xs) ys hx hy = (hx.0, All-append P xs ys hx.1 hy)

  pub All-imp {κ κ'} :
      (P : A → Type κ) (Q : A → Type κ') (xs : List A) → ((a : A) → P a → Q a) → All P xs → All Q xs
  All-imp P Q [] f h = tt
  All-imp P Q (x ∷ xs) f h = (f x h.0, All-imp P Q xs f h.1)

-- No element twice.
abbrev pub Distinct : {A : Type 0} → List A → Type 0
Distinct [] = Unit {0}
Distinct (x ∷ xs) = All (λ y. x ≢ y) xs × Distinct xs

module _ {A : Type 0} where
  pub All-Elem {κ} : (P : A → Type κ) (xs : List A) → ((a : A) → Elem a xs → P a) → All P xs
  All-Elem P [] f = tt
  All-Elem P (x ∷ xs) f = (f x (inl refl), All-Elem P xs (λ a e. f a (inr e)))

  pub All-at {κ} : (P : A → Type κ) (xs : List A) → All P xs → (a : A) → Elem a xs → P a
  All-at P [] h a i = absurd i
  All-at P (x ∷ xs) h a (inl e) = subst P (sym e) h.0
  All-at P (x ∷ xs) h a (inr i) = All-at P xs h.1 a i

  pub select-Elem : (p : A → Bool) (xs : List A) (a : A) → Elem a (select p xs) → Elem a xs
  select-Elem p [] a i = absurd i
  select-Elem p (x ∷ xs) a i = ground (arith, select-Elem p xs a)

  pub Elem-select :
      (p : A → Bool) (xs : List A) (a : A) → Elem a xs → p a ≡ true → Elem a (select p xs)
  Elem-select p [] a i h = absurd i
  Elem-select p (x ∷ xs) a (inl e) h = ground (arith, ap p e, h, e)
  Elem-select p (x ∷ xs) a (inr i) h = ground (arith, Elem-select p xs a i h)

  pub select-passes : (p : A → Bool) (xs : List A) (a : A) → Elem a (select p xs) → p a ≡ true
  select-passes p [] a i = absurd i
  select-passes p (x ∷ xs) a i = go (p x) refl (select-passes p xs a) i
    where
      go :
          (b : Bool)
          → p x ≡ b
          → (Elem a (select p xs) → p a ≡ true)
          → Elem a (if b then x ∷ select p xs else select p xs)
          → p a ≡ true
      go true q rest (inl e) = ap p e ∙ q
      go true q rest (inr j) = rest j
      go false q rest j = rest j

  pub Elem-append : (a : A) (xs ys : List A) → Elem a (xs ++ ys) → Elem a xs ⊎ Elem a ys
  Elem-append a [] ys h = inr h
  Elem-append a (x ∷ xs) ys (inl e) = inl (inl e)
  Elem-append a (x ∷ xs) ys (inr h) = elim (Elem-append a xs ys h) [
    | inl l ↦ inl (inr l)
    | inr r ↦ inr r
  ]

  pub Elem-append_left : (a : A) (xs ys : List A) → Elem a xs → Elem a (xs ++ ys)
  Elem-append_left a [] ys h = absurd h
  Elem-append_left a (x ∷ xs) ys (inl e) = inl e
  Elem-append_left a (x ∷ xs) ys (inr h) = inr (Elem-append_left a xs ys h)

  pub Elem-append_right : (a : A) (xs ys : List A) → Elem a ys → Elem a (xs ++ ys)
  Elem-append_right a [] ys h = h
  Elem-append_right a (x ∷ xs) ys h = inr (Elem-append_right a xs ys h)

  pub Elem-take-drop :
      (n : ℕ) (l : List A) (a : A) → Elem a l → Elem a (take n l) ⊎ Elem a (drop n l)
  Elem-take-drop zero l a i = inr i
  Elem-take-drop (suc n) [] a i = absurd i
  Elem-take-drop (suc n) (x ∷ xs) a (inl e) = inl (inl e)
  Elem-take-drop (suc n) (x ∷ xs) a (inr i) = elim (Elem-take-drop n xs a i) [
    | inl taken ↦ inl (inr taken)
    | inr dropped ↦ inr dropped
  ]

  pub Elem-take : (n : ℕ) (l : List A) (a : A) → Elem a (take n l) → Elem a l
  Elem-take zero l a i = absurd i
  Elem-take (suc n) [] a i = absurd i
  Elem-take (suc n) (x ∷ xs) a (inl e) = inl e
  Elem-take (suc n) (x ∷ xs) a (inr i) = inr (Elem-take n xs a i)

  pub Elem-drop : (n : ℕ) (l : List A) (a : A) → Elem a (drop n l) → Elem a l
  Elem-drop zero l a i = i
  Elem-drop (suc n) [] a i = absurd i
  Elem-drop (suc n) (x ∷ xs) a i = inr (Elem-drop n xs a i)

  -- What is cut off tells that the page is full.
  pub length-take_full : (n : ℕ) (l : List A) (a : A) → Elem a (drop n l) → length (take n l) ≡ n
  length-take_full zero l a i = refl
  length-take_full (suc n) [] a i = absurd i
  length-take_full (suc n) (x ∷ xs) a i = ap suc (length-take_full n xs a i)

  pub Elem-perm : {xs ys : List A} (a : A) → Permᴰ xs ys → Elem a xs → Elem a ys
  Elem-perm a Permᴰ.nil h = h
  Elem-perm a (Permᴰ.cons e p) (inl h) = inl (h ∙ e)
  Elem-perm a (Permᴰ.cons e p) (inr h) = inr (Elem-perm a p h)
  Elem-perm a (Permᴰ.swap e f) (inl h) = inr (inl (h ∙ e))
  Elem-perm a (Permᴰ.swap e f) (inr (inl h)) = inl (h ∙ f)
  Elem-perm a (Permᴰ.swap e f) (inr (inr h)) = inr (inr h)
  Elem-perm a (Permᴰ.trans p q) h = Elem-perm a q (Elem-perm a p h)

module _ {ℓ κ} {A : Type ℓ} {B : Type κ} where
  pub length-map : (f : A → B) (xs : List A) → length (map f xs) ≡ length xs
  length-map f [] = refl
  length-map f (x ∷ xs) = ap suc (length-map f xs)

module _ {A B : Type 0} where
  pub Elem-map : (f : A → B) (a : A) (xs : List A) → Elem a xs → Elem (f a) (map f xs)
  Elem-map f a [] h = absurd h
  Elem-map f a (x ∷ xs) (inl e) = inl (ap f e)
  Elem-map f a (x ∷ xs) (inr h) = inr (Elem-map f a xs h)

  pub Elem-map_inv :
      (f : A → B) (b : B) (xs : List A) → Elem b (map f xs) → (a : A) × Elem a xs × (b ≡ f a)
  Elem-map_inv f b [] h = absurd h
  Elem-map_inv f b (x ∷ xs) (inl e) = (x, inl refl, e)
  Elem-map_inv f b (x ∷ xs) (inr h) = let (a, m, e) = Elem-map_inv f b xs h in (a, inr m, e)
