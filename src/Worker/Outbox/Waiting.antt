-- ===== src/Worker/Outbox/Waiting.antt =====
-- The messages of the outbox that wait, and what deleting some of them leaves.
use feed_system_golang.Base.{
  ℕ, suc, ◌+◌, ◌≤◌, ◌≡◌, ◌≢◌, sym, subst, ap, ◌∙◌, inl, inr, Bool, true, false, List, [], ◌∷◌, map,
  select, length, All, Distinct, All-at, Elem-map, ◌==◌, ==_iff, Elem, Bool-cases, arith,
  if◌then◌else◌,
}
use feed_system_golang.Backend.Entity.{OutboxMsg}
use feed_system_golang.Backend.Sql.{Tables, delete_where}
use feed_system_golang.Worker.Outbox.{pending}
use feed_system_golang.Worker.Outbox.Delivery.{Keyed}

abbrev pub ids : List OutboxMsg → List ℕ
ids = map (λ m. m.id)

-- The messages that are still to be announced.
abbrev pub waiting : Tables → List OutboxMsg
waiting t = select pending.matches t.outbox

module _ {A : Type 0} (p d : A → Bool) where
  pub length-select-delete_where :
      (xs : List A) → length (select p (delete_where d xs)) ≤ length (select p xs)
  length-select-delete_where [] = omega arith
  length-select-delete_where (x ∷ xs) = ground (arith, length-select-delete_where xs)

  pub selected : (x : A) (xs : List A) → p x ≡ true → select p (x ∷ xs) ≡ x ∷ select p xs
  selected x xs h = ground (arith, h)

  pub shorter_by_one :
      (xs : List A) (a : A)
      → Elem a (select p xs)
      → d a ≡ true
      → suc (length (select p (delete_where d xs))) ≤ length (select p xs)
  shorter_by_one [] a i h = absurd i
  shorter_by_one (x ∷ xs) a i h = elim (Bool-cases (p x)) [
    | inr out ↦ ground (arith, out, i, h, shorter_by_one xs a, length-select-delete_where xs)
    | inl in_ ↦ elim (Bool-cases (d x)) [
      | inl gone ↦ ground (arith, in_, gone, length-select-delete_where xs)
      | inr kept ↦ elim (subst (Elem a) (selected x xs in_) i) [
        | inl e ↦ ground (arith, ap d e, h, kept)
        | inr j ↦ ground (arith, in_, kept, shorter_by_one xs a j h)
      ]
    ]
  ]

  pub still_selected :
      (xs : List A) (a : A)
      → Elem a (select p xs)
      → d a ≡ false
      → Elem a (select p (delete_where d xs))
  still_selected [] a i h = absurd i
  still_selected (x ∷ xs) a i h = elim (Bool-cases (p x)) [
    | inr out ↦ ground (arith, out, i, h, still_selected xs a)
    | inl in_ ↦ elim (subst (Elem a) (selected x xs in_) i) [
      | inl e ↦ ground (arith, ap d e, h, in_, e)
      | inr j ↦ ground (arith, in_, still_selected xs a j h)
    ]
  ]

pub All-select :
    {A B : Type 0} (P : B → Type 0) (f : A → B) (p : A → Bool) (xs : List A)
    → All P (map f xs)
    → All P (map f (select p xs))
All-select P f p [] h = tt
All-select P f p (x ∷ xs) h =
    elim (p x) as (λ b. All P (map f (if b then x ∷ select p xs else select p xs))) [
      | true ↦ (h.0, All-select P f p xs h.1)
      | false ↦ All-select P f p xs h.1
    ]

pub Distinct-select :
    {A B : Type 0} (f : A → B) (p : A → Bool) (xs : List A)
    → Distinct (map f xs)
    → Distinct (map f (select p xs))
Distinct-select f p [] h = tt
Distinct-select f p (x ∷ xs) h =
    elim (p x) as (λ b. Distinct (map f (if b then x ∷ select p xs else select p xs))) [
      | true ↦ (All-select (λ y. f x ≢ y) f p xs h.0, Distinct-select f p xs h.1)
      | false ↦ Distinct-select f p xs h.1
    ]

-- At least `n` messages fewer wait, and no row is new.
pub record Drained (n : ℕ) (t after : Tables) : Type 0 where
  pub fewer : length (waiting after) + n ≤ length (waiting t)
  pub old : (m : OutboxMsg) → Elem m after.outbox → Elem m t.outbox
  pub keyed : Distinct (ids t.outbox) → Distinct (ids after.outbox)

pub Drained-same : (t : Tables) → Drained 0 t t
Drained-same t = record { fewer = omega arith; old = λ m i. i; keyed = λ d. d }

pub Drained-then : (n : ℕ) (t u v : Tables) → Drained 1 t u → Drained n u v → Drained (suc n) t v
Drained-then n t u v a b = record {
  fewer = omega (arith, a.fewer, b.fewer);
  old = λ k i. a.old k (b.old k i);
  keyed = λ d. b.keyed (a.keyed d);
}

pub different : (a b : ℕ) → a ≢ b → (b == a) ≡ false
different a b h = elim (Bool-cases (b == a)) [
  | inl same ↦ absurd (h (sym ((==_iff b a).0 same)))
  | inr other ↦ other
]

pub Distinct-Keyed : (rows : List OutboxMsg) → Distinct (ids rows) → Keyed rows
Distinct-Keyed [] d a b i j e = absurd i
Distinct-Keyed (x ∷ xs) d a b (inl p) (inl q) e = p ∙ sym q
Distinct-Keyed (x ∷ xs) d a b (inl p) (inr j) e = absurd (
    All-at (λ y. x.id ≢ y) (ids xs) d.0 b.id (Elem-map (λ k. k.id) b xs j)
      (ap (λ k. k.id) (sym p) ∙ e))
Distinct-Keyed (x ∷ xs) d a b (inr i) (inl q) e = absurd (
    All-at (λ y. x.id ≢ y) (ids xs) d.0 a.id (Elem-map (λ k. k.id) a xs i)
      (ap (λ k. k.id) (sym q) ∙ sym e))
Distinct-Keyed (x ∷ xs) d a b (inr i) (inr j) e = Distinct-Keyed xs d.1 a b i j e

pub no_more : {A : Type 0} (xs : List A) (a : A) → length xs ≡ 0 → Elem a xs → ⊥
no_more [] a h i = i
no_more (x ∷ xs) a h i = omega (arith, h)
