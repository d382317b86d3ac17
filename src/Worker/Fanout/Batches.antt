-- ===== src/Worker/Fanout/Batches.antt =====
-- The loop of `process` over the batches of followers.
use feed_system_golang.Base.{
  ℕ, zero, suc, ◌+◌, ◌-◌, ◌≤◌, ◌<◌, min, ltb, ◌≡◌, refl, sym, ap, ◌∙◌, subst, inl, inr, List, [],
  ◌∷◌, ◌++◌, length, take, drop, All, Bool-cases, arith,
}
use feed_system_golang.Worker.Fanout.{fanout_batch_size, slice, batches}

abbrev pub flatten : List (List ℕ) → List ℕ
flatten [] = []
flatten (b ∷ bs) = b ++ flatten bs

-- From one follower to a batch's size.
abbrev pub IsBatch : List ℕ → Type 0
IsBatch b = (1 ≤ length b) × (length b ≤ fanout_batch_size)

append-take-drop : (n : ℕ) (l : List ℕ) → take n l ++ drop n l ≡ l
append-take-drop zero l = refl
append-take-drop (suc n) [] = refl
append-take-drop (suc n) (x ∷ xs) = ap (λ t. x ∷ t) (append-take-drop n xs)

drop_all : (n : ℕ) (l : List ℕ) → length l ≤ n → drop n l ≡ []
drop_all zero [] h = refl
drop_all zero (x ∷ xs) h = ground arith
drop_all (suc n) [] h = refl
drop_all (suc n) (x ∷ xs) h = drop_all n xs (omega arith)

suc_add : (i n : ℕ) → suc i + n ≡ suc (i + n)
suc_add i n = omega arith

drop_nil : (n : ℕ) → drop {A = ℕ} n [] ≡ []
drop_nil zero = refl
drop_nil (suc n) = refl

drop-add : (i n : ℕ) (l : List ℕ) → drop (i + n) l ≡ drop n (drop i l)
drop-add zero n l = ap (λ k. drop k l) (omega arith)
drop-add (suc i) n [] = drop_nil (suc i + n) ∙ sym (drop_nil n)
drop-add (suc i) n (x ∷ xs) = ap (λ k. drop k (x ∷ xs)) (suc_add i n) ∙ drop-add i n xs

length-drop : (i : ℕ) (l : List ℕ) → length (drop i l) ≡ length l - i
length-drop zero l = omega arith
length-drop (suc i) [] = omega arith
length-drop (suc i) (x ∷ xs) = omega (arith, length-drop i xs)

length-take_within : (n : ℕ) (l : List ℕ) → n ≤ length l → length (take n l) ≡ n
length-take_within zero l h = refl
length-take_within (suc n) [] h = omega arith
length-take_within (suc n) (x ∷ xs) h = omega (arith, length-take_within n xs)

abbrev rest_of : ℕ → List ℕ → List ℕ
rest_of i ids = drop (i + fanout_batch_size) ids

-- One batch and what is left after it are what was left before it.
append-slice-rest :
    (i : ℕ) (ids : List ℕ)
    → i < length ids
    → slice i (min (i + fanout_batch_size) (length ids)) ids ++ rest_of i ids ≡ drop i ids
append-slice-rest i ids h = elim (Bool-cases (ltb (i + fanout_batch_size) (length ids))) [
  | inl more ↦
      let k = min (i + fanout_batch_size) (length ids) - i in
      let whole : k ≡ fanout_batch_size = ground arith in
      ap (λ n. take n (drop i ids) ++ rest_of i ids) whole
      ∙ ap (λ r. take fanout_batch_size (drop i ids) ++ r) (drop-add i fanout_batch_size ids)
      ∙ append-take-drop fanout_batch_size (drop i ids)
  | inr last ↦
      let k = min (i + fanout_batch_size) (length ids) - i in
      let short : length (drop i ids) ≤ k = ground (arith, length-drop i ids) in
      ap (λ r. take k (drop i ids) ++ r)
        (drop_all (i + fanout_batch_size) ids (ground arith) ∙ sym (drop_all k (drop i ids) short))
      ∙ append-take-drop k (drop i ids)
]

slice-IsBatch :
    (i : ℕ) (ids : List ℕ)
    → i < length ids
    → IsBatch (slice i (min (i + fanout_batch_size) (length ids)) ids)
slice-IsBatch i ids h =
    let n = min (i + fanout_batch_size) (length ids) - i in
    let size = length-take_within n (drop i ids) (omega (arith, length-drop i ids)) in
    (omega (arith, size), omega (arith, size))

abbrev Splits : ℕ → List ℕ → List (List ℕ) → Type 0
Splits i ids bs = (flatten bs ≡ drop i ids) × All IsBatch bs

batches-drop :
    (fuel i : ℕ) (ids : List ℕ)
    → length ids ≤ i + fuel
    → (flatten (batches fuel i ids) ≡ drop i ids) × All IsBatch (batches fuel i ids)
unfolding batches
batches-drop zero i ids h = (sym (drop_all i ids (omega arith)), tt)
batches-drop (suc fuel) i ids h =
    let (rest, all) = batches-drop fuel (i + fanout_batch_size) ids (omega arith) in
    elim (Bool-cases (ltb i (length ids))) [
      | inl more ↦
          let b = slice i (min (i + fanout_batch_size) (length ids)) ids in
          let step : batches (suc fuel) i ids ≡ b ∷ batches fuel (i + fanout_batch_size) ids =
            ground (arith, more) in
          let inside : i < length ids = ground arith in
          subst (Splits i ids) (sym step) (
            ap (λ r. b ++ r) rest ∙ append-slice-rest i ids inside,
            (slice-IsBatch i ids inside, all),
          )
      | inr done ↦
          let step : batches (suc fuel) i ids ≡ [] = ground (arith, done) in
          subst (Splits i ids) (sym step) (sym (drop_all i ids (ground arith)), tt)
    ]

-- The loop ends after as many rounds at most as there are followers, and its batches, of 1 to 100
-- followers each, are together the list of the followers, each once and in order.
pub batches-flatten :
    (ids : List ℕ)
    → (flatten (batches (length ids) 0 ids) ≡ ids) × All IsBatch (batches (length ids) 0 ids)
batches-flatten ids = batches-drop (length ids) 0 ids (omega arith)
