-- ===== src/Feed/Pulling.antt =====
-- How many videos ListByFollowing pulls from the big accounts that a viewer follows.
use feed_system_golang.Base.{
  ℕ, ◌+◌, ◌-◌, ◌≤◌, pos, ◌≡◌, Option, List, [], ◌∷◌, length, All, Result, ok, ◌⊎◌,
}
use feed_system_golang.Backend.{Backend}
use feed_system_golang.Backend.Redis.{Command, Reply, zs, zrev_range_with_scores}
use feed_system_golang.Cache.{Client}
use feed_system_golang.Feed.Merge.{VideoWithTime, Heap, MergeItem}
use feed_system_golang.Feed.Lookup.{Local}
use feed_system_golang.Feed.Following.{BigV, Sorts, inbox_oldest, needed, quotas}

-- A reply to ZREVRANGE from place `a` to place `b` has at most the members between them.
abbrev pub WithinRange : Command → Result Reply → Type 0
WithinRange (zrev_range_with_scores key (pos a) (pos b)) (ok (zs l)) = length l ≤ b + 1 - a
WithinRange _ _ = Unit {0}

-- A reply to each command, of that kind.
abbrev pub Ranged : List Command → List (Result Reply) → Type 0
Ranged [] [] = Unit {0}
Ranged (c ∷ cs) (r ∷ rs) = WithinRange c r × Ranged cs rs
Ranged _ _ = ⊥

pub record RangeLaws {W : Type 0} (env : Backend W) : Type 0 where
  pub pipeline-Ranged :
      (cs : List Command) (w : W) (rs : List (Result Reply))
      → (env.pipeline cs w).0 ≡ ok rs
      → Ranged cs rs

-- The number of all elements.
abbrev pub total : {A : Type 0} → List (List A) → ℕ
total [] = 0
total (l ∷ ls) = length l + total ls

abbrev IsShort : {A : Type 0} → List A → Type 0
IsShort l = length l ≤ 10

-- As many as are planned, and ten of each at most.
abbrev Fits : {A : Type 0} → ℕ → List (List A) → Type 0
Fits n ls = (total ls ≤ n) × All IsShort ls

-- As many as the page has room for beside the pushed videos; if they fill it, as many as a page.
abbrev pub HasRoom : ℕ → List VideoWithTime → List (List VideoWithTime) → Type 0
HasRoom limit pushed streams =
    (total streams ≤ limit)
    × ((limit ≤ length pushed) ⊎ (length pushed + total streams ≤ limit))
    × All IsShort streams

module _ {W : Type 0} {env : Backend W} (laws : RangeLaws env) (heap : Heap MergeItem)
    (sorts : Sorts) (local : Local W) (cache : Option Client) where
  planned : ℕ → List VideoWithTime → List BigV → List (ℕ × ℕ)
  planned limit pushed samples =
      quotas (needed limit pushed) (inbox_oldest pushed) (sorts.sort_big samples)
