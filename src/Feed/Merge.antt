-- ===== src/Feed/Merge.antt =====
-- backend_repeat/internal/feed/service.go: the k-way merge of video streams. The streams are
-- distinct pointers in the source, and each stands in one heap item at most, so a cursor is a value
-- here. Go's container/heap is the parameter `Heap`.
pub mod Laws
pub mod Step
pub mod Pop
pub mod Rounds
pub mod Top
pub mod Ranking
pub mod Scan
pub mod Tests
use feed_system_golang.Base.{
  ℕ, zero, suc, ◌+◌, String, ℤ, ltb_ℤ, ltb, ◌==◌, if◌then◌else◌, Bool, true, false, Option, none,
  some, List, [], ◌∷◌, ◌++◌, length, get_elem?, drop,
}

pub record VideoWithTime : Type 0 where
  pub video_id : ℕ
  pub create_time : ℤ

pub record StreamCursor : Type 0 where
  pub items : List VideoWithTime
  pub pos : ℕ
  pub source : String

pub peek : StreamCursor → Option VideoWithTime
peek c = get_elem? c.items c.pos

pub advance : StreamCursor → StreamCursor
advance c = record c { pos = suc c.pos }

pub record MergeItem : Type 0 where
  pub video : VideoWithTime
  pub cursor : StreamCursor

-- `mergeHeap.Less`: the later video is the lesser one, and leaves the heap first.
abbrev pub less : MergeItem → MergeItem → Bool
less i j = ltb_ℤ j.video.create_time i.video.create_time

-- The package's `Push` and `Pop`, on the slice that the heap is kept in.
pub record Heap (A : Type 0) : Type 0 where
  pub push : A → List A → List A
  pub pop : List A → Option (A × List A)

-- `result` and `seen`.
pub record Progress : Type 0 where
  pub seen : ℕ → Bool
  pub result : List ℕ

abbrev pub mark : ℕ → (ℕ → Bool) → ℕ → Bool
mark id seen j = if id == j then true else seen j

-- The new video goes into the result, unless it was seen.
pub collect : VideoWithTime → Progress → Progress
collect v p =
    if p.seen v.video_id
    then p
    else record { seen = mark v.video_id p.seen; result = p.result ++ v.video_id ∷ [] }

-- The videos of a cursor that are not read.
abbrev pub remaining : StreamCursor → List VideoWithTime
remaining c = drop c.pos c.items

-- The number of videos in the streams: each round takes one.
abbrev pub total : List StreamCursor → ℕ
total [] = 0
total (c ∷ cs) = length (remaining c) + total cs

module _ (heap : Heap MergeItem) where
  open heap use {push, pop}

  -- The next video of a cursor, if there is one, goes into the heap.
  pub refill : StreamCursor → List MergeItem → List MergeItem
  refill c h = elim (peek c) [
    | none ↦ h
    | some v ↦ push (record { video = v; cursor = advance c }) h
  ]

  pub seed : List StreamCursor → List MergeItem → List MergeItem
  seed [] h = h
  seed (c ∷ cs) h = seed cs (refill c h)

  -- The loop of `mergeAndDedup`.
  pub merge_loop : ℕ → ℕ → List MergeItem → Progress → List ℕ
  merge_loop zero limit h p = p.result
  merge_loop (suc fuel) limit h p = elim (ltb (length p.result) limit) [
    | false ↦ p.result
    | true ↦ elim (pop h) [
      | none ↦ p.result
      | some (top, rest) ↦ merge_loop fuel limit (refill top.cursor rest) (collect top.video p)
    ]
  ]

  unfoldable pub merge_and_dedup : List StreamCursor → ℕ → List ℕ
  unfolding merge_loop seed refill peek advance collect
  merge_and_dedup cursors limit =
      merge_loop (total cursors) limit (seed cursors []) (record { seen = λ _. false; result = [] })
