-- ===== src/Feed/Merge/Tests.antt =====
-- The cases of service_test.go for `mergeAndDedup`, and each theorem at such an input.
use feed_system_golang.Base.{
  ℕ, ◌≤◌, ◌≡◌, refl, ◌⊎◌, inl, inr, pos, List, [], ◌∷◌, length, Elem, Distinct, arith,
}
use feed_system_golang.Feed.Merge.{VideoWithTime, StreamCursor, merge_and_dedup}
use feed_system_golang.Feed.Merge.Step.{Descending}
use feed_system_golang.Feed.Merge.Rounds.{ids, Newer}
use feed_system_golang.Feed.Merge.Ranking.{
  InStreams, StreamsDescending, merge_sound, merge_complete, merge-newest,
}
use feed_system_golang.Feed.Merge.Scan.{scan_heap, scan_laws}

abbrev at_time : ℕ → ℕ → VideoWithTime
at_time id t = record { video_id = id; create_time = pos t }

abbrev cursor : List VideoWithTime → StreamCursor
cursor vs = record { items = vs; pos = 0; source = "test" }

abbrev inbox : StreamCursor
inbox = cursor (at_time 1 300 ∷ at_time 2 100 ∷ [])

abbrev big_v : StreamCursor
big_v = cursor (at_time 1 250 ∷ at_time 3 200 ∷ [])

-- TestMergeAndDedup_DuplicateIDs
duplicate_ids : merge_and_dedup scan_heap (inbox ∷ big_v ∷ []) 10 ≡ 1 ∷ 3 ∷ 2 ∷ []
unfolding merge_and_dedup scan_heap
duplicate_ids = refl

-- TestMergeAndDedup_AllStreamsEmpty
all_streams_empty : merge_and_dedup scan_heap (cursor [] ∷ cursor [] ∷ []) 10 ≡ []
unfolding merge_and_dedup scan_heap
all_streams_empty = refl

-- TestMergeAndDedup_LimitLessThanTotal
limit_less_than_total :
    merge_and_dedup scan_heap
      (cursor (at_time 5 500 ∷ at_time 3 300 ∷ at_time 1 100 ∷ [])
        ∷ cursor (at_time 4 400 ∷ at_time 2 200 ∷ [])
        ∷ [])
      3
    ≡ 5 ∷ 4 ∷ 3 ∷ []
unfolding merge_and_dedup scan_heap
limit_less_than_total = refl

streams_descending : StreamsDescending (inbox ∷ big_v ∷ [])
streams_descending c (inl e) = rw e (omega arith)
streams_descending c (inr (inl e)) = rw e (omega arith)
streams_descending c (inr (inr i)) = absurd i

merge_sound_example :
    (length (merge_and_dedup scan_heap (inbox ∷ big_v ∷ []) 2) ≤ 2)
    × Distinct (merge_and_dedup scan_heap (inbox ∷ big_v ∷ []) 2)
    × ((id : ℕ)
        → Elem id (merge_and_dedup scan_heap (inbox ∷ big_v ∷ []) 2)
        → (v : VideoWithTime) × InStreams v (inbox ∷ big_v ∷ []) × (id ≡ v.video_id))
merge_sound_example = merge_sound scan_heap scan_laws (inbox ∷ big_v ∷ []) 2

merge_complete_example :
    Elem 2 (merge_and_dedup scan_heap (inbox ∷ big_v ∷ []) 10)
    ⊎ (length (merge_and_dedup scan_heap (inbox ∷ big_v ∷ []) 10) ≡ 10)
merge_complete_example =
    merge_complete scan_heap scan_laws (inbox ∷ big_v ∷ []) 10 (at_time 2 100)
      (inbox, inl refl, inr (inl refl))

merge-newest_example :
    (picks : List VideoWithTime) × (merge_and_dedup scan_heap (inbox ∷ big_v ∷ []) 2 ≡ ids picks)
    × Descending picks
    × ((p : VideoWithTime) → Elem p picks → InStreams p (inbox ∷ big_v ∷ []))
    × ((v : VideoWithTime)
        → InStreams v (inbox ∷ big_v ∷ [])
        → Elem v.video_id (ids picks) ⊎ Newer v picks)
merge-newest_example = merge-newest scan_heap scan_laws (inbox ∷ big_v ∷ []) 2 streams_descending
