-- ===== src/Feed/Tests.antt =====
-- The pages of three videos, and the other witnesses on the feed.
use feed_system_golang.Base.{
  ◌≡◌, ◌≤◌, inl, refl, pos, false, none, some, List, [], ◌∷◌, length, map, Result, ok, err, ◌>>=◌,
  arith,
}
use feed_system_golang.Backend.{Backend}
use feed_system_golang.Backend.Memory.{Memory, memory}
use feed_system_golang.Feed.Repo.{find_by_likes, batch_get_liked}
use feed_system_golang.Feed.Listing.{ListLikesCountResponse, list_likes_count, build_feed_videos}
use feed_system_golang.Feed.Cursor.{OneVideo}
use feed_system_golang.Feed.Listing.{
  ListByPopularityResponse, popularity_page, list_by_popularity_from_db,
}
use feed_system_golang.Feed.Repo.{find_by_popularity, under_popularity}
use feed_system_golang.Feed.PopularPages.{
  ArePositive, InPopularAnswer, list_by_popularity_from_db-InPopularAnswer,
}
use feed_system_golang.Feed.Pages.{InOneAnswer, list_likes_count-InOneAnswer}
use feed_system_golang.Feed.Handler.{ListLikesCountRequest, handle_list_likes_count, likes_cursor}
use feed_system_golang.Http.Context.{ok_json, respond}
use feed_system_golang.Feed.Following.{
  BigV, Sorts, max_int64, quotas, pull_from, sample, pull, read_pipelined, should_skip_pull, needed,
  parse_zset_with_scores,
}
use feed_system_golang.Feed.Merge.{Heap, MergeItem, VideoWithTime}
use feed_system_golang.Backend.Redis.{Z, Command, Reply, zs, done, zrev_range_with_scores}
use feed_system_golang.Cache.{Client, is_breaker_open}
use feed_system_golang.Base.{true, ◌-ℤ◌, ◌+◌, ◌-◌, take, Option}
use feed_system_golang.Feed.Lookup.{Local}
use feed_system_golang.Feed.Bounds.{handle_list_likes_count_bounded}
use feed_system_golang.Feed.Sample.{sorting, sorting-PageLaws, video_of, three}

abbrev first_page : ListLikesCountResponse
first_page = elim (list_likes_count sorting 2 none 0 three).0 as (λ _. ListLikesCountResponse) [
  | ok resp ↦ resp
  | err e ↦ record {
    video_list = [];
    next_likes_count_before = none;
    next_id_before = none;
    has_more = false;
  }
]

-- The tie between the videos 1 and 3 falls to the greater id.
first_page_ids : map (λ i. i.id) first_page.video_list ≡ 2 ∷ 3 ∷ []
unfolding list_likes_count find_by_likes batch_get_liked build_feed_videos ◌>>=◌
first_page_ids = refl

three-OneVideo : OneVideo (sorting.tables three)
three-OneVideo a b i j e = ground (arith, i, j, e)

first_served : (list_likes_count sorting 2 none 0 three).0 ≡ ok first_page
unfolding list_likes_count find_by_likes batch_get_liked build_feed_videos ◌>>=◌
first_served = refl

list_likes_count-InOneAnswer_example : InOneAnswer none (video_of 1 4) first_page
list_likes_count-InOneAnswer_example =
    list_likes_count-InOneAnswer sorting-PageLaws 2 none 0 three first_page (omega arith)
      three-OneVideo first_served (video_of 1 4) (inl refl)

abbrev likes_request : ListLikesCountRequest
likes_request = record { limit = pos 2; likes_count_before = none; id_before = none }

first_answered :
    (handle_list_likes_count (list_likes_count sorting) (ok 0) likes_request three).0
    ≡ ok (ok_json first_page)
unfolding handle_list_likes_count likes_cursor list_likes_count find_by_likes batch_get_liked
    respond build_feed_videos ◌>>=◌
first_answered = refl

handle_list_likes_count_bounded_example : length first_page.video_list ≤ 50
handle_list_likes_count_bounded_example =
    handle_list_likes_count_bounded sorting-PageLaws (ok 0) likes_request three first_page
      first_answered

abbrev two_big : List BigV
two_big = record { id = 8; newest_at = pos 90 } ∷ record { id = 9; newest_at = pos 80 } ∷ []

two_big-quotas : quotas 14 none two_big ≡ (8, 10) ∷ (9, 4) ∷ []
unfolding quotas
two_big-quotas = refl

-- A pipeline that answers a range of fifteen videos, which every account has.
abbrev fifteen : List Z
fifteen =
    map (λ n. record { member = some n; score = pos (100 - n) })
      (1 ∷ 2 ∷ 3 ∷ 4 ∷ 5 ∷ 6 ∷ 7 ∷ 8 ∷ 9 ∷ 10 ∷ 11 ∷ 12 ∷ 13 ∷ 14 ∷ 15 ∷ [])

abbrev range_of : Command → Result Reply
range_of (zrev_range_with_scores key (pos a) (pos b)) = ok (zs (take (b + 1 - a) fifteen))
range_of _ = ok done

abbrev ranging : Backend Memory
ranging = record memory { pipeline = λ cs m. (ok (map range_of cs), m) }

abbrev no_heap : Heap MergeItem
no_heap = record { push = λ x xs. x ∷ xs; pop = λ xs. none }

abbrev unsorted : Sorts
unsorted = record { sort_big = λ l. l; sort_videos = λ l. l }

abbrev nothing_held : Local Memory
nothing_held = record { held = λ id m. none; hold = λ id v m. (ok tt, m) }

abbrev plain_client : Option Client
plain_client = some (record { has_rdb = true; breaker = none })

abbrev pulled : List (List VideoWithTime)
pulled =
    elim (pull_from ranging no_heap unsorted nothing_held plain_client 14 max_int64 [] (8 ∷ 9 ∷ [])
        three).0
      as (λ _. List (List VideoWithTime)) [ ok streams ↦ streams | err e ↦ [] ]

-- Ten videos of the first account, and four of the second.
pulled_lengths : map length pulled ≡ 10 ∷ 4 ∷ []
unfolding pull_from sample pull read_pipelined should_skip_pull needed quotas parse_zset_with_scores
    is_breaker_open ◌>>=◌ ◌-ℤ◌
pulled_lengths = refl

abbrev first_ranked : ListByPopularityResponse
first_ranked =
    elim (list_by_popularity_from_db sorting 2 (pos 0) none 0 0 three).0
      as (λ _. ListByPopularityResponse) [
        | ok resp ↦ resp
        | err e ↦ record {
          video_list = [];
          as_of = pos 0;
          next_offset = pos 0;
          has_more = false;
          next_latest_popularity = none;
          next_latest_before = none;
          next_latest_id_before = none;
        }
      ]

-- Of equal videos the greater ids come first.
first_ranked_ids : map (λ i. i.id) first_ranked.video_list ≡ 3 ∷ 2 ∷ []
unfolding list_by_popularity_from_db find_by_popularity popularity_page batch_get_liked
    build_feed_videos ◌>>=◌
first_ranked_ids = refl

first_ranked_served :
    (list_by_popularity_from_db sorting 2 (pos 0) none 0 0 three).0 ≡ ok first_ranked
unfolding list_by_popularity_from_db find_by_popularity popularity_page batch_get_liked
    build_feed_videos ◌>>=◌
first_ranked_served = refl

three-ArePositive : ArePositive (sorting.tables three)
three-ArePositive v i = ground (arith, i)

list_by_popularity_from_db-InPopularAnswer_example :
    InPopularAnswer (under_popularity (pos 0) none 0) (video_of 1 4) first_ranked
list_by_popularity_from_db-InPopularAnswer_example =
    list_by_popularity_from_db-InPopularAnswer sorting-PageLaws 2 (pos 0) none 0 0 three
      first_ranked (omega arith) three-OneVideo three-ArePositive first_ranked_served (video_of 1 4)
      (inl refl)
