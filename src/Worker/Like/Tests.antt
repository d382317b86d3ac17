-- ===== src/Worker/Like/Tests.antt =====
-- The like worker and the like service at a video with one like.
use feed_system_golang.Base.{
  ℕ, String, ◌≡◌, refl, ◌≤◌, inl, inr, pos, Option, none, some, List, [], true, false, map, ◌>>=◌,
  ◌∷◌, Elem, arith,
}
use feed_system_golang.Backend.Entity.{Video, Like}
use feed_system_golang.Backend.Events.{LikeEvent}
use feed_system_golang.Backend.Memory.{Memory, memory, memory_of, no_tables}
use feed_system_golang.Backend.Memory.Laws.{memory-MysqlLaws, memory-QuietLaws}
use feed_system_golang.Video.Tally.{Tallied, likes_of, likes_by}
use feed_system_golang.Video.Repo.{
  is_exist, like_ignore_duplicate, delete_like, change_likes_count, change_popularity,
}
use feed_system_golang.Video.Likes.{LikeService, like, unlike}
use feed_system_golang.Video.Likes.Invariant.{like-unlike-Tallied}
use feed_system_golang.Worker.Like.{
  process, apply_like, apply_unlike, like_transaction, unlike_transaction,
}
use feed_system_golang.Worker.Delivery.{deliver}
use feed_system_golang.Worker.Like.Invariant.{deliver-Tallied}
use feed_system_golang.Worker.Like.Redelivery.{apply_like_again, apply_unlike_again}

abbrev video_7 : Video
video_7 = record {
  id = 7;
  author_id = 1;
  username = "ann";
  title = "t";
  description = "";
  play_url = "p";
  cover_url = "c";
  create_time = pos 5;
  likes_count = pos 1;
  popularity = pos 1;
}

abbrev liked_by_2 : Like
liked_by_2 = record { id = 1; video_id = 7; account_id = 2; created_at = pos 6 }

abbrev start : Memory
start = memory_of (record no_tables { videos = video_7 ∷ []; likes = liked_by_2 ∷ [] })

start-counted :
    (v : Video)
    → Elem v (memory.tables start).videos
    → v.likes_count ≡ pos (likes_of v.id (memory.tables start).likes)
start-counted v (inl e) = rw e refl
start-counted v (inr i) = absurd i

start_unique : (x a : ℕ) → likes_by x a (memory.tables start).likes ≤ 1
start_unique x a = ground arith

start-Tallied : Tallied (memory.tables start)
start-Tallied = record { counted = start-counted; unique = start_unique }

abbrev message_of : String → ℕ → ℕ → Option LikeEvent
message_of action user_id video_id =
    some (record { action = action; user_id = user_id; video_id = video_id })

abbrev messages : List (Option LikeEvent)
messages =
    message_of "like" 3 7
    ∷ message_of "like" 3 7
    ∷ none
    ∷ message_of "unlike" 2 7
    ∷ message_of "like" 3 8
    ∷ []

-- The second "like" and the unreadable message change nothing, and video 8 does not exist.
messages_likes :
    map (λ (l : Like). l.account_id) (memory.tables (deliver (process memory) messages start)).likes
    ≡ 3 ∷ []
unfolding deliver process ◌>>=◌ is_exist like_ignore_duplicate delete_like change_likes_count
    change_popularity apply_like apply_unlike like_transaction unlike_transaction
messages_likes = refl

deliver-Tallied_example : Tallied (memory.tables (deliver (process memory) messages start))
deliver-Tallied_example = deliver-Tallied memory-MysqlLaws messages start start-Tallied

apply_like_again_example : memory.tables (apply_like memory 2 7 start).1 ≡ memory.tables start
apply_like_again_example = apply_like_again memory-MysqlLaws 2 7 start refl

apply_unlike_again_example : memory.tables (apply_unlike memory 3 7 start).1 ≡ memory.tables start
apply_unlike_again_example = apply_unlike_again memory-MysqlLaws 3 7 start refl

abbrev service : LikeService
service = record {
  has_video_repo = true;
  cache = some (record { has_rdb = true; breaker = none });
  has_like_mq = false;
  has_popularity_mq = true;
}

like-unlike-Tallied_example :
    Tallied (memory.tables (like memory service 3 7 start).1)
    × Tallied (memory.tables (unlike memory service 3 7 start).1)
like-unlike-Tallied_example =
    like-unlike-Tallied memory-MysqlLaws memory-QuietLaws service 3 7 start start-Tallied
