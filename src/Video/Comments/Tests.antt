-- ===== src/Video/Comments/Tests.antt =====
-- A comment on a video, and the message of the comment worker that comes twice.
use feed_system_golang.Base.{String, ◌≡◌, refl, pos, true, false, none, [], ◌∷◌, length, ◌>>=◌}
use feed_system_golang.Backend.Entity.{Video, Comment}
use feed_system_golang.Backend.Memory.{Memory, memory, memory_of, no_tables}
use feed_system_golang.Backend.Memory.Laws.{memory-MysqlLaws, memory-QuietLaws}
use feed_system_golang.Video.Repo.{is_exist, change_popularity}
use feed_system_golang.Video.Comments.{
  CommentService, trimmed, create_comment, invalidate_comment_cache, publish, delete,
}
use feed_system_golang.Mq.{try_send, send_popularity}
use feed_system_golang.Video.Comments.Delete.{Deleted, delete-Deleted}
use feed_system_golang.Video.Comments.Publish.{Published, publish-Published}

abbrev video_7 : Video
video_7 = record {
  id = 7;
  author_id = 1;
  username = "ann";
  title = "t";
  description = "";
  play_url = "p";
  cover_url = "c";
  create_time = pos 5;
  likes_count = pos 0;
  popularity = pos 0;
}

abbrev start : Memory
start = memory_of (record no_tables { videos = video_7 ∷ [] })

abbrev comment : Comment
comment = record {
  id = 0;
  username = "bob";
  video_id = 7;
  author_id = 2;
  content = "fine";
  created_at = pos 0;
}

abbrev untrimmed : String → String
untrimmed text = text

abbrev service : CommentService
service = record { cache = none; has_comment_mq = false; has_popularity_mq = true }

written : length (memory.tables (publish memory service untrimmed comment start).1).comments ≡ 1
unfolding publish ◌>>=◌ is_exist create_comment change_popularity try_send send_popularity
    invalidate_comment_cache
written = refl

publish-Published_example :
    Published
      (trimmed untrimmed comment)
      (memory.tables start)
      (memory.tables (publish memory service untrimmed comment start).1)
publish-Published_example =
    publish-Published memory-MysqlLaws memory-QuietLaws service untrimmed comment start

abbrev with_comment : Memory
with_comment = memory_of (record no_tables { comments = record comment { id = 3 } ∷ [] })

delete-Deleted_example :
    Deleted 3 9
      (memory.tables with_comment)
      (memory.tables (delete memory service 3 9 with_comment).1)
delete-Deleted_example = delete-Deleted memory-MysqlLaws memory-QuietLaws service 3 9 with_comment
