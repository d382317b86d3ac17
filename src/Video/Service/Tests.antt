-- ===== src/Video/Service/Tests.antt =====
-- A video that is published, and one that somebody else tries to delete.
use feed_system_golang.Base.{ℕ, String, ◌≡◌, refl, pos, Option, none, [], ◌∷◌, ok, length, ◌>>=◌}
use feed_system_golang.Backend.Entity.{Video}
use feed_system_golang.Backend.Quiet.{Quiet}
use feed_system_golang.Backend.Memory.{Memory, memory, memory_of, no_tables}
use feed_system_golang.Backend.Memory.Laws.{memory-MysqlLaws, memory-QuietLaws}
use feed_system_golang.Cache.{Client}
use feed_system_golang.Video.Repo.{publish_video}
use feed_system_golang.Video.Service.{DetailCache, trimmed_video, publish, delete}
use feed_system_golang.Video.Service.Publishing.{PublishOutcome, publish-outcome}
use feed_system_golang.Video.Service.Deleting.{DeletedOwn, delete-DeletedOwn}

abbrev video_7 : Video
video_7 = record {
  id = 7;
  author_id = 1;
  username = "ann";
  title = "t";
  description = "";
  play_url = "p";
  cover_url = "c";
  create_time = pos 5;
  likes_count = pos 0;
  popularity = pos 0;
}

abbrev no_client : Option Client
no_client = none

abbrev as_it_is : String → String
as_it_is text = text

abbrev holds_nothing : DetailCache Memory
holds_nothing = record {
  held = λ id m. none;
  hold = λ id v m. (ok tt, m);
  unhold = λ id m. (ok tt, m);
}

abbrev empty : Memory
empty = memory_of no_tables

abbrev with_video : Memory
with_video = memory_of (record no_tables { videos = video_7 ∷ [] })

outbox_rows :
    length (memory.tables (publish memory holds_nothing no_client as_it_is video_7 empty).1).outbox
    ≡ 1
unfolding publish publish_video ◌>>=◌
outbox_rows = refl

publish-outcome_example :
    PublishOutcome memory
      (trimmed_video as_it_is video_7)
      (memory.tables empty)
      (publish memory holds_nothing no_client as_it_is video_7 empty)
publish-outcome_example =
    publish-outcome memory-MysqlLaws holds_nothing no_client as_it_is video_7 empty

unhold-Quiet : (id : ℕ) → Quiet memory (holds_nothing.unhold id)
unhold-Quiet id = record { at = λ w. refl }

delete-DeletedOwn_example :
    DeletedOwn 7 1
      (memory.tables with_video)
      (memory.tables (delete memory holds_nothing no_client 7 1 with_video).1)
delete-DeletedOwn_example =
    delete-DeletedOwn memory-MysqlLaws memory-QuietLaws holds_nothing no_client unhold-Quiet 7 1
      with_video
