-- ===== src/Worker/Social/Tests.antt =====
-- The social service and the social worker at two accounts.
use feed_system_golang.Base.{ℕ, String, ◌≡◌, refl, true, Option, none, some, [], ◌∷◌, pos, ◌>>=◌}
use feed_system_golang.Backend.Entity.{Account, Social}
use feed_system_golang.Backend.Events.{SocialEvent}
use feed_system_golang.Backend.Memory.{Memory, memory, memory_of, no_tables}
use feed_system_golang.Backend.Memory.Laws.{memory-MysqlLaws, memory-QuietLaws}
use feed_system_golang.Mq.{send_follow}
use feed_system_golang.Cache.{Client}
use feed_system_golang.Social.Repo.{insert_follow, is_followed}
use feed_system_golang.Social.Relation.{follows}
use feed_system_golang.Account.Repo.{find_by_id}
use feed_system_golang.Social.Service.{follow, unfollow}
use feed_system_golang.Social.Contract.{FollowOutcome, UnfollowOutcome, follow-unfollow-outcome}
use feed_system_golang.Worker.Social.{process}
use feed_system_golang.Worker.Social.Relation.{Outcome, change_of, process-outcome}

abbrev account_of : ℕ → String → Account
account_of id name = record {
  id = id;
  username = name;
  password = "";
  token = "";
  follower_count = pos 0;
}

abbrev start : Memory
start = memory_of (record no_tables { accounts = account_of 1 "ann" ∷ account_of 2 "bob" ∷ [] })

abbrev one_follows_two : Social
one_follows_two = record { id = 0; follower_id = 1; vlogger_id = 2 }

followed : follows 1 2 (memory.tables (follow memory true one_follows_two start).1) ≡ true
unfolding follow find_by_id is_followed insert_follow ◌>>=◌ send_follow
followed = refl

follow-unfollow-outcome_example :
    FollowOutcome memory-MysqlLaws memory-QuietLaws one_follows_two
      (memory.tables start)
      (follow memory true one_follows_two start)
    × UnfollowOutcome memory-MysqlLaws memory-QuietLaws one_follows_two
        (memory.tables start)
        (unfollow memory true one_follows_two start)
follow-unfollow-outcome_example =
    follow-unfollow-outcome memory-MysqlLaws memory-QuietLaws true one_follows_two start

abbrev cache : Option Client
cache = some (record { has_rdb = true; breaker = none })

abbrev message_of : String → ℕ → ℕ → Option SocialEvent
message_of action f v = some (record { action = action; follower_id = f; vlogger_id = v })

process-outcome_example :
    Outcome memory-MysqlLaws memory-QuietLaws cache
      (change_of (message_of "follow" 1 2))
      (memory.tables start)
      (process memory cache (message_of "follow" 1 2) start)
process-outcome_example =
    process-outcome memory-MysqlLaws memory-QuietLaws cache (message_of "follow" 1 2) start
