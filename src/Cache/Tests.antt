-- ===== src/Cache/Tests.antt =====
-- The breaker at a missing key and at a refused connection.
use feed_system_golang.Base.{
  ◌≡◌, refl, ◌⊎◌, true, false, some, redis_nil, message, breaker_open, err, is_ok, Exec, raise,
  ◌>>=◌,
}
use feed_system_golang.Backend.Redis.{Reply}
use feed_system_golang.Backend.Memory.{Memory, memory, memory_of, no_tables}
use feed_system_golang.Backend.Memory.Laws.{memory-BreakerLaws}
use feed_system_golang.Cache.{report, reported, execute}
use feed_system_golang.Cache.Breaking.{execute_result}

abbrev start : Memory
start = memory_of no_tables

abbrev miss : Exec Memory Reply
miss = raise redis_nil

abbrev refused : Exec Memory Reply
refused = raise (message "connection refused")

miss-reported : is_ok (reported memory miss start).0 ≡ true
unfolding reported report ◌>>=◌
miss-reported = refl

refused-reported : is_ok (reported memory refused start).0 ≡ false
unfolding reported report ◌>>=◌
refused-reported = refl

execute_result_example :
    ((execute memory (some (record { has_cb = true })) miss start).0 ≡ err breaker_open)
    ⊎ ((called : Memory) × ((execute memory (some (record { has_cb = true })) miss start).0
          ≡ (miss called).0))
execute_result_example =
    execute_result memory memory-BreakerLaws (some (record { has_cb = true })) miss start
