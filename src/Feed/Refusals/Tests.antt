-- ===== src/Feed/Refusals/Tests.antt =====
-- ListLatest in a world whose breaker is open.
use feed_system_golang.Base.{
  ◌≡◌, ◌≢◌, refl, inl, Bool, false, true, none, some, open_state, breaker_open, Error, Result, ok,
  err, is_ok, Exec, attempt, arith, ◌>>=◌,
}
use feed_system_golang.Backend.{Backend}
use feed_system_golang.Backend.Redis.{Command, get}
use feed_system_golang.Backend.Memory.{Memory, memory, answer}
use feed_system_golang.Backend.Raises.{Raises}
use feed_system_golang.Cache.{Client, run, execute, guarded, settle}
use feed_system_golang.Cache.Breaking.{BreakerLaws}
use feed_system_golang.Cache.Commands.{zrange_scores}
use feed_system_golang.Feed.Repo.{find_latest, batch_get_liked}
use feed_system_golang.Feed.Listing.{list_latest_from_db, timed_page, build_feed_videos}
use feed_system_golang.Feed.Lookup.{Local}
use feed_system_golang.Feed.Latest.{Flights, latest_by_tail, list_latest}
use feed_system_golang.Feed.Errors.{Sources}
use feed_system_golang.Feed.Refusals.{list_latest-Raises}
use feed_system_golang.Feed.Sample.{three}

abbrev tripped : Backend Memory
tripped = record memory { breaker_execute = λ f m. (err open_state, m) }

abbrev guarded_client : Client
guarded_client = record { has_rdb = true; breaker = some (record { has_cb = true }) }

abbrev and_unshared : {A : Type 0} → Result A → Result (A × Bool)
and_unshared (ok a) = ok (a, false)
and_unshared (err e) = err e

abbrev alone : Flights Memory
alone = record {
  rebuild_flight = λ fn m. let (r, m') = fn m in (and_unshared r, m');
  videos_flight = λ fn m. let (r, m') = fn m in (and_unshared r, m');
}

abbrev nothing_held : Local Memory
nothing_held = record { held = λ id m. none; hold = λ id v m. (ok tt, m) }

-- MySQL answers, although the timeline cannot be read.
answered :
    is_ok (list_latest tripped alone nothing_held (some guarded_client) 1 10 none 0 three).0 ≡ true
unfolding list_latest latest_by_tail zrange_scores run execute guarded settle attempt
    list_latest_from_db find_latest timed_page build_feed_videos batch_get_liked ◌>>=◌
answered = refl

abbrev NotOpen : Error → Type 0
NotOpen e = e ≢ breaker_open

and_unshared_err : {A : Type 0} (r : Result A) (e : Error) → and_unshared r ≡ err e → r ≡ err e
and_unshared_err (ok a) e h = absurd (ground (arith, h))
and_unshared_err (err e') e h = ground (arith, h)

unshared-Raises :
    {A : Type 0} (fn : Exec Memory A)
    → Raises NotOpen fn
    → Raises {W = Memory} NotOpen (λ m. let (r, m') = fn m in (and_unshared r, m'))
unshared-Raises fn q = record { at = λ w e h. q.at w e (and_unshared_err (fn w).0 e h) }

answer-NotOpen : (c : Command) (e : Error) → answer c ≡ err e → NotOpen e
answer-NotOpen (get key) e h same = ground (arith, h, same)
answer-NotOpen _ e h same = ground (arith, h, same)

tripped-BreakerLaws : BreakerLaws tripped
tripped-BreakerLaws = record { execute_cases = λ m w. inl (open_state, refl, refl) }

tripped-Sources : Sources tripped alone nothing_held NotOpen
tripped-Sources = record {
  find_videos-Raises = λ q. record { at = λ w e h. absurd (ground (arith, h)) };
  find_likes-Raises = λ q. record { at = λ w e h. absurd (ground (arith, h)) };
  command-Raises = λ c. record { at = λ w e h. answer-NotOpen c e h };
  rebuild_flight-Raises = unshared-Raises;
  videos_flight-Raises = unshared-Raises;
  hold-Raises = λ id v. record { at = λ w e h. absurd (ground (arith, h)) };
  no_connection = λ same. ground (arith, same);
  out_of_range = λ same. ground (arith, same);
}

list_latest-Raises_example :
    Raises NotOpen (list_latest tripped alone nothing_held (some guarded_client) 1 10 none 0)
list_latest-Raises_example =
    list_latest-Raises tripped-BreakerLaws (some guarded_client) tripped-Sources
      (λ same. ground (arith, same)) 1 10 none 0
