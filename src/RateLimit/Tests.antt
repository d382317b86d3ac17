-- ===== src/RateLimit/Tests.antt =====
-- A sorted set as a list, and the sliding window on it.
use feed_system_golang.Base.{
  ℕ, ◌+◌, ◌≤◌, ◌≡◌, refl, String, str_eq, Bool, true, false, ◌&&◌, ◌||◌, List, [], ◌∷◌, ltb,
  if◌then◌else◌, arith,
}
use feed_system_golang.RateLimit.Script.{ZSet, Request, admitted}
use feed_system_golang.Base.{suc, pos, ok, min, ◌-◌, Result, Option, none, some, ◌>>=◌}
use feed_system_golang.Backend.{Backend}
use feed_system_golang.Backend.Redis.{Command, Reply, Key, incr, int, done}
use feed_system_golang.Backend.Memory.{Memory, memory, no_tables}
use feed_system_golang.Cache.{Client, has_redis, is_breaker_open}
use feed_system_golang.RateLimit.Limiter.{
  Limiting, Context, KeyFunc, build_key, key_by_account, sliding_window_limit, slide_subject,
  ask_script, by_script, refused, is_off, subject_of,
}
use feed_system_golang.RateLimit.Fixed.{CounterLaws, Limited, let_through, let_through_min}
use feed_system_golang.RateLimit.Refusal.{Full, sliding_window_limit-Full}
use feed_system_golang.RateLimit.Window.{ZSetLaws, sliding_limited, count_times, in_window}

abbrev of_members : (ℕ → Bool) → List (ℕ × String) → ℕ
of_members p [] = 0
of_members p ((t, m) ∷ l) = (if p t then 1 else 0) + of_members p l

abbrev is_in : String → List (ℕ × String) → Bool
is_in m [] = false
is_in m ((t, m') ∷ l) = str_eq m' m || is_in m l

abbrev later_than : ℕ → ℕ → List (ℕ × String) → List (ℕ × String)
later_than now window [] = []
later_than now window ((t, m) ∷ l) =
    let rest = later_than now window l in if ltb now (t + window) then (t, m) ∷ rest else rest

abbrev zset : ZSet (List (ℕ × String))
zset = record {
  at_time = λ now s. s;
  remove_until = λ now window s. later_than now window s;
  zcard = λ s. of_members (λ _. true) s;
  zadd = λ t m s. (t, m) ∷ s;
  pexpire = λ window s. s;
  count = of_members;
  has = is_in;
}

of_members-later_than :
    (p : ℕ → Bool) (now window : ℕ) (l : List (ℕ × String))
    → of_members p (later_than now window l) ≡ of_members (λ y. ltb now (y + window) && p y) l
of_members-later_than p now window [] = refl
of_members-later_than p now window ((t, m) ∷ l) =
    ground (arith, of_members-later_than p now window l)

is_in-later_than :
    (m : String) (now window : ℕ) (l : List (ℕ × String))
    → is_in m l ≡ false
    → is_in m (later_than now window l) ≡ false
is_in-later_than m now window [] h = refl
is_in-later_than m now window ((t, m') ∷ l) h = ground (arith, is_in-later_than m now window l)

zset-ZSetLaws : ZSetLaws zset 10
zset-ZSetLaws = record {
  zcard-count = λ s. refl;
  count-remove = λ p now s. of_members-later_than p now 10 s;
  count-zadd = λ p t m s h. refl;
  count-pexpire = λ p s. refl;
  count-at_time = λ p now s. refl;
  has-remove = λ m now s h. is_in-later_than m now 10 s h;
  has-zadd = λ m t m' s. refl;
  has-pexpire = λ m s. refl;
  has-at_time = λ m now s h. h;
}

-- Three requests within ten milliseconds, two allowed; the fourth comes when the first is over.
abbrev burst : List Request
burst =
    record { now = 5; member = "a" }
    ∷ record { now = 6; member = "b" }
    ∷ record { now = 7; member = "c" }
    ∷ record { now = 15; member = "d" }
    ∷ []

burst-admitted : admitted zset 10 2 burst [] ≡ 5 ∷ 6 ∷ 15 ∷ []
unfolding admitted feed_system_golang.RateLimit.Script.sliding_script
burst-admitted = refl

sliding_limited_example : count_times (in_window 10 15) (admitted zset 10 2 burst []) ≤ 2
sliding_limited_example =
    sliding_limited zset 10 2 zset-ZSetLaws [] (λ p. refl) 0 burst
      (omega arith, (omega arith, (omega arith, (omega arith, tt))))
      (
        refl,
        (refl, (refl, (refl, tt))),
        (refl, (refl, (refl, tt)), (refl, (refl, tt), (refl, tt, tt))),
      )
      15

-- A Redis with one counter, which stands in `next_id`, and a script that always answers 1.
abbrev count_command : Command → Memory → Result Reply × Memory
count_command (incr key) m = (ok (int (pos (suc m.next_id))), record m { next_id = suc m.next_id })
count_command _ m = (ok done, m)

abbrev counting : Backend Memory
counting = record memory { command = count_command }

abbrev limiting : Limiting Memory
limiting = record {
  trim_space = λ s. s;
  decimal = λ n. "7";
  run_sliding = λ key window max now member m. (ok (pos 1), m);
  nanos = λ m. pos 0;
  next_seq = λ m. (ok 1, m);
  member_text = λ t n. "0:1";
}

abbrev connected : Option Client
connected = some (record { has_rdb = true; breaker = none })

abbrev by_account : Option KeyFunc
by_account = some (key_by_account counting limiting)

abbrev request : Context
request = record { client_ip = "10.0.0.1"; account_id = some 7 }

abbrev fresh_window : Memory
fresh_window = record { tables = no_tables; next_id = 0; sent = [] }

abbrev counting-CounterLaws : (key : Key) → CounterLaws counting limiting key
counting-CounterLaws key = record {
  counted = λ m. m.next_id;
  incr-answers = λ m. refl;
  incr-counts = λ m. refl;
  pexpire-answers = λ ttl m. (done, refl);
  pexpire-keeps = λ ttl m. refl;
}

on_for_7 : Limited counting limiting connected "like" "7" 3 60000 by_account request
unfolding is_off subject_of key_by_account
on_for_7 = (refl, refl, refl)

let_through_min_example :
    let_through counting limiting 5 connected "like" (pos 3) 60000 by_account request fresh_window
    ≡ min 5 (3 - 0)
let_through_min_example =
    let_through_min counting limiting connected "like" "7" 3 60000 by_account request
      (counting-CounterLaws (build_key counting limiting "like" "7")) on_for_7 5 fresh_window

refused_now :
    (sliding_window_limit counting limiting connected "like"
      (pos 3)
      60000
      by_account
      request
      fresh_window).0
    ≡ ok refused
unfolding sliding_window_limit slide_subject is_off subject_of ask_script by_script is_breaker_open
    ◌>>=◌ key_by_account
refused_now = refl

sliding_window_limit-Full_example :
    (subject : String) × (is_off counting limiting connected (pos 3) 60000 by_account ≡ false)
    × (subject_of counting limiting by_account request ≡ some subject)
    × (has_redis connected ≡ true)
    × (is_breaker_open counting connected fresh_window ≡ false)
    × Full counting limiting connected "like" (pos 3) 60000 subject fresh_window
sliding_window_limit-Full_example =
    sliding_window_limit-Full counting limiting connected "like" (pos 3) 60000 by_account request
      fresh_window refused_now
