-- ===== src/RateLimit/Fixed.antt =====
-- The fixed window of ratelimit.go while its key lives and Redis answers.
use feed_system_golang.Base.{
  ℕ, zero, suc, pos, ◌+◌, ◌-◌, ◌≡◌, min, String, true, false, Option, some, ok, err, ℤ, Result,
  ◌>>=◌, arith,
}
use feed_system_golang.Backend.{Backend}
use feed_system_golang.Backend.Redis.{Key, Reply, incr, pexpire, int}
use feed_system_golang.Cache.{Client, has_redis}
use feed_system_golang.Cache.Commands.{increment_with_expire}
use feed_system_golang.RateLimit.Limiter.{
  Verdict, next, refused, Context, KeyFunc, Limiting, limit, is_off, subject_of, build_key,
  by_count,
}

abbrev passes : Verdict → ℕ
passes next = 1
passes refused = 0

abbrev verdict_of : Result Verdict → ℕ
verdict_of (ok v) = passes v
verdict_of (err e) = 0

module _ {W : Type 0} (env : Backend W) (lib : Limiting W) where
  -- A counter at the key: `INCR` counts up and answers the new count, and `PEXPIRE` keeps it.
  pub record CounterLaws (key : Key) : Type 0 where
    pub counted : W → ℕ
    pub incr-answers : (w : W) → (env.command (incr key) w).0 ≡ ok (int (pos (suc (counted w))))
    pub incr-counts : (w : W) → counted (env.command (incr key) w).1 ≡ suc (counted w)
    pub pexpire-answers :
        (ttl : ℕ) (w : W) → (r : Reply) × ((env.command (pexpire key ttl) w).0 ≡ ok r)
    pub pexpire-keeps : (ttl : ℕ) (w : W) → counted (env.command (pexpire key ttl) w).1 ≡ counted w

  -- How many of `n` requests in a row the limiter lets through.
  abbrev pub let_through : ℕ → Option Client → String → ℤ → ℕ → Option KeyFunc → Context → W → ℕ
  let_through zero cache prefix max window f c w = 0
  let_through (suc n) cache prefix max window f c w =
      let (r, after) = limit env lib cache prefix max window f c w in
      verdict_of r + let_through n cache prefix max window f c after

  module _ (cache : Option Client) (key : Key) (ttl : ℕ) (laws : CounterLaws key) where
    increment-answers :
        has_redis cache ≡ true
        → (w : W) → (increment_with_expire env cache key ttl w).0 ≡ ok (pos (suc (laws.counted w)))
    unfolding increment_with_expire ◌>>=◌
    increment-answers has w =
        ground
          (arith, has, laws.incr-answers w, laws.pexpire-answers ttl (env.command (incr key) w).1)

    increment-counts :
        has_redis cache ≡ true
        → (w : W)
        → laws.counted (increment_with_expire env cache key ttl w).1 ≡ suc (laws.counted w)
    unfolding increment_with_expire ◌>>=◌
    increment-counts has w = ground (
      arith,
      has,
      laws.incr-answers w,
      laws.incr-counts w,
      laws.pexpire-answers ttl (env.command (incr key) w).1,
      laws.pexpire-keeps ttl (env.command (incr key) w).1,
    )

  module _ (cache : Option Client) (prefix subject : String) (max : ℕ) (window : ℕ)
      (f : Option KeyFunc) (c : Context) where
    abbrev key_of : Key
    key_of = build_key env lib prefix subject

    abbrev let_now : ℕ → W → ℕ
    let_now n = let_through n cache prefix (pos max) window f c

    -- The limiter is on, and the request has a subject.
    abbrev pub Limited : Type 0
    Limited =
        (is_off env lib cache (pos max) window f ≡ false)
        × (subject_of env lib f c ≡ some subject)
        × (has_redis cache ≡ true)

    limit_counts :
        (laws : CounterLaws key_of) (w : W)
        → Limited
        → ((limit env lib cache prefix (pos max) window f c w).0
            ≡ ok (by_count env lib (pos max) (ok (pos (suc (laws.counted w))))))
          × (laws.counted (limit env lib cache prefix (pos max) window f c w).1
              ≡ suc (laws.counted w))
    unfolding limit ◌>>=◌
    limit_counts laws w (on, who, has) =
        let answer = increment-answers cache key_of window laws has w in
        let count = increment-counts cache key_of window laws has w in
        (ground (arith, on, who, answer), ground (arith, on, who, count))

    -- While the key lives and Redis answers, of `n` requests in a row as many pass as are left of
    -- the limit `max`, and every later one is refused.
    pub let_through_min :
        (laws : CounterLaws key_of)
        → Limited
        → (n : ℕ) (w : W) → let_now n w ≡ min n (max - laws.counted w)
    unfolding by_count
    let_through_min laws on zero w = omega arith
    let_through_min laws on (suc n) w =
        let (answer, count) = limit_counts laws w on in
        let rest =
          let_through_min laws on n (limit env lib cache prefix (pos max) window f c w).1 in
        ground (arith, answer, count, rest)
