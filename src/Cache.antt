-- ===== src/Cache.antt =====
-- backend_repeat/internal/middleware/redis: breaker.go and the client. The calls of gobreaker and
-- of go-redis are those of the parameter `env`; metrics are left out.
pub mod Commands
pub mod Breaking
pub mod Quiet
pub mod Settings
mod Tests
use feed_system_golang.Base.{
  ℕ, Bool, true, false, Option, none, some, Error, breaker_open, redis_nil, open_state,
  too_many_requests, Result, ok, err, Exec, pure, raise, give, attempt, ◌>>=◌, if◌then◌else◌, ◌||◌,
}
use feed_system_golang.Backend.{Backend, BreakerState}
use feed_system_golang.Backend.Redis.{Command, Reply}

-- A `*Breaker` may be nil, and so may its `cb`.
pub record Breaker : Type 0 where
  pub has_cb : Bool

-- A `*Client` may be nil, and so may its `rdb` and its `breaker`.
pub record Client : Type 0 where
  pub has_rdb : Bool
  pub breaker : Option Breaker

abbrev pub is_miss : Error → Bool
is_miss redis_nil = true
is_miss _ = false

-- gobreaker's ErrOpenState and ErrTooManyRequests.
abbrev pub is_rejection : Error → Bool
is_rejection open_state = true
is_rejection too_many_requests = true
is_rejection _ = false

-- `State` and `stateLabel`: is the label "open" or "half_open"?
abbrev pub is_open : BreakerState → Bool
is_open BreakerState.closed = false
is_open BreakerState.half_open = true
is_open BreakerState.open_ = true

-- `GetRedisClient() != nil`
abbrev pub has_redis : Option Client → Bool
has_redis none = false
has_redis (some c) = c.has_rdb

module _ {W : Type 0} (env : Backend W) where
  -- What the wrapped function tells gobreaker: a miss is no failure.
  unfoldable pub report : Result Reply → Exec W (Result Reply)
  report (ok r) = pure (ok r)
  report (err e) = if is_miss e then pure (err e) else raise e

  unfoldable pub reported : Exec W Reply → Exec W (Result Reply)
  reported fn = do r ← attempt fn; report r

  -- The result for the caller: gobreaker's refusals become ErrBreakerOpen.
  unfoldable pub settle : Result (Result Reply) → Exec W Reply
  settle (ok r) = give r
  settle (err e) = if is_rejection e then raise breaker_open else raise e

  unfoldable pub guarded : Exec W Reply → Exec W Reply
  guarded fn = do r ← attempt (env.breaker_execute (reported fn)); settle r

  -- `Breaker.Execute`
  unfoldable pub execute : Option Breaker → Exec W Reply → Exec W Reply
  execute none fn = fn
  execute (some b) fn = if b.has_cb then guarded fn else fn

  -- `Client.IsBreakerOpen`
  unfoldable pub is_breaker_open : Option Client → W → Bool
  is_breaker_open none w = false
  is_breaker_open (some c) w = elim c.breaker [
    | none ↦ false
    | some b ↦ if b.has_cb then is_open (env.breaker_state w) else false
  ]

  -- The form that all commands of the client have: `absent` without a connection, or else the
  -- command under the breaker.
  unfoldable pub run : Option Client → Exec W Reply → Command → Exec W Reply
  run none absent c = absent
  run (some client) absent c =
      if client.has_rdb then execute client.breaker (env.command c) else absent
