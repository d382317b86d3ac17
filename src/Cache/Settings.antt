-- ===== src/Cache/Settings.antt =====
-- The configuration of breaker.go: `NewBreaker` fills in what is missing, and `ReadyToTrip` says when
-- the breaker opens. Durations are in milliseconds; the state changes are only counted.
use feed_system_golang.Base.{ℕ, ℤ, pos, leb_ℤ, leb, ◌==◌, String, str_eq, Bool, if◌then◌else◌}

pub record BreakerConfig : Type 0 where
  pub name : String
  pub max_requests : ℕ
  pub interval : ℤ
  pub timeout : ℤ
  pub consecutive_failures : ℕ

abbrev pub default_breaker_config : BreakerConfig
default_breaker_config = record {
  name = "redis";
  max_requests = 1;
  interval = pos 60000;
  timeout = pos 10000;
  consecutive_failures = 5;
}

abbrev pub positive_or : ℤ → ℤ → ℤ
positive_or default t = if leb_ℤ t (pos 0) then default else t

abbrev pub nonzero_or : ℕ → ℕ → ℕ
nonzero_or default n = if n == 0 then default else n

-- What `NewBreaker` hands to gobreaker.
unfoldable pub settings : BreakerConfig → BreakerConfig
settings cfg = record {
  name = if str_eq cfg.name "" then "redis" else cfg.name;
  max_requests = nonzero_or 1 cfg.max_requests;
  interval = positive_or (pos 60000) cfg.interval;
  timeout = positive_or (pos 10000) cfg.timeout;
  consecutive_failures = nonzero_or 5 cfg.consecutive_failures;
}

-- Of a number of failures in a row.
unfoldable pub ready_to_trip : BreakerConfig → ℕ → Bool
unfolding settings
ready_to_trip cfg failures = leb (settings cfg).consecutive_failures failures
