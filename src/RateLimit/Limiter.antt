-- ===== src/RateLimit/Limiter.antt =====
-- The middlewares of ratelimit.go and sliding_window.go. What they call and do not define stands in
-- `Limiting`; a request is the part of gin's context that they read, and the answer says whether
-- the chain goes on (`c.Next`) or ends with status 429. Counting the rejections is left out.
use feed_system_golang.Base.{
  ℕ, ℤ, pos, String, Bool, true, ◌||◌, not, Option, none, some, Result, ok, err, Exec, pure,
  attempt, gets, ◌>>=◌, if◌then◌else◌, leb_ℤ, ltb_ℤ, ◌=ℤ◌, str_eq, ◌==◌,
}
use feed_system_golang.Backend.{Backend}
use feed_system_golang.Backend.Redis.{Key, fixed_window, sliding_window}
use feed_system_golang.Cache.{Client, has_redis, is_breaker_open}
use feed_system_golang.Cache.Commands.{increment_with_expire}

pub data Verdict : Type 0 where
  next refused : Verdict

-- What a limiter asks of a request: `c.ClientIP()`, and the account that the token named, if any.
pub record Context : Type 0 where
  pub client_ip : String
  pub account_id : Option ℕ

abbrev pub KeyFunc : Type 0
KeyFunc = Context → Option String

pub record Limiting (W : Type 0) : Type 0 where
  -- `strings.TrimSpace`, and printing a number in decimal.
  pub trim_space : String → String
  pub decimal : ℕ → String
  -- `slidingWindowScript.Run` with window, limit, now and member.
  pub run_sliding : Key → ℕ → ℤ → ℤ → String → Exec W ℤ
  -- `time.Now().UnixNano()`, `atomic.AddUint64(&memberSeq, 1)`, and the two printed.
  pub nanos : W → ℤ
  pub next_seq : Exec W ℕ
  pub member_text : ℤ → ℕ → String

module _ {W : Type 0} (env : Backend W) (lib : Limiting W) where
  unfoldable pub key_by_ip : KeyFunc
  key_by_ip c = let ip = lib.trim_space c.client_ip in if str_eq ip "" then none else some ip

  -- `KeyByAccount`, and `KeyByAccountStrict`, which prints the number in another way.
  unfoldable pub key_by_account : KeyFunc
  key_by_account c = elim c.account_id [
    | none ↦ none
    | some account_id ↦ if account_id == 0 then none else some (lib.decimal account_id)
  ]

  unfoldable pub normalize_prefix : String → String
  normalize_prefix p = let p = lib.trim_space p in if str_eq p "" then "default" else p

  unfoldable pub build_key : String → String → Key
  unfolding normalize_prefix
  build_key key_prefix subject = fixed_window (normalize_prefix key_prefix) (lib.trim_space subject)

  unfoldable pub build_sliding_key : String → String → Key
  unfolding normalize_prefix
  build_sliding_key key_prefix subject =
      sliding_window (normalize_prefix key_prefix) (lib.trim_space subject)

  -- No limit stands without a client, a key function, a number or a window.
  unfoldable pub is_off : Option Client → ℤ → ℕ → Option KeyFunc → Bool
  is_off none max window key_func = true
  is_off (some cache) max window none = true
  is_off (some cache) max window (some key_func) = leb_ℤ max (pos 0) || window == 0

  unfoldable pub subject_of : Option KeyFunc → Context → Option String
  subject_of none c = none
  subject_of (some key_func) c = key_func c

  -- The answer to the count: an error lets the request through.
  unfoldable pub by_count : ℤ → Result ℤ → Verdict
  by_count max (err e) = next
  by_count max (ok count) = if ltb_ℤ max count then refused else next

  unfoldable pub limit_subject : Option Client → String → ℤ → ℕ → Option String → Exec W Verdict
  limit_subject cache key_prefix max window none = pure next
  limit_subject cache key_prefix max window (some subject) = do
    r ← attempt (increment_with_expire env cache (build_key key_prefix subject) window)
    pure (by_count max r)

  unfoldable pub limit : Option Client → String → ℤ → ℕ → Option KeyFunc → Context → Exec W Verdict
  unfolding limit_subject
  limit cache key_prefix max window key_func c =
      if is_off cache max window key_func
      then pure next
      else limit_subject cache key_prefix max window (subject_of key_func c)

  unfoldable pub by_script : Result ℤ → Verdict
  by_script (err e) = next
  by_script (ok result) = if result =ℤ pos 1 then refused else next

  -- One reading of the clock, in milliseconds and in nanoseconds.
  unfoldable pub ask_script : String → ℤ → ℕ → String → Exec W Verdict
  ask_script key_prefix max window subject = do
    now ← gets env.clock
    t ← gets lib.nanos
    seq ← lib.next_seq
    r ← attempt (
        lib.run_sliding (build_sliding_key key_prefix subject) window max now
          (lib.member_text t seq))
    pure (by_script r)

  unfoldable pub slide_subject : Option Client → String → ℤ → ℕ → Option String → Exec W Verdict
  unfolding ask_script
  slide_subject cache key_prefix max window none = pure next
  slide_subject cache key_prefix max window (some subject) = do
    stopped ← gets (is_breaker_open env cache)
    if not (has_redis cache) || stopped then pure next else ask_script key_prefix max window subject

  unfoldable pub sliding_window_limit :
      Option Client → String → ℤ → ℕ → Option KeyFunc → Context → Exec W Verdict
  unfolding slide_subject
  sliding_window_limit cache key_prefix max window key_func c =
      if is_off cache max window key_func
      then pure next
      else slide_subject cache key_prefix max window (subject_of key_func c)

  unfoldable pub sliding_window_limit_by_ip :
      Option Client → String → ℤ → ℕ → Context → Exec W Verdict
  sliding_window_limit_by_ip cache key_prefix max window =
      sliding_window_limit cache key_prefix max window (some key_by_ip)

  unfoldable pub sliding_window_limit_by_account :
      Option Client → String → ℤ → ℕ → Context → Exec W Verdict
  sliding_window_limit_by_account cache key_prefix max window =
      sliding_window_limit cache key_prefix max window (some key_by_account)
