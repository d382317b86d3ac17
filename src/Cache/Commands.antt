-- ===== src/Cache/Commands.antt =====
-- cache.go, zset.go, set.go and redis.go of backend_repeat/internal/middleware/redis.
use feed_system_golang.Base.{
  ℕ, ℤ, pos, String, Bool, true, false, Option, none, some, List, [], Error, message, Result, Exec,
  pure, raise, give, ignore, ◌>>=◌, ◌>>◌, if◌then◌else◌, ltb_ℤ, str_eq, ◌=ℤ◌,
}
use feed_system_golang.Backend.{Backend}
use feed_system_golang.Backend.Redis.{
  Key, Value, text, as_text, Z, Bound, Command, Reply, set, setnx, get, mget, del, exists, expire,
  incr, pexpire, zincrby, zadd, zcard, zunionstore, zrem_range_by_rank, zrange_with_scores,
  zrev_range_with_scores, zrev_range, zrev_range_by_score, sadd, srem, smembers, done, value,
  values, int, zs, members,
}
use feed_system_golang.Cache.{Client, run, has_redis}

abbrev pub not_initialized : Error
not_initialized = message "redis client not initialized"

-- What a command's reply holds; of another kind, Go's zero value.
abbrev bytes_of : Reply → Option Value
bytes_of (value v) = some v
bytes_of _ = none

abbrev int_of : Reply → ℤ
int_of (int n) = n
int_of _ = pos 0

abbrev zs_of : Reply → List Z
zs_of (zs l) = l
zs_of _ = []

abbrev members_of : Reply → List (Option ℕ)
members_of (members l) = l
members_of _ = []

abbrev values_of : Reply → List (Option Value)
values_of (values l) = l
values_of _ = []

-- A call of the cache is made if there is a client, and its error is logged.
unfoldable pub when_cached : {W : Type 0} → Option Client → Exec W (Unit {0}) → Exec W (Unit {0})
when_cached none m = pure tt
when_cached (some client) m = ignore m

module _ {W : Type 0} (env : Backend W) (client : Option Client) where
  -- A command whose reply is not read: nothing without a connection.
  send : Command → Exec W (Unit {0})
  send c = do run env client (pure done) c; pure tt

  -- The same with an error without a connection.
  require : Command → Exec W Reply
  require c = run env client (raise not_initialized) c

  unfoldable pub set_bytes : Key → Value → ℕ → Exec W (Unit {0})
  unfolding send
  set_bytes key v ttl = send (set key v ttl)

  unfoldable pub del_key : Key → Exec W (Unit {0})
  unfolding send
  del_key key = send (del key)

  -- `none` is no bytes, and no error: the answer without a connection.
  unfoldable pub get_bytes : Key → Exec W (Option Value)
  get_bytes key = do r ← run env client (pure done) (get key); pure (bytes_of r)

  unfoldable pub zincr_by : Key → ℕ → ℤ → Exec W (Unit {0})
  unfolding send
  zincr_by key member increment = send (zincrby key member increment)

  -- The aggregate is the sum.
  unfoldable pub zunion_store_with_weights : Key → List (Key × ℕ) → Exec W (Unit {0})
  unfolding send
  zunion_store_with_weights dst keys = send (zunionstore dst keys)

  unfoldable pub expire_key : Key → ℕ → Exec W (Unit {0})
  unfolding send
  expire_key key ttl = send (expire key ttl)

  unfoldable pub mget_keys : List Key → Exec W (List (Option Value))
  unfolding require
  mget_keys keys = do r ← require (mget keys); pure (values_of r)

  unfoldable pub zadd_members : Key → List Z → Exec W (Unit {0})
  unfolding send
  zadd_members key added = send (zadd key added)

  unfoldable pub zrem_range : Key → ℤ → ℤ → Exec W (Unit {0})
  unfolding send
  zrem_range key start stop = send (zrem_range_by_rank key start stop)

  unfoldable pub zrange_scores : Key → ℤ → ℤ → Exec W (List Z)
  unfolding require
  zrange_scores key start stop = do r ← require (zrange_with_scores key start stop); pure (zs_of r)

  unfoldable pub zrev_by_score : Key → Bound → Bound → ℕ → ℕ → Exec W (List (Option ℕ))
  zrev_by_score key max min offset count = do
    r ← run env client (pure done) (zrev_range_by_score key max min offset count)
    pure (members_of r)

  unfoldable pub zrev_members : Key → ℤ → ℤ → Exec W (List (Option ℕ))
  zrev_members key start stop = do
    r ← run env client (pure done) (zrev_range key start stop)
    pure (members_of r)

  unfoldable pub key_exists : Key → Exec W Bool
  key_exists key = do r ← run env client (pure done) (exists key); pure (ltb_ℤ (pos 0) (int_of r))

  unfoldable pub zcard_key : Key → Exec W ℤ
  unfolding require
  zcard_key key = do r ← require (zcard key); pure (int_of r)

  unfoldable pub zrev_scores : Key → ℤ → ℤ → Exec W (List Z)
  unfolding require
  zrev_scores key start stop = do
    r ← require (zrev_range_with_scores key start stop)
    pure (zs_of r)

  unfoldable pub sadd_member : Key → ℕ → Exec W (Unit {0})
  unfolding require
  sadd_member key member = do require (sadd key member); pure tt

  unfoldable pub srem_member : Key → ℕ → Exec W (Unit {0})
  unfolding require
  srem_member key member = do require (srem key member); pure tt

  unfoldable pub set_members : Key → Exec W (List (Option ℕ))
  unfolding require
  set_members key = do r ← require (smembers key); pure (members_of r)

  -- The script of `IncrementWithExpire`, which Redis runs as one step and outside the breaker.
  count_up : Key → ℕ → Exec W ℤ
  count_up key ttl = do
    r ← env.command (incr key)
    if int_of r =ℤ pos 1
        then (do env.command (pexpire key ttl); pure (int_of r))
        else pure (int_of r)

  unfoldable pub increment_with_expire : Key → ℕ → Exec W ℤ
  unfolding count_up
  increment_with_expire key ttl = if has_redis client then count_up key ttl else pure (pos 0)

  -- `Lock` with the token that `randToken` gave; false if another holds the key.
  unfoldable pub lock : Key → Result String → ℕ → Exec W (String × Bool)
  lock key token ttl =
      if has_redis client
      then (do
        t ← give token
        r ← env.command (setnx key (text t) ttl)
        pure (t, ltb_ℤ (pos 0) (int_of r)))
      else pure ("", false)

  holds : Option Value → String → Bool
  holds none token = false
  holds (some v) token = elim (as_text v) [ none ↦ false | some t ↦ str_eq t token ]

  release : Key → Bool → Exec W (Unit {0})
  release key true = do env.command (del key); pure tt
  release key false = pure tt

  -- The script of `UnLock`: the key goes only if it still holds the caller's token.
  unfoldable pub unlock : Key → String → Exec W (Unit {0})
  unfolding holds release
  unlock key token =
      if has_redis client
      then (do r ← env.command (get key); release key (holds (bytes_of r) token))
      else raise (message "redis client is nil")
