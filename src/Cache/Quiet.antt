-- ===== src/Cache/Quiet.antt =====
-- No call of the Redis client touches the tables.
use feed_system_golang.Base.{ℕ, ℤ, Option, none, some, Result, ok, err, Exec}
use feed_system_golang.Backend.{Backend}
use feed_system_golang.Backend.Quiet.{Quiet, quiet_rules, Quiet-if}
use feed_system_golang.Backend.Laws.{QuietLaws}
use feed_system_golang.Backend.Redis.{Key, Value, Command, Reply}
use feed_system_golang.Cache.{Breaker, Client, report, reported, settle, guarded, execute, run}
use feed_system_golang.Cache.Commands.{
  when_cached, set_bytes, del_key, get_bytes, zincr_by, expire_key,
}

module _ {W : Type 0} {env : Backend W} (laws : QuietLaws env) where
  report-Quiet : (r : Result Reply) → Quiet env (report env r)
  unfolding report
  report-Quiet (ok r) = search quiet_rules
  report-Quiet (err e) = search quiet_rules

  settle-Quiet : (r : Result (Result Reply)) → Quiet env (settle env r)
  unfolding settle
  settle-Quiet (ok r) = search quiet_rules
  settle-Quiet (err e) = search quiet_rules

  guarded-Quiet : (fn : Exec W Reply) → Quiet env fn → Quiet env (guarded env fn)
  unfolding guarded reported
  guarded-Quiet fn q = search (quiet_rules, laws.breaker_execute-Quiet, report-Quiet, settle-Quiet)

  execute-Quiet :
      (b : Option Breaker) (fn : Exec W Reply) → Quiet env fn → Quiet env (execute env b fn)
  unfolding execute
  execute-Quiet none fn q = q
  execute-Quiet (some b) fn q = Quiet-if b.has_cb (guarded-Quiet fn q) q

  pub run-Quiet :
      (client : Option Client) (absent : Exec W Reply) (c : Command)
      → Quiet env absent
      → Quiet env (run env client absent c)
  unfolding run
  run-Quiet none absent c q = q
  run-Quiet (some client) absent c q =
      Quiet-if client.has_rdb (execute-Quiet client.breaker (env.command c) (laws.command-Quiet c))
        q

  module _ (client : Option Client) where
    pub set_bytes-Quiet :
        (key : Key) (v : Value) (ttl : ℕ) → Quiet env (set_bytes env client key v ttl)
    unfolding set_bytes
    set_bytes-Quiet key v ttl = search (quiet_rules, run-Quiet)

    pub del_key-Quiet : (key : Key) → Quiet env (del_key env client key)
    unfolding del_key
    del_key-Quiet key = search (quiet_rules, run-Quiet)

    pub get_bytes-Quiet : (key : Key) → Quiet env (get_bytes env client key)
    unfolding get_bytes
    get_bytes-Quiet key = search (quiet_rules, run-Quiet)

    pub zincr_by-Quiet :
        (key : Key) (member : ℕ) (n : ℤ) → Quiet env (zincr_by env client key member n)
    unfolding zincr_by
    zincr_by-Quiet key member n = search (quiet_rules, run-Quiet)

    pub expire_key-Quiet : (key : Key) (ttl : ℕ) → Quiet env (expire_key env client key ttl)
    unfolding expire_key
    expire_key-Quiet key ttl = search (quiet_rules, run-Quiet)

pub when_cached-Quiet :
    {W : Type 0} {env : Backend W} (c : Option Client) (m : Exec W (Unit {0}))
    → Quiet env m
    → Quiet env (when_cached c m)
unfolding when_cached
when_cached-Quiet none m q = search quiet_rules
when_cached-Quiet (some client) m q = search quiet_rules
