-- ===== src/Worker/Social/Upkeep.antt =====
-- The upkeep of inboxes and sets does not touch the tables.
use feed_system_golang.Base.{
  ℕ, ℤ, Bool, true, false, Option, none, some, List, [], ◌∷◌, Result, ok, err,
}
use feed_system_golang.Backend.{Backend}
use feed_system_golang.Backend.Redis.{Key, Z}
use feed_system_golang.Backend.Quiet.{Quiet, quiet_rules, Quiet-bind}
use feed_system_golang.Backend.Laws.{MysqlLaws, QuietLaws}
use feed_system_golang.Cache.{Client}
use feed_system_golang.Cache.Commands.{
  zadd_members, zrem_range, zrev_scores, sadd_member, srem_member,
}
use feed_system_golang.Cache.Quiet.{run-Quiet, get_bytes-Quiet, set_bytes-Quiet, expire_key-Quiet}
use feed_system_golang.Social.Repo.{count_followers}
use feed_system_golang.Worker.Social.{
  count_and_cache, big_by_count, is_big_v, add_each, fill_inbox, backfill_found, backfill_inbox,
  maintain_follow, on_follow, on_unfollow,
}

module _ {W : Type 0} {env : Backend W} (laws : MysqlLaws env) (quiet : QuietLaws env)
    (cache : Option Client) where
  zadd_members-Quiet : (key : Key) (l : List Z) → Quiet env (zadd_members env cache key l)
  unfolding zadd_members
  zadd_members-Quiet key l = search (quiet_rules, run-Quiet quiet)

  zrem_range-Quiet : (key : Key) (a b : ℤ) → Quiet env (zrem_range env cache key a b)
  unfolding zrem_range
  zrem_range-Quiet key a b = search (quiet_rules, run-Quiet quiet)

  zrev_scores-Quiet : (key : Key) (a b : ℤ) → Quiet env (zrev_scores env cache key a b)
  unfolding zrev_scores
  zrev_scores-Quiet key a b = search (quiet_rules, run-Quiet quiet)

  sadd_member-Quiet : (key : Key) (x : ℕ) → Quiet env (sadd_member env cache key x)
  unfolding sadd_member
  sadd_member-Quiet key x = search (quiet_rules, run-Quiet quiet)

  srem_member-Quiet : (key : Key) (x : ℕ) → Quiet env (srem_member env cache key x)
  unfolding srem_member
  srem_member-Quiet key x = search (quiet_rules, run-Quiet quiet)

  count_and_cache-Quiet : (id : ℕ) → Quiet env (count_and_cache env cache id)
  unfolding count_and_cache count_followers
  count_and_cache-Quiet id =
      search (quiet_rules, laws.count_socials-Quiet, set_bytes-Quiet quiet cache)

  big_by_count-Quiet : (id : ℕ) (n : Option ℤ) → Quiet env (big_by_count env cache id n)
  unfolding big_by_count
  big_by_count-Quiet id (some n) = search quiet_rules
  big_by_count-Quiet id none = count_and_cache-Quiet id

  is_big_v-Quiet : (id : ℕ) → Quiet env (is_big_v env cache id)
  unfolding is_big_v
  is_big_v-Quiet id = search (quiet_rules, get_bytes-Quiet quiet cache, big_by_count-Quiet)

  add_each-Quiet : (key : Key) (l : List Z) → Quiet env (add_each env cache key l)
  unfolding add_each
  add_each-Quiet key [] = search quiet_rules
  add_each-Quiet key (v ∷ l) =
      Quiet-bind (search (quiet_rules, zadd_members-Quiet)) (λ _. add_each-Quiet key l)

  fill_inbox-Quiet : (key : Key) (l : List Z) (b : Bool) → Quiet env (fill_inbox env cache key l b)
  unfolding fill_inbox
  fill_inbox-Quiet key l true = search (quiet_rules, quiet.pipeline-Quiet)
  fill_inbox-Quiet key l false = search (quiet_rules, add_each-Quiet, zrem_range-Quiet)

  backfill_found-Quiet : (id : ℕ) (r : Result (List Z)) → Quiet env (backfill_found env cache id r)
  unfolding backfill_found
  backfill_found-Quiet id (err e) = search quiet_rules
  backfill_found-Quiet id (ok []) = search quiet_rules
  backfill_found-Quiet id (ok (v ∷ l)) = search (quiet_rules, fill_inbox-Quiet)

  backfill_inbox-Quiet : (f v : ℕ) → Quiet env (backfill_inbox env cache f v)
  unfolding backfill_inbox
  backfill_inbox-Quiet f v = search (quiet_rules, zrev_scores-Quiet, backfill_found-Quiet)

  maintain_follow-Quiet : (f v : ℕ) (r : Result Bool) → Quiet env (maintain_follow env cache f v r)
  unfolding maintain_follow
  maintain_follow-Quiet f v (ok true) =
      search (quiet_rules, sadd_member-Quiet, expire_key-Quiet quiet cache)
  maintain_follow-Quiet f v (ok false) = backfill_inbox-Quiet f v
  maintain_follow-Quiet f v (err e) = backfill_inbox-Quiet f v

  pub on_follow-Quiet : (f v : ℕ) → Quiet env (on_follow env cache f v)
  unfolding on_follow
  on_follow-Quiet f v = search (quiet_rules, is_big_v-Quiet, maintain_follow-Quiet)

  pub on_unfollow-Quiet : (f v : ℕ) → Quiet env (on_unfollow env cache f v)
  unfolding on_unfollow
  on_unfollow-Quiet f v = search (quiet_rules, srem_member-Quiet)
