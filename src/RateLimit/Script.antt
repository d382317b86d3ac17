-- ===== src/RateLimit/Script.antt =====
-- The script of sliding_window.go. Redis' sorted sets are the parameter `ZSet`: the script sees one
-- key, a time is in milliseconds, and a member is the caller's unique text.
use feed_system_golang.Base.{ℕ, String, Bool, true, false, List, [], ◌∷◌, ltb, if◌then◌else◌}

-- The commands on the key, in the script's order, and what is seen of a set: how many members have
-- a score that passes a test, and whether a member is there.
pub record ZSet (S : Type 0) : Type 0 where
  -- What is left of the key at a time: Redis drops it when its time to live is over.
  pub at_time : ℕ → S → S
  -- `ZREMRANGEBYSCORE key -inf (now - window)`
  pub remove_until : ℕ → ℕ → S → S
  pub zcard : S → ℕ
  pub zadd : ℕ → String → S → S
  pub pexpire : ℕ → S → S
  pub count : (ℕ → Bool) → S → ℕ
  pub has : String → S → Bool

pub record Request : Type 0 where
  pub now : ℕ
  pub member : String

module _ {S : Type 0} (z : ZSet S) (window limit : ℕ) where
  -- Is the request refused? The answer 1 of the script is `true` here.
  unfoldable pub sliding_script : Request → S → Bool × S
  sliding_script r s =
      let kept = z.remove_until r.now window s in
      if ltb (z.zcard kept) limit
      then (false, z.pexpire window (z.zadd r.now r.member kept))
      else (true, kept)

  -- The times of the requests that are let through.
  unfoldable pub admitted : List Request → S → List ℕ
  admitted [] s = []
  admitted (r ∷ rs) s =
      let (refused, after) = sliding_script r (z.at_time r.now s) in
      let rest = admitted rs after in if refused then rest else r.now ∷ rest
