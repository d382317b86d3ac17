-- ===== src/Backend/Redis.antt =====
-- The Redis commands that the program sends. A key is a constructor for each of the program's key
-- formats, with what is printed into it; a value is what is written as bytes, or as JSON.
use feed_system_golang.Base.{ℕ, ℤ, String, List, Option, some, none}
use feed_system_golang.Backend.Entity.{Video, Comment}

pub data Key : Type 0 where
  account : ℕ → Key
  user_active : ℕ → Key
  follower_count : ℕ → Key
  global_timeline : Key
  inbox : ℕ → Key
  user_videos : ℕ → Key
  following_bigv : ℕ → Key
  video_detail : ℕ → Key
  video_lock : ℕ → Key
  comment_list : ℕ → ℕ → ℕ → Key
  -- a minute of the hot ranking, and the ranking merged at a minute
  hot_minute : ℤ → Key
  hot_merged : ℤ → Key
  -- the limiters' keys, by prefix and subject
  fixed_window : String → String → Key
  sliding_window : String → String → Key

pub data Value : Type 0 where
  text : String → Value
  number : ℤ → Value
  video_json : Video → Value
  comments_json : List Comment → Value

-- A member of a sorted set with its score. Members are video ids in decimal; a text that is no
-- number is `none`.
pub record Z : Type 0 where
  pub member : Option ℕ
  pub score : ℤ

pub data Bound : Type 0 where
  minus_inf plus_inf : Bound
  at : ℤ → Bound

-- The time to live is in milliseconds, 0 for none.
pub data Command : Type 0 where
  set : Key → Value → ℕ → Command
  setnx : Key → Value → ℕ → Command
  get : Key → Command
  mget : List Key → Command
  del : Key → Command
  exists : Key → Command
  expire : Key → ℕ → Command
  incr : Key → Command
  pexpire : Key → ℕ → Command
  zincrby : Key → ℕ → ℤ → Command
  zadd : Key → List Z → Command
  zcard : Key → Command
  -- the keys with their weights: `n` is the weight 0.95 to the power n
  zunionstore : Key → List (Key × ℕ) → Command
  zrem_range_by_rank : Key → ℤ → ℤ → Command
  zrem_range_by_score : Key → Bound → Bound → Command
  zrange_with_scores : Key → ℤ → ℤ → Command
  zrev_range_with_scores : Key → ℤ → ℤ → Command
  zrev_range : Key → ℤ → ℤ → Command
  zrev_range_by_score : Key → Bound → Bound → ℕ → ℕ → Command
  sadd : Key → ℕ → Command
  srem : Key → ℕ → Command
  smembers : Key → Command

pub data Reply : Type 0 where
  done : Reply
  value : Value → Reply
  values : List (Option Value) → Reply
  int : ℤ → Reply
  zs : List Z → Reply
  members : List (Option ℕ) → Reply

-- `json.Unmarshal` into a video, `strconv.ParseInt`, and so on.
abbrev pub as_video : Value → Option Video
as_video (video_json v) = some v
as_video _ = none

abbrev pub as_comments : Value → Option (List Comment)
as_comments (comments_json cs) = some cs
as_comments _ = none

abbrev pub as_number : Value → Option ℤ
as_number (number n) = some n
as_number _ = none

abbrev pub as_text : Value → Option String
as_text (text s) = some s
as_text _ = none
